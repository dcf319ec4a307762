-- ===== src/Base/Bytes.antt =====
-- `std::string_view`: positions and parts of a text, as bytes.
use Prim.Native.Nat.{ℕ, zero, suc}
use mathlib.Core.Path.{◌≡◌, refl, ap}
use mathlib.Core.Bool.{Bool, true, false}
use mathlib.Core.Option.{Option, none, some}
use mathlib.Core.List.{List, [], ◌∷◌, ◌++◌}
use native.Mathlib.Omega.{arith}
use binance_market_data_gate.Base.Tests.{◌==◌, ==_refl, if◌then◌else◌}
use binance_market_data_gate.Base.Lists.{length, take, drop, All}

abbrev shifted : Option ℕ → Option ℕ
shifted none = none
shifted (some i) = some (suc i)

-- `find`; `npos` is `none`.
unfoldable pub find : ℕ → List ℕ → Option ℕ
find c [] = none
find c (x ∷ xs) = if x == c then some 0 else shifted (find c xs)

abbrev or_here : Option ℕ → Bool → Option ℕ
or_here (some i) here = some (suc i)
or_here none true = some 0
or_here none false = none

-- `rfind`.
unfoldable pub rfind : ℕ → List ℕ → Option ℕ
rfind c [] = none
rfind c (x ∷ xs) = or_here (rfind c xs) (x == c)

-- `substr(position, count)`, where `position` is not past the end.
abbrev pub substr : ℕ → ℕ → List ℕ → List ℕ
substr position count value = take count (drop position value)

abbrev pub Lacks : ℕ → List ℕ → Type 0
Lacks c = All (λ x. (x == c) ≡ false)

pub find-append : (c : ℕ) (xs ys : List ℕ) → Lacks c xs → find c (xs ++ (c ∷ ys)) ≡ some (length xs)
unfolding find
find-append c [] ys h = ground (arith, ==_refl c)
find-append c (x ∷ xs) ys h = rw h.0 (ap shifted (find-append c xs ys h.1))

rfind-Lacks : (c : ℕ) (xs : List ℕ) → Lacks c xs → rfind c xs ≡ none
unfolding rfind
rfind-Lacks c [] h = refl
rfind-Lacks c (x ∷ xs) h = rw (rfind-Lacks c xs h.1, h.0)

pub rfind-append :
    (c : ℕ) (xs ys : List ℕ) → Lacks c ys → rfind c (xs ++ (c ∷ ys)) ≡ some (length xs)
unfolding rfind
rfind-append c [] ys h = rw (rfind-Lacks c ys h, ==_refl c)
rfind-append c (x ∷ xs) ys h = rw (rfind-append c xs ys h)

-- What stands at the position that `find` gives, and before it.
pub find_sound :
    (c : ℕ) (xs : List ℕ) (i : ℕ)
    → find c xs ≡ some i
    → Lacks c (take i xs) × (xs ≡ take i xs ++ (c ∷ drop (suc i) xs))
unfolding find
find_sound c [] i e = ground arith
find_sound c (x ∷ xs) zero e = ground arith
find_sound c (x ∷ xs) (suc i) e = ground (arith, find_sound c xs i)
