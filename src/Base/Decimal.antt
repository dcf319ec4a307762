-- ===== src/Base/Decimal.antt =====
-- Decimal text: `std::to_string` and `std::from_chars` for unsigned numbers, over bytes.
use Prim.Native.Nat.{ℕ, zero, suc, ◌+◌, ◌-◌, ◌*◌, ◌/◌, ◌%◌, ◌<◌, ◌^◌}
use mathlib.Core.Path.{◌≡◌, refl, ap, sym, ◌∙◌}
use mathlib.Core.Bool.{Bool, true, false, ◌&&◌}
use mathlib.Core.Logic.{◌≢◌, ◌↔◌, inl, inr}
use mathlib.Core.List.{List, [], ◌∷◌, ◌++◌}
use native.Mathlib.Omega.{arith}
use binance_market_data_gate.Base.Tests.{ltb, leb, if◌then◌else◌, Bool-cases}
use binance_market_data_gate.Base.Lists.{All, All-append}

abbrev pub is_digit : ℕ → Bool
is_digit c = leb b'0' c && leb c b'9'

-- The digits of `n`; each round drops one, so `suc n` rounds are enough.
decimal : ℕ → ℕ → List ℕ
decimal zero n = []
decimal (suc f) n =
    let high = decimal f (n / 10) in
    if ltb n 10 then (b'0' + n) ∷ [] else high ++ ((b'0' + n % 10) ∷ [])

-- `std::to_string`.
unfoldable pub to_string : ℕ → List ℕ
unfolding decimal
to_string n = decimal (suc n) n

-- The digits at the front of a text, read onto `acc`, and what follows them.
unfoldable pub read_digits : ℕ → List ℕ → ℕ × List ℕ
read_digits acc [] = (acc, [])
read_digits acc (c ∷ cs) =
    let rest = read_digits (acc * 10 + (c - b'0')) cs in if is_digit c then rest else (acc, c ∷ cs)

pub data Errc : Type 0 where
  success invalid_argument result_out_of_range : Errc

-- What `std::from_chars` gives: the error code, the value, and the text from `ptr` on.
pub record FromChars : Type 0 where
  pub ec : Errc
  pub value : ℕ
  pub rest : List ℕ

starts_with_digit : List ℕ → Bool
starts_with_digit [] = false
starts_with_digit (c ∷ cs) = is_digit c

-- `std::from_chars` into a `std::uint32_t` that holds 0. A value that does not fit is not stored.
unfoldable pub from_chars_u32 : List ℕ → FromChars
unfolding starts_with_digit
from_chars_u32 text =
    let (n, rest) = read_digits 0 text in
    if starts_with_digit text
    then if ltb n (2 ^ 32)
      then record { ec = success; value = n; rest = rest }
      else record { ec = result_out_of_range; value = 0; rest = rest }
    else record { ec = invalid_argument; value = 0; rest = text }

-- `std::from_chars` into a `std::uint64_t` that holds 0.
unfoldable pub from_chars_u64 : List ℕ → FromChars
unfolding starts_with_digit
from_chars_u64 text =
    let (n, rest) = read_digits 0 text in
    if starts_with_digit text
    then if ltb n (2 ^ 64)
      then record { ec = success; value = n; rest = rest }
      else record { ec = result_out_of_range; value = 0; rest = rest }
    else record { ec = invalid_argument; value = 0; rest = text }

abbrev pub IsDigits : List ℕ → Type 0
IsDigits = All (λ c. is_digit c ≡ true)

-- The number that a text of digits stands for.
unfoldable pub decimal_value : List ℕ → ℕ
decimal_value text = (read_digits 0 text).0

read_digits-append :
    (acc : ℕ) (xs : List ℕ) (d : ℕ)
    → d < 10
    → read_digits acc xs ≡ ((read_digits acc xs).0, [])
    → read_digits acc (xs ++ ((b'0' + d) ∷ [])) ≡ ((read_digits acc xs).0 * 10 + d, [])
unfolding read_digits
read_digits-append acc [] d h e = ground arith
read_digits-append acc (c ∷ cs) d h e =
    ground (arith, read_digits-append (acc * 10 + (c - b'0')) cs d h)

decimal-read : (f n : ℕ) → n < f → read_digits 0 (decimal f n) ≡ (n, [])
unfolding decimal
decimal-read zero n h = elim h [ ]
decimal-read (suc f) n h = elim (Bool-cases (ltb n 10)) [
  | inl e ↦ rw e (unfold read_digits in ground arith)
  | inr e ↦
      let ih : read_digits 0 (decimal f (n / 10)) ≡ (n / 10, []) =
        decimal-read f (n / 10) (ground arith) in
      let step = read_digits-append 0 (decimal f (n / 10)) (n % 10) (omega arith) (rw ih) in
      rw e (step ∙ ground (arith, ih))
]

pub read_digits-to_string : (n : ℕ) → read_digits 0 (to_string n) ≡ (n, [])
unfolding to_string
read_digits-to_string n = decimal-read (suc n) n (omega arith)

decimal-IsDigits : (f n : ℕ) → IsDigits (decimal f n)
unfolding decimal
decimal-IsDigits zero n = tt
decimal-IsDigits (suc f) n = elim (Bool-cases (ltb n 10)) [
  | inl e ↦ rw e (ground arith, tt)
  | inr e ↦ rw e (
      All-append _ (decimal f (n / 10)) ((b'0' + n % 10) ∷ []) (decimal-IsDigits f (n / 10))
        (ground arith, tt))
]

pub to_string-IsDigits : (n : ℕ) → IsDigits (to_string n)
unfolding to_string
to_string-IsDigits n = decimal-IsDigits (suc n) n

snoc-ne-nil : (xs : List ℕ) (y : ℕ) → xs ++ (y ∷ []) ≢ []
snoc-ne-nil [] y e = cc
snoc-ne-nil (x ∷ xs) y e = cc

decimal-ne-nil : (f n : ℕ) → decimal (suc f) n ≢ []
unfolding decimal
decimal-ne-nil f n e = elim (Bool-cases (ltb n 10)) [
  | inl h ↦ ground arith
  | inr h ↦ snoc-ne-nil (decimal f (n / 10)) (b'0' + n % 10) (rw h at e)
]

pub to_string-ne-nil : (n : ℕ) → to_string n ≢ []
unfolding to_string
to_string-ne-nil n = decimal-ne-nil n n

starts_with_digit-IsDigits : (xs : List ℕ) → IsDigits xs → xs ≢ [] → starts_with_digit xs ≡ true
unfolding starts_with_digit
starts_with_digit-IsDigits [] d h = absurd (h refl)
starts_with_digit-IsDigits (x ∷ xs) d h = d.0

read_digits-nil-IsDigits : (acc : ℕ) (text : List ℕ) → (read_digits acc text).1 ≡ [] → IsDigits text
unfolding read_digits
read_digits-nil-IsDigits acc [] e = tt
read_digits-nil-IsDigits acc (c ∷ cs) e =
    ground (arith, read_digits-nil-IsDigits (acc * 10 + (c - b'0')) cs)

read_digits-IsDigits : (acc : ℕ) (text : List ℕ) → IsDigits text → (read_digits acc text).1 ≡ []
unfolding read_digits
read_digits-IsDigits acc [] d = refl
read_digits-IsDigits acc (c ∷ cs) d =
    ground (arith, read_digits-IsDigits (acc * 10 + (c - b'0')) cs d.1)

-- `std::from_chars` reads a text of digits whole, if the value fits.
pub from_chars_complete :
    (text : List ℕ)
    → IsDigits text
    → text ≢ []
    → decimal_value text < 2 ^ 32
    → from_chars_u32 text ≡ record { ec = success; value = decimal_value text; rest = [] }
unfolding from_chars_u32 decimal_value
from_chars_complete text d n h =
    ground (arith, read_digits-IsDigits 0 text d, starts_with_digit-IsDigits text d n)

-- Different numbers have different decimal texts.
pub to_string-injective : (m n : ℕ) → to_string m ≡ to_string n → m ≡ n
to_string-injective m n e =
    ap (λ (p : ℕ × List ℕ). p.0)
      (sym (read_digits-to_string m) ∙ ap (read_digits 0) e ∙ read_digits-to_string n)

-- `std::from_chars` reads back what `std::to_string` writes.
pub from_chars-to_string :
    (n : ℕ)
    → n < 2 ^ 32
    → from_chars_u32 (to_string n) ≡ record { ec = success; value = n; rest = [] }
unfolding from_chars_u32
from_chars-to_string n h = ground (
  arith,
  read_digits-to_string n,
  starts_with_digit-IsDigits (to_string n) (to_string-IsDigits n) (to_string-ne-nil n),
)

-- Whatever `std::from_chars` consumes are the digits of the value that it gives.
pub from_chars_sound :
    (text : List ℕ)
    → (from_chars_u32 text).ec ≡ success
    → (from_chars_u32 text).rest ≡ []
    → IsDigits text × (text ≢ []) × (decimal_value text ≡ (from_chars_u32 text).value)
unfolding from_chars_u32 decimal_value
from_chars_sound [] h e = ground arith
from_chars_sound (c ∷ cs) h e = ground (arith, read_digits-nil-IsDigits 0 (c ∷ cs))

-- The same for 64 bits: what `std::from_chars` reads whole are the digits of a value that fits.
pub from_chars_u64_iff :
    (text : List ℕ) (n : ℕ)
    → (from_chars_u64 text ≡ record { ec = success; value = n; rest = [] })
      ↔ (IsDigits text × (text ≢ []) × (decimal_value text ≡ n) × (n < 2 ^ 64))
unfolding from_chars_u64 decimal_value
from_chars_u64_iff [] n = (λ h. ground (arith, h), λ (d, full, v, b). absurd (full refl))
from_chars_u64_iff (c ∷ cs) n = (
  λ h. (
    read_digits-nil-IsDigits 0 (c ∷ cs) (ground (arith, h)),
    λ e. cc,
    ground (arith, h),
    ground (arith, h),
  ),
  λ (d, full, v, b). ground (
    arith,
    d,
    v,
    b,
    read_digits-IsDigits 0 (c ∷ cs) d,
    starts_with_digit-IsDigits (c ∷ cs) d full,
  ),
)
