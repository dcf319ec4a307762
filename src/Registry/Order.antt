-- ===== src/Registry/Order.antt =====
-- The order `MarketKeyLess`, and the entries under sorting: src/g11/market_key.hpp and
-- src/g11/market_registry.cpp.
use mathlib.Core.List.{Perm}
use mathlib.Core.List.Perm
use binance_market_data_gate.Base.{
  ℕ, ◌≡◌, refl, inl, inr, true, false, List, [], ◌∷◌, All, All-map, Bool-cases, if_cases, arith,
}
use binance_market_data_gate.Registry.{
  MarketKey, bytes_eq, bytes_less, key_eq, key_less, MarketServices, insert, sort,
}

pub bytes_eq→eq : (a b : List ℕ) → bytes_eq a b ≡ true → a ≡ b
unfolding bytes_eq
bytes_eq→eq [] [] h = refl
bytes_eq→eq (x ∷ a) (y ∷ b) h = ground (arith, bytes_eq→eq a b)
bytes_eq→eq [] (y ∷ b) h = ground arith
bytes_eq→eq (x ∷ a) [] h = ground arith

pub bytes_eq_refl : (a : List ℕ) → bytes_eq a a ≡ true
unfolding bytes_eq
bytes_eq_refl [] = refl
bytes_eq_refl (x ∷ a) = ground (arith, bytes_eq_refl a)

bytes_less_irrefl : (a : List ℕ) → bytes_less a a ≡ false
unfolding bytes_less
bytes_less_irrefl [] = refl
bytes_less_irrefl (x ∷ a) = ground (arith, bytes_less_irrefl a)

bytes_less_trans :
    (a b c : List ℕ) → bytes_less a b ≡ true → bytes_less b c ≡ true → bytes_less a c ≡ true
unfolding bytes_less
bytes_less_trans [] [] c h k = ground arith
bytes_less_trans [] (y ∷ b) [] h k = ground arith
bytes_less_trans [] (y ∷ b) (z ∷ c) h k = refl
bytes_less_trans (x ∷ a) [] c h k = ground arith
bytes_less_trans (x ∷ a) (y ∷ b) [] h k = ground arith
bytes_less_trans (x ∷ a) (y ∷ b) (z ∷ c) h k = ground (arith, bytes_less_trans a b c)

bytes_less_total : (a b : List ℕ) → bytes_less a b ≡ false → bytes_less b a ≡ false → a ≡ b
unfolding bytes_less
bytes_less_total [] [] h k = refl
bytes_less_total [] (y ∷ b) h k = ground arith
bytes_less_total (x ∷ a) [] h k = ground arith
bytes_less_total (x ∷ a) (y ∷ b) h k = ground (arith, bytes_less_total a b)

pub key_eq→eq : (k l : MarketKey) → key_eq k l ≡ true → k ≡ l
unfolding key_eq
key_eq→eq k l h = ground (arith, bytes_eq→eq k.symbol l.symbol)

pub key_eq_refl : (k : MarketKey) → key_eq k k ≡ true
unfolding key_eq
key_eq_refl k = ground (arith, bytes_eq_refl k.symbol)

pub key_less_irrefl : (k : MarketKey) → key_less k k ≡ false
unfolding key_less
key_less_irrefl k = ground (arith, bytes_less_irrefl k.symbol)

pub key_less_trans :
    (k l m : MarketKey) → key_less k l ≡ true → key_less l m ≡ true → key_less k m ≡ true
unfolding key_less
key_less_trans k l m h i = ground (arith, bytes_less_trans k.symbol l.symbol m.symbol)

pub key_less_total : (k l : MarketKey) → key_less k l ≡ false → key_less l k ≡ false → k ≡ l
unfolding key_less
key_less_total k l h i = ground (arith, bytes_less_total k.symbol l.symbol)

-- No entry is less than one before it.
abbrev pub IsSorted : List MarketServices → Type 0
IsSorted [] = Unit
IsSorted (e ∷ es) = All (λ x. key_less x.key e.key ≡ false) es × IsSorted es

insert-All :
    (P : MarketServices → Type 0) (e : MarketServices) (xs : List MarketServices)
    → P e
    → All P xs
    → All P (insert e xs)
unfolding insert
insert-All P e [] p a = (p, tt)
insert-All P e (x ∷ xs) p a =
    if_cases (λ (l : List MarketServices). All P l) (key_less e.key x.key) (λ _. (p, a))
      (λ _. (a.0, insert-All P e xs p a.1))

not_less : (k l : MarketKey) → key_less k l ≡ true → key_less l k ≡ false
not_less k l h = elim (Bool-cases (key_less l k)) [
  | inr e ↦ e
  | inl e ↦ ground (arith, key_less_trans k l k h e, key_less_irrefl k)
]

insert-IsSorted :
    (e : MarketServices) (xs : List MarketServices) → IsSorted xs → IsSorted (insert e xs)
unfolding insert
insert-IsSorted e [] s = (tt, tt)
insert-IsSorted e (x ∷ xs) s =
    if_cases (λ (l : List MarketServices). IsSorted l) (key_less e.key x.key)
      (λ h. (
        (
          not_less e.key x.key h,
          All-map _ _ xs
              (λ y n. elim (Bool-cases (key_less y.key e.key)) [
                | inr o ↦ o
                | inl o ↦ ground (arith, key_less_trans y.key e.key x.key o h, n)
              ])
              s.0,
        ),
        s,
      ))
      (λ h. (insert-All _ e xs h s.0, insert-IsSorted e xs s.1))

pub sort-IsSorted : (es : List MarketServices) → IsSorted (sort es)
unfolding sort
sort-IsSorted [] = tt
sort-IsSorted (e ∷ es) = insert-IsSorted e (sort es) (sort-IsSorted es)

insert-Perm : (e : MarketServices) (xs : List MarketServices) → Perm (e ∷ xs) (insert e xs)
unfolding insert
insert-Perm e [] = Perm.refl (e ∷ [])
insert-Perm e (x ∷ xs) =
    if_cases (λ (l : List MarketServices). Perm (e ∷ x ∷ xs) l) (key_less e.key x.key)
      (λ _. Perm.refl (e ∷ x ∷ xs))
      (λ _. Perm.trans (Perm.swap x e xs) (Perm.cons x (insert-Perm e xs)))

pub sort-Perm : (es : List MarketServices) → Perm es (sort es)
unfolding sort
sort-Perm [] = Perm.refl []
sort-Perm (e ∷ es) = Perm.trans (Perm.cons e (sort-Perm es)) (insert-Perm e (sort es))
