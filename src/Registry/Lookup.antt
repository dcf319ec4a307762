-- ===== src/Registry/Lookup.antt =====
-- What `find` gives on a registry that was built: src/g11/market_registry.cpp.
use mathlib.Core.List.{Mem, Memᴰ, mem-cons_self, mem-cons_of_mem, not-mem-nil}
use mathlib.Core.List.Perm
use mathlib.Core.Logic.{∥∥₁_elim}
use binance_market_data_gate.Base.{
  ◌≡◌, refl, sym, subst, inl, inr, ◌↔◌, true, false, Option, some, List, [], ◌∷◌, All, All-map,
  Bool-cases, arith,
}
use binance_market_data_gate.Registry.{
  MarketKey, key_eq, key_less, MarketServices, sort, check_entries, repeats_key,
  market_runtime_registry, find_services,
}
use binance_market_data_gate.Registry.Order.{
  key_eq→eq, key_eq_refl, key_less_total, IsSorted, sort-IsSorted, sort-Perm,
}

options_set : IsSet (Option MarketServices)
options_set = hlevel

-- No two entries have the same key.
abbrev IsUnique : List MarketServices → Type 0
IsUnique [] = Unit
IsUnique (e ∷ es) = All (λ x. key_eq e.key x.key ≡ false) es × IsUnique es

-- In a sorted list, a key that differs from the next differs from all behind.
differs :
    (e y : MarketServices) (ys : List MarketServices)
    → IsSorted (e ∷ y ∷ ys)
    → key_eq e.key y.key ≡ false
    → All (λ x. key_eq e.key x.key ≡ false) (y ∷ ys)
differs e y ys s d = (
  d,
  All-map _ _ ys
      (λ x n. elim (Bool-cases (key_eq e.key x.key)) [
        | inr o ↦ o
        | inl o ↦
            let same : e.key ≡ x.key = key_eq→eq e.key x.key o in
            let less : key_less e.key y.key ≡ false =
              subst (λ k. key_less k y.key ≡ false) (sym same) n in
            let equal : e.key ≡ y.key = key_less_total e.key y.key less s.0.0 in
            let self : key_eq e.key e.key ≡ false =
              subst (λ k. key_eq e.key k ≡ false) (sym equal) d in
            ground (arith, self, key_eq_refl e.key)
      ])
      s.1.0,
)

check_entries-IsUnique :
    (earlier es : List MarketServices) → IsSorted es → check_entries earlier es ≡ true → IsUnique es
unfolding check_entries repeats_key
check_entries-IsUnique earlier [] s h = tt
check_entries-IsUnique earlier (e ∷ []) s h = (tt, tt)
check_entries-IsUnique earlier (e ∷ y ∷ ys) s h = (
  differs e y ys s (ground arith),
  check_entries-IsUnique (e ∷ earlier) (y ∷ ys) s.1 (ground arith),
)

find_services_sound :
    (key : MarketKey) (e : MarketServices) (es : List MarketServices)
    → find_services key es ≡ some e
    → Mem e es × (e.key ≡ key)
unfolding find_services
find_services_sound key e [] h = ground arith
find_services_sound key e (x ∷ es) h = elim (Bool-cases (key_eq x.key key)) [
  | inl o ↦
      let same : x ≡ e = ground (arith, o, h) in
      subst (λ z. Mem z (x ∷ es) × (z.key ≡ key)) same (mem-cons_self, key_eq→eq x.key key o)
  | inr o ↦
      let (m, k) = find_services_sound key e es (ground (arith, o, h)) in (mem-cons_of_mem x m, k)
]

All-Mem :
    (P : MarketServices → Type 0) {e : MarketServices} (es : List MarketServices)
    → All P es
    → Memᴰ e es
    → P e
All-Mem P [] a m = absurd (not-mem-nil ∣ m ∣₁)
All-Mem P (x ∷ es) a (Memᴰ.head p) = subst P (sym p) a.0
All-Mem P (x ∷ es) a (Memᴰ.tail m) = All-Mem P es a.1 m

find_services_complete :
    (e : MarketServices) (es : List MarketServices)
    → IsUnique es
    → Memᴰ e es
    → find_services e.key es ≡ some e
unfolding find_services
find_services_complete e [] u m = absurd (not-mem-nil ∣ m ∣₁)
find_services_complete e (x ∷ es) u (Memᴰ.head p) = rw (sym p, key_eq_refl e.key) refl
find_services_complete e (x ∷ es) u (Memᴰ.tail m) =
    let other : key_eq x.key e.key ≡ false = All-Mem (λ y. key_eq x.key y.key ≡ false) es u.0 m in
    rw other (find_services_complete e es u.1 m)

-- On a registry that was built, `find` gives for the key of an entry that entry, and it gives no
-- other: what it returns is a configured entry with that key.
pub find_services_iff :
    (entries registry : List MarketServices)
    → market_runtime_registry entries ≡ some registry
    → (key : MarketKey) (e : MarketServices)
    → (find_services key registry ≡ some e) ↔ (Mem e entries × (e.key ≡ key))
unfolding market_runtime_registry
find_services_iff entries registry built key e =
    let same : sort entries ≡ registry = ground arith in
    let checked : check_entries [] (sort entries) ≡ true = ground arith in
    let unique = check_entries-IsUnique [] (sort entries) (sort-IsSorted entries) checked in
    subst (λ l. (find_services key l ≡ some e) ↔ (Mem e entries × (e.key ≡ key))) same
      (
        λ h.
            let (m, k) = find_services_sound key e (sort entries) h in
            ((Perm.mem_iff (sort-Perm entries)).1 m, k),
        λ (m, k).
            subst (λ j. find_services j (sort entries) ≡ some e) k
              (∥∥₁_elim ((Perm.mem_iff (sort-Perm entries)).0 m) (options_set _ _)
                (λ d. find_services_complete e (sort entries) unique d)),
      )
