-- ===== src/Publication/Ring/Queue.antt =====
-- A ring holds a queue, oldest first: what each operation does to the queue.
use native.Mathlib.Nat.{add-zero, mod-eq_of_lt, mod-eq-sub-mod, mod-add-mod}
use native.Mathlib.Decide.{dec_lt}
use binance_market_data_gate.Base.{
  ℕ, suc, ◌+◌, ◌-◌, ◌%◌, ◌≤◌, ◌<◌, ◌^◌, ◌≡◌, refl, sym, ap, subst, ◌∙◌, ◌≢◌, ◌⊎◌, inl, inr, true,
  false, Option, none, some, List, [], ◌∷◌, ◌++◌, get_or, set, get_elem?, length, length-append,
  length-set, length-replicate, get_or-set_self, get_or-set_ne, get_elem?-append_left,
  get_elem?-append_length, ◌==◌, arith,
}
use binance_market_data_gate.Base.Words.{add_u64, sub_u64}
use binance_market_data_gate.Publication.Ring.{
  Ring, ring, ring_push, ring_pop, clear_rounds, ring_clear, front,
}

pub record Holds {ℓ} {A : Type ℓ} (capacity : ℕ) (r : Ring A) (q : List A) : Type ℓ where
  pub positive : 0 < capacity
  pub small : capacity ≤ 2 ^ 63
  pub slots_length : length r.slots ≡ capacity
  pub head_in : r.head < capacity
  pub size_eq : r.size ≡ length q
  pub size_in : length q ≤ capacity
  pub at : (k : ℕ) → k < length q → get_or r.slots ((r.head + k) % capacity) none ≡ get_elem? q k

mod_cases : (n m : ℕ) → n < m + m → ((n < m) × (n % m ≡ n)) ⊎ ((m ≤ n) × (n % m ≡ n - m))
mod_cases n m h = elim (dec_lt n m) [
  | yes p ↦ inl (p, mod-eq_of_lt p)
  | no p ↦ inr (
    omega arith,
    mod-eq-sub-mod {n = n} {m = m} (omega arith) ∙ mod-eq_of_lt {n = n - m} {m = m} (omega arith),
  )
]

-- Two positions of a window shorter than the ring are different.
add-mod-ne : (m h j k : ℕ) → h < m → j < k → k < m → (h + j) % m ≢ (h + k) % m
add-mod-ne m h j k a b c e =
    omega (arith, mod_cases (h + j) m (omega arith), mod_cases (h + k) m (omega arith))

-- The operations, in arithmetic that does not wrap.
abbrev pushed {ℓ} : {A : Type ℓ} → ℕ → Ring A → List A → A → Ring A
pushed capacity r q x = record r {
  slots = set r.slots ((r.head + length q) % capacity) (some x);
  size = suc (length q);
}

abbrev popped {ℓ} : {A : Type ℓ} → ℕ → Ring A → List A → Ring A
popped capacity r q = record r {
  slots = set r.slots r.head none;
  head = (r.head + 1) % capacity;
  size = length q;
}

module _ {ℓ} {A : Type ℓ} {capacity : ℕ} where
  pub ring-Holds : 0 < capacity → capacity ≤ 2 ^ 63 → Holds {A = A} capacity (ring capacity) []
  unfolding ring
  ring-Holds p s = record {
    positive = p;
    small = s;
    slots_length = length-replicate capacity none;
    head_in = p;
    size_eq = refl;
    size_in = omega arith;
    at = λ k h. absurd (omega arith);
  }

  ring_push-eq-pushed :
      {r : Ring A} {q : List A} (x : A)
      → Holds capacity r q
      → length q < capacity
      → ring_push capacity (some x) r ≡ (true, pushed capacity r q x)
  unfolding ring_push
  ring_push-eq-pushed {r} {q} x v h =
      let tail : add_u64 r.head r.size ≡ r.head + length q = omega arith in ground (arith, tail)

  ring_pop-eq-popped :
      {r : Ring A} {q : List A} (x : A)
      → Holds capacity r (x ∷ q)
      → ring_pop capacity r ≡ popped capacity r q
  unfolding ring_pop
  ring_pop-eq-popped {r} {q} x v =
      let next : add_u64 r.head 1 ≡ r.head + 1 = omega arith in
      let less : sub_u64 r.size 1 ≡ length q = omega arith in rw (next, less)

  pushed-at :
      {r : Ring A} {q : List A} (x : A)
      → Holds capacity r q
      → length q < capacity
      → (k : ℕ) → k < length (q ++ (x ∷ []))
      → get_or (pushed capacity r q x).slots ((r.head + k) % capacity) none
        ≡ get_elem? (q ++ (x ∷ [])) k
  pushed-at {r} {q} x v h k b = elim (dec_lt k (length q)) [
    | yes p ↦
        get_or-set_ne r.slots ((r.head + length q) % capacity) ((r.head + k) % capacity) (some x)
          none (λ e. add-mod-ne capacity r.head k (length q) v.head_in p h (sym e))
        ∙ v.at k p
        ∙ sym (get_elem?-append_left q (x ∷ []) k p)
    | no p ↦
        let last : k ≡ length q = omega (arith, length-append q (x ∷ [])) in
        rw last (
          get_or-set_self r.slots ((r.head + length q) % capacity) (some x) none (omega arith)
          ∙ sym (get_elem?-append_length q x))
  ]

  pushed-Holds :
      {r : Ring A} {q : List A} (x : A)
      → Holds capacity r q
      → length q < capacity
      → Holds capacity (pushed capacity r q x) (q ++ (x ∷ []))
  pushed-Holds {r} {q} x v h = record {
    positive = v.positive;
    small = v.small;
    slots_length = length-set r.slots _ _ ∙ v.slots_length;
    head_in = v.head_in;
    size_eq = omega (arith, length-append q (x ∷ []));
    size_in = omega (arith, length-append q (x ∷ []));
    at = pushed-at x v h;
  }

  -- A push on a ring that holds a queue and is not full succeeds, and the ring then holds the queue with
  -- the item at its end.
  pub ring_push-Holds :
      {r : Ring A} {q : List A} (x : A)
      → Holds capacity r q
      → length q < capacity
      → ((ring_push capacity (some x) r).0 ≡ true)
        × Holds capacity (ring_push capacity (some x) r).1 (q ++ (x ∷ []))
  ring_push-Holds {r} {q} x v h = rw (ring_push-eq-pushed x v h) (refl, pushed-Holds x v h)

  -- A push on a full ring is refused and changes nothing.
  pub ring_push-full :
      {r : Ring A} {q : List A} (item : Option A)
      → Holds capacity r q
      → length q ≡ capacity
      → ring_push capacity item r ≡ (false, r)
  unfolding ring_push
  ring_push-full {r} {q} item v h = ground arith

  popped-at :
      {r : Ring A} {q : List A} (x : A)
      → Holds capacity r (x ∷ q)
      → (k : ℕ) → k < length q
      → get_or (popped capacity r q).slots (((r.head + 1) % capacity + k) % capacity) none
        ≡ get_elem? q k
  popped-at {r} {q} x v k b =
      let shift : ((r.head + 1) % capacity + k) % capacity ≡ (r.head + suc k) % capacity =
        rw mod-add-mod
          (ap (λ n. n % capacity) {x = r.head + 1 + k} {y = r.head + suc k} (omega arith)) in
      rw shift (
        get_or-set_ne r.slots r.head ((r.head + suc k) % capacity) none none (λ e.
          add-mod-ne capacity r.head 0 (suc k) v.head_in (omega arith) (omega arith) (head_mod ∙ e))
        ∙ v.at (suc k) (omega arith))
    where
      head_mod : (r.head + 0) % capacity ≡ r.head
      head_mod = rw (add-zero, mod-eq_of_lt v.head_in)

  -- A pop on a ring that holds a queue with a first item leaves a ring that holds the rest.
  pub ring_pop-Holds :
      {r : Ring A} {q : List A} (x : A)
      → Holds capacity r (x ∷ q)
      → Holds capacity (ring_pop capacity r) q
  ring_pop-Holds {r} {q} x v = rw (ring_pop-eq-popped x v) (record {
    positive = v.positive;
    small = v.small;
    slots_length = length-set r.slots _ _ ∙ v.slots_length;
    head_in = omega arith;
    size_eq = refl;
    size_in = omega arith;
    at = popped-at x v;
  })

  -- The slot at `head` is the oldest item.
  pub front-Holds : {r : Ring A} {q : List A} (x : A) → Holds capacity r (x ∷ q) → front r ≡ some x
  front-Holds {r} {q} x v =
      let here : (r.head + 0) % capacity ≡ r.head = rw (add-zero, mod-eq_of_lt v.head_in) in
      rw here at (v.at 0 (omega arith))

  clear_rounds-Holds :
      (q : List A) {r : Ring A}
      → Holds capacity r q
      → Holds capacity (clear_rounds capacity (length q) r) []
  unfolding clear_rounds
  clear_rounds-Holds [] v = v
  clear_rounds-Holds (x ∷ q) {r} v =
      rw (nonempty, clear_rounds) (clear_rounds-Holds q (ring_pop-Holds x v))
    where
      nonempty : (r.size == 0) ≡ false
      nonempty = ground arith

  -- Clearing a ring that holds a queue ends, and leaves a ring that holds the empty queue.
  pub ring_clear-Holds :
      (q : List A) {r : Ring A} → Holds capacity r q → Holds capacity (ring_clear capacity r) []
  unfolding ring_clear
  ring_clear-Holds q {r} v =
      subst (λ n. Holds capacity (clear_rounds capacity n r) []) (sym v.size_eq)
        (clear_rounds-Holds q v)
