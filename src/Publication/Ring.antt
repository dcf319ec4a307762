-- ===== src/Publication/Ring.antt =====
-- The ring of a subscriber channel: `ring_push_locked`, `ring_pop_locked` and
-- `clear_from_writer_locked`, which order_book_publication.cpp and event_publication.cpp both have.
-- A slot is a `std::shared_ptr`, so `none` is null.
pub mod Queue
mod Tests
use binance_market_data_gate.Base.{
  ℕ, zero, suc, ◌%◌, Bool, true, false, not, ◌||◌, Option, none, some, List, [], ◌∷◌, ◌==◌,
  if◌then◌else◌, has_value, set, get_or, replicate,
}
use binance_market_data_gate.Base.Words.{add_u64, sub_u64}

pub record Ring {ℓ} (A : Type ℓ) : Type ℓ where
  pub slots : List (Option A)
  pub head : ℕ
  pub size : ℕ

module _ {ℓ} {A : Type ℓ} (capacity : ℕ) where
  -- A vector of `capacity` null pointers.
  unfoldable pub ring : Ring A
  ring = record { slots = replicate capacity none; head = 0; size = 0 }

  unfoldable pub ring_push : Option A → Ring A → Bool × Ring A
  ring_push item r = if r.size == capacity || not (has_value item) then (false, r) else (
    true,
    record r {
      slots = set r.slots (add_u64 r.head r.size % capacity) item;
      size = add_u64 r.size 1;
    },
  )

  unfoldable pub ring_pop : Ring A → Ring A
  ring_pop r = record r {
    slots = set r.slots r.head none;
    head = add_u64 r.head 1 % capacity;
    size = sub_u64 r.size 1;
  }

  -- The loop, with fuel; each round pops one slot, so `size` rounds are enough.
  unfoldable pub clear_rounds : ℕ → Ring A → Ring A
  clear_rounds zero r = r
  clear_rounds (suc fuel) r =
      let rest = clear_rounds fuel (ring_pop r) in if r.size == 0 then r else rest

  unfoldable pub ring_clear : Ring A → Ring A
  ring_clear r = clear_rounds r.size r

abbrev pub front {ℓ} : {A : Type ℓ} → Ring A → Option A
front r = get_or r.slots r.head none
