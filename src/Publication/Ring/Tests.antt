-- ===== src/Publication/Ring/Tests.antt =====
-- A ring of two slots on concrete items.
use binance_market_data_gate.Base.{ℕ, ◌≡◌, true, some, [], ◌∷◌, arith}
use binance_market_data_gate.Publication.Ring.{Ring, ring, ring_push, ring_pop, ring_clear}
use binance_market_data_gate.Publication.Ring.Queue.{
  Holds, ring-Holds, ring_push-Holds, ring_pop-Holds, ring_clear-Holds,
}

abbrev pushed_once : Ring ℕ
pushed_once = (ring_push 2 (some 5) (ring 2)).1

pushed_once-Holds : Holds 2 pushed_once (5 ∷ [])
pushed_once-Holds =
    (ring_push-Holds 5 (ring-Holds {capacity = 2} (omega arith) (omega arith)) (omega arith)).1

abbrev pushed_twice : Ring ℕ
pushed_twice = (ring_push 2 (some 6) pushed_once).1

pushed_twice-Holds : Holds 2 pushed_twice (5 ∷ 6 ∷ [])
pushed_twice-Holds = (ring_push-Holds 6 pushed_once-Holds (omega arith)).1

ring_push-Holds_example :
    ((ring_push 2 (some 6) pushed_once).0 ≡ true)
    × Holds 2 (ring_push 2 (some 6) pushed_once).1 (5 ∷ 6 ∷ [])
ring_push-Holds_example = ring_push-Holds 6 pushed_once-Holds (omega arith)

ring_pop-Holds_example : Holds 2 (ring_pop 2 pushed_twice) (6 ∷ [])
ring_pop-Holds_example = ring_pop-Holds 5 pushed_twice-Holds

ring_clear-Holds_example : Holds 2 (ring_clear 2 pushed_twice) []
ring_clear-Holds_example = ring_clear-Holds (5 ∷ 6 ∷ []) pushed_twice-Holds
