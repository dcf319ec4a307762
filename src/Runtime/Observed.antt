-- ===== src/Runtime/Observed.antt =====
-- The enumerations and samples of src/g3/market_runtime.hpp that the runtime's observers read too.
use binance_market_data_gate.Base.{ℕ, Bool, true, false, Option}

-- An enumerator, or a value cast from `std::uint8_t` that no enumerator has.
pub data RuntimeState : Type 0 where
  constructed buffering awaiting_bridge live needs_resync faulted : RuntimeState
  stopping stopped : RuntimeState
  other_state : ℕ → RuntimeState

abbrev pub is_live : RuntimeState → Bool
is_live live = true
is_live _ = false

-- The enumerators of `core::ProjectionStatus` that `state_for_projection` names.
pub data ProjectionStatus : Type 0 where
  awaiting_baseline projection_awaiting_bridge synchronized projection_needs_resync :
      ProjectionStatus

abbrev pub is_synchronized : ProjectionStatus → Bool
is_synchronized synchronized = true
is_synchronized _ = false

pub record AppliedDepthObservation : Type 0 where
  pub receive_time_utc_ns : Option ℕ
  pub receive_monotonic_ns : Option ℕ
  pub connection_generation : Option ℕ

pub record ClockSample : Type 0 where
  pub utc_ns : ℕ
  pub monotonic_ns : ℕ

abbrev pub is_faulted : RuntimeState → Bool
is_faulted faulted = true
is_faulted _ = false

abbrev pub is_needs_resync : RuntimeState → Bool
is_needs_resync needs_resync = true
is_needs_resync _ = false

abbrev pub is_stopping : RuntimeState → Bool
is_stopping stopping = true
is_stopping _ = false

abbrev pub is_stopped : RuntimeState → Bool
is_stopped stopped = true
is_stopped _ = false

abbrev pub is_awaiting_baseline : ProjectionStatus → Bool
is_awaiting_baseline awaiting_baseline = true
is_awaiting_baseline _ = false

abbrev pub is_projection_needs_resync : ProjectionStatus → Bool
is_projection_needs_resync projection_needs_resync = true
is_projection_needs_resync _ = false
