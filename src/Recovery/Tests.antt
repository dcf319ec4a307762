-- ===== src/Recovery/Tests.antt =====
-- The recovery's decisions at concrete failures.
use binance_market_data_gate.Base.{
  ℕ, ◌≤◌, ◌≡◌, refl, ◌⊎◌, ◌↔◌, ◌≢◌, true, false, ◌&&◌, some, List, [], ◌∷◌, arith,
}
use binance_market_data_gate.Base.Decimal.{IsDigits, decimal_value}
use binance_market_data_gate.Runtime.Observed.{faulted, synchronized}
use binance_market_data_gate.Runtime.Types.{snapshot_failure}
use binance_market_data_gate.Recovery.Types.{
  http_status, NetworkError, TransportObservation, RuntimeCut, RecoveryDecision,
}
use binance_market_data_gate.Recovery.Policy.{
  seconds_max, parse_retry_after, classify_failure, recovery_step, exhausted, backs_off,
}
use binance_market_data_gate.Recovery.History.{FailureHistory, record_failure}
use binance_market_data_gate.Recovery.Laws.{
  parse_retry_after_iff, is_failure, is_mendable, classify_failure-recoverable,
  recovery_step-bounded, recent, record_failure-recent,
}

abbrev limited : NetworkError
limited = record {
  code = http_status;
  stage = [];
  message = [];
  status = some 429;
  retry_after = some (b'4' ∷ b'5' ∷ []);
}

abbrev failed : RuntimeCut
failed = record {
  state = faulted;
  projection_status = synchronized;
  fault_reason = some snapshot_failure;
}

abbrev cut : TransportObservation
cut = record { running = false; stopped = true; terminal_error = some limited }

parse_retry_after_iff_example : (parse_retry_after (some (b'4' ∷ b'5' ∷ [])) ≡ some 45) ↔ (
    IsDigits (b'4' ∷ b'5' ∷ [])
    × (◌≢◌ {A = List ℕ} (b'4' ∷ b'5' ∷ []) [])
    × (decimal_value (b'4' ∷ b'5' ∷ []) ≡ 45)
    × (45 ≤ seconds_max))
parse_retry_after_iff_example = parse_retry_after_iff (b'4' ∷ b'5' ∷ []) 45

classify_failure-recoverable_example :
    (classify_failure failed cut).recoverable
    ≡ (is_failure failed cut.terminal_error && is_mendable cut.terminal_error)
classify_failure-recoverable_example = classify_failure-recoverable failed cut

abbrev asked : RecoveryDecision
asked = classify_failure failed cut

recovery_step-bounded_example :
    ((6 ≤ 2) × (recovery_step 2 asked ≡ exhausted))
    ⊎ ((delay : ℕ) × (recovery_step 2 asked ≡ backs_off 3 (some delay))
        × (3 ≤ 6)
        × (1 ≤ delay)
        × ((least : ℕ) → asked.minimum_delay ≡ some least → least ≤ delay))
recovery_step-bounded_example = recovery_step-bounded 2 asked

abbrev filled : FailureHistory ℕ
filled = record { failure_history = 1 ∷ 2 ∷ 3 ∷ 4 ∷ 5 ∷ 6 ∷ 7 ∷ []; failure_history_size = 7 }

filled-shifts : recent (record_failure 8 filled) ≡ 2 ∷ 3 ∷ 4 ∷ 5 ∷ 6 ∷ 7 ∷ 8 ∷ []
filled-shifts = (record_failure-recent 8 filled (record { slots = refl; used = omega arith })).1
