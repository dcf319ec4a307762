-- ===== src/Recovery/Policy.antt =====
-- The decisions of the recovery: src/g5/spot_recovery.cpp.
use binance_market_data_gate.Base.{
  ℕ, Bool, true, false, not, ◌&&◌, ◌||◌, Option, none, some, List, [], ◌∷◌, ◌+◌, ◌-◌, ◌==◌, ltb,
  leb, if◌then◌else◌, has_value, is_empty, get_elem?, ◌^◌,
}
use binance_market_data_gate.Base.Words.{u64_max}
use binance_market_data_gate.Base.Decimal.{Errc, success, FromChars, from_chars_u64}
use binance_market_data_gate.Runtime.Observed.{
  is_live, is_faulted, is_needs_resync, is_synchronized,
}
use binance_market_data_gate.Runtime.Types.{
  FaultReason, ingress_overflow, bootstrap_buffer_overflow, adapter_fault, transport_failure,
  snapshot_failure, projection_rejected, clock_fault, internal_fault,
}
use binance_market_data_gate.Recovery.Types.{
  NetworkErrorCode, http_status, protocol, server_shutdown, internal, NetworkError,
  TransportObservation, RuntimeCut, RecoveryCause, cause_needs_resync, cause_transport_failure,
  cause_snapshot_failure, cause_ingress_overflow, cause_bootstrap_buffer_overflow, cause_protocol,
  cause_server_shutdown, cause_http429, cause_http418, cause_http5xx, cause_terminal_http4xx,
  cause_internal_failure, RecoveryDecision,
}

-- `std::numeric_limits<std::chrono::seconds::rep>::max()`, of 64 bits.
abbrev pub seconds_max : ℕ
seconds_max = 2 ^ 63 - 1

abbrev is_success : Errc → Bool
is_success success = true
is_success _ = false

-- The tests on what `std::from_chars` gives.
abbrev pub accepted_seconds : FromChars → Option ℕ
accepted_seconds r =
    if not (is_success r.ec) || not (is_empty r.rest) || ltb seconds_max r.value
    then none
    else some r.value

unfoldable pub parse_retry_after : Option (List ℕ) → Option ℕ
parse_retry_after none = none
parse_retry_after (some text) =
    if is_empty text then none else accepted_seconds (from_chars_u64 text)

abbrev default_decision : RecoveryDecision
default_decision = record {
  recoverable = false;
  cause = cause_internal_failure;
  minimum_delay = none;
}

abbrev recover : RecoveryCause → RecoveryDecision
recover cause = record { recoverable = true; cause = cause; minimum_delay = none }

-- The switch on the fault's reason; `none` is the return of the decision as it is.
abbrev fault_decision : FaultReason → Option RecoveryDecision
fault_decision transport_failure = some (recover cause_transport_failure)
fault_decision snapshot_failure = some (recover cause_snapshot_failure)
fault_decision ingress_overflow = some (recover cause_ingress_overflow)
fault_decision bootstrap_buffer_overflow = some (recover cause_bootstrap_buffer_overflow)
fault_decision adapter_fault = none
fault_decision projection_rejected = none
fault_decision clock_fault = none
fault_decision internal_fault = none

abbrev error_decision : Option NetworkError → Option RecoveryDecision
error_decision none = none
error_decision (some _) = some (recover cause_transport_failure)

abbrev runtime_decision : Bool → Option FaultReason → Option NetworkError → Option RecoveryDecision
runtime_decision true (some reason) error = fault_decision reason
runtime_decision true none error = error_decision error
runtime_decision false reason error = error_decision error

-- A status of 429 or 418, with the delay that the server asks for.
abbrev retry_decision : RecoveryCause → Option ℕ → RecoveryDecision
retry_decision cause none = default_decision
retry_decision cause (some delay) = record {
  recoverable = true;
  cause = cause;
  minimum_delay = some delay;
}

abbrev status_decision : Option ℕ → Option (List ℕ) → RecoveryDecision
status_decision none retry_after = default_decision
status_decision (some status) retry_after =
    if status == 429 || status == 418
    then retry_decision (if status == 429 then cause_http429 else cause_http418)
        (parse_retry_after retry_after)
    else if leb 500 status && leb status 599
    then recover cause_http5xx
    else if leb 400 status && leb status 499
    then record default_decision { cause = cause_terminal_http4xx }
    else default_decision

-- The part on the error's code.
abbrev code_decision :
    NetworkErrorCode → Option ℕ → Option (List ℕ) → RecoveryDecision → RecoveryDecision
code_decision internal status retry_after decision = default_decision
code_decision protocol status retry_after decision = record decision { cause = cause_protocol }
code_decision server_shutdown status retry_after decision = record decision {
  cause = cause_server_shutdown;
}
code_decision http_status status retry_after decision = status_decision status retry_after
code_decision _ status retry_after decision = decision

abbrev refined_decision : Option NetworkError → RecoveryDecision → RecoveryDecision
refined_decision none decision = decision
refined_decision (some error) decision =
    code_decision error.code error.status error.retry_after decision

abbrev finish_decision : Option NetworkError → Option RecoveryDecision → RecoveryDecision
finish_decision error none = default_decision
finish_decision error (some decision) = refined_decision error decision

unfoldable pub classify_failure : RuntimeCut → TransportObservation → RecoveryDecision
unfolding parse_retry_after
classify_failure runtime transport = finish_decision transport.terminal_error (
    if is_needs_resync runtime.state
    then some (recover cause_needs_resync)
    else runtime_decision (is_faulted runtime.state) runtime.fault_reason transport.terminal_error)

abbrev pub maximum_recovery_attempts : ℕ
maximum_recovery_attempts = 6

-- `none` is `std::out_of_range`.
unfoldable pub normal_backoff_delay : ℕ → Option ℕ
normal_backoff_delay recovery_attempt =
    if recovery_attempt == 0 || ltb 6 recovery_attempt
    then none
    else get_elem? (1 ∷ 2 ∷ 4 ∷ 8 ∷ 16 ∷ 30 ∷ []) (recovery_attempt - 1)

abbrev pub with_minimum : Option ℕ → ℕ → ℕ
with_minimum none delay = delay
with_minimum (some least) delay = if ltb delay least then least else delay

abbrev with_decision : Option ℕ → Option ℕ → Option ℕ
with_decision least none = none
with_decision least (some delay) = some (with_minimum least delay)

-- What the coordinator's loop does with a recoverable failure, by the consecutive attempts before it:
-- it is exhausted, or it takes up the attempt of a number after a delay.
pub data RecoveryStep : Type 0 where
  exhausted : RecoveryStep
  backs_off : (attempt : ℕ) → (delay : Option ℕ) → RecoveryStep

unfoldable pub recovery_step : (attempts : ℕ) → RecoveryDecision → RecoveryStep
unfolding normal_backoff_delay
recovery_step attempts decision =
    if leb maximum_recovery_attempts attempts
    then exhausted
    else backs_off (attempts + 1)
        (with_decision decision.minimum_delay (normal_backoff_delay (attempts + 1)))

unfoldable pub is_clean_planned_cut : RuntimeCut → TransportObservation → Bool
is_clean_planned_cut runtime transport =
    transport.stopped
    && not transport.running
    && not (has_value transport.terminal_error)
    && is_live runtime.state
    && is_synchronized runtime.projection_status
    && not (has_value runtime.fault_reason)

-- For a rotation's age in nanoseconds; `none` is `std::overflow_error`.
unfoldable pub planned_rotation_deadline : (age started : ℕ) → Option ℕ
planned_rotation_deadline age started =
    if ltb (u64_max - age) started then none else some (started + age)
