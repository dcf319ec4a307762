-- ===== src/Runtime/Waits.antt =====
-- What the waits of the recovery coordinator return, and the results of a planned reset:
-- src/g3/market_runtime.cpp. `ready` is what the condition variable's wait returns, and `stopped` says
-- whether a stop is requested through the token.
use binance_market_data_gate.Base.{Bool, not, ◌||◌, Option, none, some, if◌then◌else◌}
use binance_market_data_gate.Runtime.Projection.{ProjectionApi}
use binance_market_data_gate.Runtime.Types.{
  RebootstrapResetResult, was_reset, reset_not_started, reset_invalid_state, reset_busy,
  reset_stopping, reset_stopped, reset_internal_error, Observation, Runtime,
}
use binance_market_data_gate.Runtime.Calls.{publish_tickets}

pub data TimedRecoveryWaitResult : Type 0 where
  recovery_required deadline_reached wait_stopped : TimedRecoveryWaitResult

pub data PlannedRebootstrapResetResult : Type 0 where
  planned_was_reset planned_not_started planned_invalid_state : PlannedRebootstrapResetResult
  planned_busy planned_stopping planned_stopped : PlannedRebootstrapResetResult
  planned_internal_error : PlannedRebootstrapResetResult

unfoldable to_planned_reset_result : RebootstrapResetResult → PlannedRebootstrapResetResult
to_planned_reset_result was_reset = planned_was_reset
to_planned_reset_result reset_not_started = planned_not_started
to_planned_reset_result reset_invalid_state = planned_invalid_state
to_planned_reset_result reset_busy = planned_busy
to_planned_reset_result reset_stopping = planned_stopping
to_planned_reset_result reset_stopped = planned_stopped
to_planned_reset_result reset_internal_error = planned_internal_error

module _ {api : ProjectionApi} (ready stopped : Bool) where
  -- The end of `wait_until_live_or_recovery_required` and of `wait_until_recovery_required`.
  unfoldable finish_wait : Runtime api → Option (Observation api) × Runtime api
  unfolding publish_tickets
  finish_wait s =
      if not ready || stopped
      then (none, s)
      else (some (publish_tickets s), record s { observation = publish_tickets s })

  unfoldable finish_timed_wait : Runtime api → TimedRecoveryWaitResult
  finish_timed_wait s =
      if stopped || s.stop_requested || s.is_over
      then wait_stopped
      else if ready
      then recovery_required
      else deadline_reached
