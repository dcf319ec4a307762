-- ===== src/Runtime/Requests.antt =====
-- The requests that wait for the owner, and the controls of publication: src/g3/market_runtime.cpp.
-- A call that waits is two functions, up to the wait and after it.
use binance_market_data_gate.Base.{
  ℕ, Bool, true, false, not, ◌&&◌, ◌||◌, Option, none, some, List, [], ◌∷◌, ◌++◌, ◌==◌,
  if◌then◌else◌, has_value,
}
use binance_market_data_gate.Base.Words.{add_u64}
use binance_market_data_gate.Runtime.Observed.{
  is_live, is_faulted, is_needs_resync, is_synchronized,
}
use binance_market_data_gate.Runtime.Projection.{ProjectionApi}
use binance_market_data_gate.Runtime.Types.{
  RebootstrapResetResult, reset_not_started, reset_invalid_state, reset_busy, reset_stopping,
  reset_stopped, ResetKind, recovery_reset, planned_reset, SnapshotRequestError,
  snapshot_not_started, snapshot_faulted, snapshot_busy, snapshot_stopping, snapshot_stopped,
  SubscriptionAdmissionError, subscription_not_started, not_live, pending_limit, shutting_down,
  internal_error, subscription_stopped, PublicationShutdownResult, shut_down, already_shut_down,
  shutdown_not_started, shutdown_stopped, ValidatedOrderBookSubscription,
  SubscriptionAdmissionResult, admission_error, SnapshotResult, snapshot_error, SnapshotRequest,
  ResetRequest, Observation, Runtime,
}

module _ {api : ProjectionApi} where
  abbrev pub is_healthy : Observation api → Bool
  is_healthy o =
      is_live o.state && is_synchronized o.projection_status && not (has_value o.fault_reason)

  -- `reset_for_rebootstrap` and `reset_live_for_planned_rebootstrap`, up to the wait. `none` says that
  -- the request is in place.
  unfoldable pub request_reset :
      ResetKind → Runtime api → Option RebootstrapResetResult × Runtime api
  request_reset kind s =
      if s.is_over
      then (some reset_stopped, s)
      else if not s.started
      then (some reset_not_started, s)
      else if s.stop_requested
      then (some reset_stopping, s)
      else if elim kind [
        | recovery_reset ↦
            not (is_faulted s.observation.state) && not (is_needs_resync s.observation.state)
        | planned_reset ↦ not (is_healthy s.observation)
      ]
      then (some reset_invalid_state, s)
      else if has_value s.reset_request
      then (some reset_busy, s)
      else (
        none,
        record s {
          reset_request =
              some (record { target = s.last_admitted_ticket; kind = kind; result = none });
        },
      )

  abbrev reset_answer : Option (ResetRequest api) → Option RebootstrapResetResult
  reset_answer none = none
  reset_answer (some r) = r.result

  unfoldable pub finish_reset : Runtime api → RebootstrapResetResult × Runtime api
  finish_reset s = elim (reset_answer s.reset_request) [
    | none ↦ (reset_stopped, record s { reset_request = none })
    | some result ↦ (result, record s { reset_request = none })
  ]

  -- `capture_snapshot`, up to the wait; `none` says that the request is in place.
  unfoldable pub request_snapshot : Runtime api → Option SnapshotRequestError × Runtime api
  request_snapshot s =
      if s.is_over
      then (some snapshot_stopped, s)
      else if not s.started
      then (some snapshot_not_started, s)
      else if s.stop_requested
      then (some snapshot_stopping, s)
      else if is_faulted s.observation.state || is_needs_resync s.observation.state
      then (some snapshot_faulted, s)
      else if has_value s.snapshot_request
      then (some snapshot_busy, s)
      else (
        none,
        record s {
          snapshot_request = some (record { target = s.last_admitted_ticket; result = none });
        },
      )

  abbrev snapshot_answer : Option (SnapshotRequest api) → Option (SnapshotResult api)
  snapshot_answer none = none
  snapshot_answer (some r) = r.result

  unfoldable pub finish_snapshot : Runtime api → SnapshotResult api × Runtime api
  finish_snapshot s = elim (snapshot_answer s.snapshot_request) [
    | none ↦ (snapshot_error snapshot_stopped, record s { snapshot_request = none })
    | some result ↦ (result, record s { snapshot_request = none })
  ]

  -- `admit_order_book_subscription`, up to the wait. `allocated` is the address of the request, or
  -- `none` if there is no memory; the first component is the result if there is no wait.
  unfoldable pub request_admission :
      (allocated : Option ℕ)
      → ValidatedOrderBookSubscription
      → Runtime api
      → Option SubscriptionAdmissionError × Runtime api
  request_admission allocated subscription s =
      if s.is_over
      then (some subscription_stopped, s)
      else if not s.started
      then (some subscription_not_started, s)
      else if not s.publication_admission_open
          || s.publication_shutdown_requested
          || s.publication_shutdown_completed
          || s.stop_requested
      then (some shutting_down, s)
      else if not (is_healthy s.observation)
      then (some not_live, s)
      else if s.pending_admission_count == s.limits.publication.pending_admission_capacity
      then (some pending_limit, s)
      else elim allocated [
        | none ↦ (some internal_error, s)
        | some id ↦ (
          none,
          record s {
            admission_requests =
                s.admission_requests
                ++ (record { id = id; target = s.last_admitted_ticket; subscription = subscription }
                    ∷ []);
            pending_admission_count = add_u64 s.pending_admission_count 1;
            observation = record s.observation {
              pending_admission_count = add_u64 s.pending_admission_count 1;
            };
          },
        )
      ]

  abbrev pub answer_of :
      ℕ → List (ℕ × SubscriptionAdmissionResult api) → Option (SubscriptionAdmissionResult api)
  answer_of id [] = none
  answer_of id ((k, result) ∷ answers) =
      let rest = answer_of id answers in if k == id then some result else rest

  -- `admit_order_book_subscription`, after the wait.
  unfoldable pub finish_admission : ℕ → Runtime api → SubscriptionAdmissionResult api
  finish_admission id s = elim (answer_of id s.answers) [
    | none ↦ admission_error subscription_stopped
    | some result ↦ result
  ]

  unfoldable pub notify_subscriber_closed : Runtime api → Runtime api
  notify_subscriber_closed s = record s { publication_removal_pending = true }

  unfoldable pub close_publication_admission : Runtime api → Runtime api
  close_publication_admission s = record s {
    publication_admission_open = false;
    observation = record s.observation { publication_admission_open = false };
  }

  -- `shutdown_publication`, up to the wait; `none` says that the control is requested.
  unfoldable pub request_publication_shutdown :
      Runtime api → Option PublicationShutdownResult × Runtime api
  unfolding close_publication_admission
  request_publication_shutdown s =
      let closed = close_publication_admission s in
      if s.publication_shutdown_completed
      then (some already_shut_down, closed)
      else if s.is_over
      then (some shutdown_stopped, closed)
      else if not s.started
      then (
        some shutdown_not_started,
        record closed {
          publication_shutdown_requested = true;
          publication_shutdown_completed = true;
          observation = record closed.observation { publication_shutdown = true };
        },
      )
      else (none, record closed { publication_shutdown_requested = true })

  unfoldable pub finish_publication_shutdown : Runtime api → PublicationShutdownResult
  finish_publication_shutdown s =
      if s.publication_shutdown_completed then shut_down else shutdown_stopped

  unfoldable pub release_owner : Runtime api → Runtime api
  release_owner s = record s { owner_paused = false }

  unfoldable pub pause_owner : Runtime api → Runtime api
  pause_owner s =
      if s.started && not s.stop_requested && not s.is_over
      then record s { owner_paused = true }
      else s
