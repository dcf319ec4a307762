-- ===== src/Runtime/Calls.antt =====
-- The calls that other threads make on the runtime: src/g3/market_runtime.cpp. A call that waits for
-- the owner is two functions, up to the wait and after it, with the test of the wait.
use binance_market_data_gate.Base.{
  ℕ, Bool, true, false, not, ◌&&◌, ◌||◌, Option, none, some, List, [], ◌∷◌, ◌++◌, ◌==◌, leb,
  if◌then◌else◌, has_value, length,
}
use binance_market_data_gate.Base.Words.{add_u64}
use binance_market_data_gate.Runtime.Observed.{
  constructed, stopping, stopped, is_live, is_faulted, is_needs_resync, is_stopping, is_stopped,
  awaiting_baseline,
}
use binance_market_data_gate.Runtime.Projection.{ProjectionApi}
use binance_market_data_gate.Runtime.Types.{
  ingress_overflow, StartResult, started_now, already_started, start_stopped, AdmissionResult,
  accepted_input, full, not_started, admission_stopping, admission_stopped, admission_faulted,
  RebootstrapResetResult, snapshot_stopped, SubscriptionAdmissionError, subscription_stopped,
  RuntimeLimits, AdmissionRequest, RuntimeInput, SubscriptionAdmissionResult, admission_error,
  SnapshotResult, snapshot_error, SnapshotRequest, ResetRequest, Observation, unowned, waiting,
  Runtime,
}

-- The checks of the constructor. `clocked` says that a clock is given.
abbrev are_limits : RuntimeLimits → Bool
are_limits l =
    not (l.ingress_capacity == 0)
    && not (l.bootstrap_capacity == 0)
    && not (l.publication.maximum_active_subscriptions == 0)
    && not (l.publication.ordinary_queue_capacity == 0)
    && not (l.publication.pending_admission_capacity == 0)

module _ {api : ProjectionApi} where
  abbrev pub initial_observation : Observation api
  initial_observation = record {
    state = constructed;
    projection_status = awaiting_baseline;
    last_update_id = none;
    last_gap = none;
    last_install = none;
    last_apply = none;
    last_applied_depth = none;
    adapter_error = none;
    fault_reason = none;
    ingress_occupancy = 0;
    bootstrap_occupancy = 0;
    reset_count = 0;
    last_admitted_ticket = 0;
    processed_ticket = 0;
    current_projection_generation = none;
    resident_subscription_count = 0;
    pending_admission_count = 0;
    publication_admission_open = false;
    publication_shutdown = false;
    owner_joined = false;
  }

  abbrev pub new_runtime :
      RuntimeLimits → api.ExpectedIdentity → api.Projection → (paused : Bool) → Runtime api
  new_runtime limits expected_identity projection paused = record {
    limits = limits;
    expected_identity = expected_identity;
    projection = projection;
    bootstrap = [];
    current_projection_generation = none;
    subscribers = [];
    released = [];
    next_subscription_id = 1;
    ingress = [];
    admission_requests = [];
    answers = [];
    pending_fault = none;
    snapshot_request = none;
    reset_request = none;
    observation = initial_observation;
    last_admitted_ticket = 0;
    processed_ticket = 0;
    pending_admission_count = 0;
    started = false;
    accepting = false;
    publication_admission_open = false;
    publication_shutdown_requested = false;
    publication_shutdown_completed = false;
    publication_removal_pending = false;
    stop_requested = false;
    is_over = false;
    owner_ready = false;
    owner_paused = paused;
    work = unowned;
    clock_calls = 0;
    allocations = 0;
  }

  -- The constructor, with the projection that the library makes; `none` is `std::invalid_argument`.
  unfoldable pub runtime :
      RuntimeLimits
      → (clocked : Bool) → api.ExpectedIdentity
      → api.Projection
      → (paused : Bool) → Option (Runtime api)
  runtime limits clocked expected_identity projection paused =
      if not (are_limits limits) || not clocked || not (api.has_symbol expected_identity)
      then none
      else some (new_runtime limits expected_identity projection paused)

  -- `created` says whether the thread could be made; `none` is the exception if not. The wait is for
  -- `owner_ready`.
  unfoldable pub start : (created : Bool) → Runtime api → Option StartResult × Runtime api
  start created s =
      if s.is_over
      then (some start_stopped, s)
      else if s.started
      then (some already_started, s)
      else if not created
      then (none, s)
      else (
        some started_now,
        record s {
          work = waiting;
          started = true;
          accepting = true;
          publication_admission_open = not s.publication_shutdown_completed;
          observation = record s.observation {
            publication_admission_open = not s.publication_shutdown_completed;
          };
        },
      )

  -- `stop`, up to the join.
  unfoldable pub request_stop : Runtime api → Runtime api
  request_stop s =
      if s.is_over
      then s
      else if not s.started
      then record s {
        accepting = false;
        is_over = true;
        observation = record s.observation { state = stopped; owner_joined = true };
      }
      else record s {
        accepting = false;
        publication_admission_open = false;
        publication_shutdown_requested = true;
        stop_requested = true;
        owner_paused = false;
        observation = record s.observation {
          publication_admission_open = false;
          state =
              if is_faulted s.observation.state || is_needs_resync s.observation.state
              then s.observation.state
              else stopping;
        };
      }

  abbrev pub answer_all :
      SubscriptionAdmissionError
      → List AdmissionRequest
      → List (ℕ × SubscriptionAdmissionResult api)
  answer_all error [] = []
  answer_all error (r ∷ rs) = (r.id, admission_error error) ∷ answer_all error rs

  -- A request in the queue has no result yet.
  unfoldable pub complete_all_admissions : SubscriptionAdmissionError → Runtime api → Runtime api
  complete_all_admissions error s = record s {
    answers = s.answers ++ answer_all error s.admission_requests;
    admission_requests = [];
    pending_admission_count = 0;
    observation = record s.observation { pending_admission_count = 0 };
  }

  -- A request without a result gets one.
  abbrev pub answer_snapshot :
      SnapshotResult api → Option (SnapshotRequest api) → Option (SnapshotRequest api)
  answer_snapshot result none = none
  answer_snapshot result (some r) =
      some (if has_value r.result then r else record r { result = some result })

  abbrev pub answer_reset :
      RebootstrapResetResult → Option (ResetRequest api) → Option (ResetRequest api)
  answer_reset result none = none
  answer_reset result (some r) =
      some (if has_value r.result then r else record r { result = some result })

  -- `stop`, after the join.
  unfoldable pub finish_stop : Runtime api → Runtime api
  unfolding complete_all_admissions
  finish_stop s = complete_all_admissions subscription_stopped (record s {
    is_over = true;
    observation = record s.observation { state = stopped; owner_joined = true };
    snapshot_request = answer_snapshot (snapshot_error snapshot_stopped) s.snapshot_request;
  })

  unfoldable pub submit : RuntimeInput api → Runtime api → AdmissionResult × Runtime api
  submit input s =
      if s.is_over
      then (admission_stopped, s)
      else if not s.started
      then (not_started, s)
      else if s.stop_requested
      then (admission_stopping, s)
      else if not s.accepting
      then (admission_faulted, s)
      else if length s.ingress == s.limits.ingress_capacity
      then (full, record s { accepting = false; pending_fault = some ingress_overflow })
      else (
        accepted_input,
        record s {
          last_admitted_ticket = add_u64 s.last_admitted_ticket 1;
          ingress =
              s.ingress
              ++ (record { ticket = add_u64 s.last_admitted_ticket 1; input = input } ∷ []);
          observation = record s.observation {
            ingress_occupancy = length (
                s.ingress
                ++ (record { ticket = add_u64 s.last_admitted_ticket 1; input = input } ∷ []));
          };
        },
      )

  -- The test of the wait of `observe_until`, for the ticket that was the last when it began.
  unfoldable pub is_observable : ℕ → Runtime api → Bool
  is_observable target s = leb target s.processed_ticket || s.is_over

  unfoldable pub publish_tickets : Runtime api → Observation api
  publish_tickets s = record s.observation {
    last_admitted_ticket = s.last_admitted_ticket;
    processed_ticket = s.processed_ticket;
  }

  -- What `observe_until` leaves in the observation and returns.
  unfoldable pub observe : Runtime api → Observation api × Runtime api
  unfolding publish_tickets
  observe s =
      let seen : Observation api = record (publish_tickets s) {
        ingress_occupancy = length s.ingress;
      } in
      (seen, record s { observation = seen })

  unfoldable pub is_recovery_required : Runtime api → Bool
  is_recovery_required s =
      is_faulted s.observation.state
      || is_needs_resync s.observation.state
      || is_stopping s.observation.state
      || is_stopped s.observation.state

  -- The tests of the waits of the recovery coordinator.
  unfoldable pub is_live_or_recovery_required : Runtime api → Bool
  unfolding is_recovery_required
  is_live_or_recovery_required s =
      is_live s.observation.state || is_recovery_required s || s.stop_requested || s.is_over

  unfoldable pub is_recovery_awaited : Runtime api → Bool
  unfolding is_recovery_required
  is_recovery_awaited s = is_recovery_required s || s.stop_requested || s.is_over
