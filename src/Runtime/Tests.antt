-- ===== src/Runtime/Tests.antt =====
-- A runtime over a projection that keeps the last update, with two limits of two and one session.
use binance_market_data_gate.Base.{
  ℕ, ◌<◌, ◌≡◌, refl, ap, ◌↔◌, true, false, Option, none, some, List, [], ◌∷◌, ◌++◌, All, arith,
}
use binance_market_data_gate.Runtime.Observed.{
  ProjectionStatus, awaiting_baseline, synchronized, ClockSample, faulted, is_faulted,
}
use binance_market_data_gate.Runtime.Projection.{
  ProjectionApi, good, applied, reads_all, last_gap_throws,
}
use binance_market_data_gate.Runtime.Types.{
  RuntimeLimits, depth_update_input, snapshot_input, injected_failure, transport, recovery_reset,
  Runtime, ValidatedOrderBookSubscription, ResetRequest, waiting, accepted_input, clock_fault,
  internal_fault,
}
use binance_market_data_gate.Publication.Channel.Owner.{fresh_channel}
use binance_market_data_gate.Runtime.Calls.{runtime, new_runtime, start, submit, is_observable}
use binance_market_data_gate.Runtime.Requests.{request_reset}
use binance_market_data_gate.Runtime.Faults.{
  refreshed, transition_to_fault, terminalize_active_subscribers, sample_publication_time,
  sweep_closed_subscribers, open_subscribers, terminalize_each, discard_ingress,
}
use binance_market_data_gate.Runtime.Process.{process_item, process_input, finish_ticket}
use binance_market_data_gate.Runtime.Answers.{
  perform_reset_request, answer_reset_request, reset_projection, terminalize_for_reset,
  clear_projection, cleared, reopened, read_projection, failed_reset,
}
use binance_market_data_gate.Runtime.Owner.{
  owner_start, owner_turn, take_work, take_fault, is_reset_ready, take_admission,
  take_below_snapshots, is_snapshot_ready, take_item, perform,
}
use binance_market_data_gate.Runtime.Handling.{IsShut}
use binance_market_data_gate.Runtime.Handling.Resets.{ResetEffect}
use binance_market_data_gate.Runtime.Histories.Invariant.{Numbered, outstanding}
use binance_market_data_gate.Runtime.Behaviour.{
  Takes, submit_iff, SubmitEffect, submit-effect, FaultEffect, transition_to_fault-effect,
  perform_reset_request-effect, Barrier, runtime_calls-Barrier,
}
use binance_market_data_gate.Runtime.Histories.{
  RuntimeCall, starts, begins_owner, turns_owner, submits, requests_admission, requests_reset,
  runtime_call, runtime_calls, begin_owner,
}
use binance_market_data_gate.Runtime.Histories.Guarantees.{
  IsBounded, runtime_calls-IsBounded, runtime_calls-Numbered, runtime_calls-IsShut,
  is_observable-handled,
}

abbrev toy_status : Option ℕ → ProjectionStatus
toy_status none = awaiting_baseline
toy_status (some _) = synchronized

abbrev toy_book : Option ℕ → ℕ
toy_book none = 0
toy_book (some id) = id

abbrev toy : ProjectionApi
toy = record {
  Projection = Option ℕ;
  NumericSpec = Unit;
  ExpectedIdentity = Unit;
  DepthUpdate = ℕ;
  DepthSnapshot = ℕ;
  Batch = ℕ;
  Baseline = ℕ;
  BookSnapshot = ℕ;
  DepthLimit = ℕ;
  AdapterError = Unit;
  GapInfo = Unit;
  InstallResult = Unit;
  ApplyResult = Unit;
  status = toy_status;
  numeric_spec = λ _. tt;
  last_update_id = λ p. p;
  last_gap = λ _. none;
  reset = λ _. (false, none);
  reading = λ _. reads_all;
  adapt_depth_update = λ u _ _. good u;
  apply_to = λ u _. (good tt, some u);
  apply_disposition = λ _. applied;
  adapt_exchange_depth_snapshot = λ b _ _. good b;
  install_into = λ b _. (good tt, some b);
  is_installed = λ _. true;
  create_depth_limit = λ n. some n;
  make_local_order_book_snapshot = λ p _ _. good (toy_book p);
  is_invalid_depth_limit = λ _. false;
  receive_time_utc_ns = λ _. none;
  receive_monotonic_ns = λ _. none;
  has_symbol = λ _. true;
}

abbrev limits : RuntimeLimits
limits = record {
  ingress_capacity = 2;
  bootstrap_capacity = 2;
  publication = record {
    maximum_active_subscriptions = 1;
    ordinary_queue_capacity = 4;
    pending_admission_capacity = 1;
  };
}

abbrev clock : ℕ → Option ClockSample
clock n = some (record { utc_ns = n; monotonic_ns = n })

abbrev allocator : ℕ → Option ℕ
allocator n = some n

abbrev fresh : Runtime toy
fresh = new_runtime limits tt none false

fresh-made : runtime {api = toy} limits true tt none false ≡ some fresh
unfolding runtime
fresh-made = refl

abbrev update : ℕ → RuntimeCall toy
update n = submits (depth_update_input (record { update = n; connection_generation = some 1 }))

abbrev book : ℕ → RuntimeCall toy
book n = submits (snapshot_input (record { contents = n; connection_generation = some 1 }))

abbrev subscription : ValidatedOrderBookSubscription
subscription = record {
  request_id = b'r' ∷ [];
  gateway_instance_id = b'g' ∷ [];
  depth_limit = none;
}

-- An update is buffered, the snapshot installs, a session opens, and another update is admitted.
abbrev busy : List (RuntimeCall toy)
busy =
    starts true
    ∷ begins_owner
    ∷ update 5
    ∷ turns_owner
    ∷ turns_owner
    ∷ book 4
    ∷ turns_owner
    ∷ turns_owner
    ∷ requests_admission (some 9) subscription
    ∷ turns_owner
    ∷ turns_owner
    ∷ update 6
    ∷ update 7
    ∷ []

runtime_calls-IsBounded_example : IsBounded (runtime_calls clock allocator busy fresh)
runtime_calls-IsBounded_example =
    runtime_calls-IsBounded clock allocator limits true tt none false fresh fresh-made busy
      (omega arith)

runtime_calls-Numbered_example :
    Numbered
      (runtime_calls clock allocator busy fresh).processed_ticket
      (outstanding
        (runtime_calls clock allocator busy fresh).work
        (runtime_calls clock allocator busy fresh).ingress)
      (runtime_calls clock allocator busy fresh).last_admitted_ticket
runtime_calls-Numbered_example =
    runtime_calls-Numbered clock allocator limits true tt none false fresh fresh-made busy
      (omega arith)

-- The transport fails.
abbrev broken : List (RuntimeCall toy)
broken =
    starts true
    ∷ begins_owner
    ∷ submits (injected_failure transport)
    ∷ turns_owner
    ∷ turns_owner
    ∷ []

broken-faulted : (runtime_calls clock allocator broken fresh).observation.state ≡ faulted
unfolding runtime_calls runtime_call start begin_owner owner_start refreshed submit owner_turn
    take_work take_fault is_reset_ready take_admission take_below_snapshots is_snapshot_ready
    take_item perform process_item process_input finish_ticket transition_to_fault
    terminalize_active_subscribers sample_publication_time sweep_closed_subscribers open_subscribers
    terminalize_each discard_ingress
broken-faulted = refl

runtime_calls-IsShut_example : IsShut (runtime_calls clock allocator broken fresh)
runtime_calls-IsShut_example =
    runtime_calls-IsShut clock allocator limits true tt none false fresh fresh-made broken
      (omega arith) (ap is_faulted broken-faulted)

broken-observable : is_observable 1 (runtime_calls clock allocator broken fresh) ≡ true
unfolding is_observable runtime_calls runtime_call start begin_owner owner_start refreshed submit
    owner_turn take_work take_fault is_reset_ready take_admission take_below_snapshots
    is_snapshot_ready take_item perform process_item process_input finish_ticket transition_to_fault
    terminalize_active_subscribers sample_publication_time sweep_closed_subscribers open_subscribers
    terminalize_each discard_ingress
broken-observable = refl

broken-running : (runtime_calls clock allocator broken fresh).is_over ≡ false
unfolding runtime_calls runtime_call start begin_owner owner_start refreshed submit owner_turn
    take_work take_fault is_reset_ready take_admission take_below_snapshots is_snapshot_ready
    take_item perform process_item process_input finish_ticket transition_to_fault
    terminalize_active_subscribers sample_publication_time sweep_closed_subscribers open_subscribers
    terminalize_each discard_ingress
broken-running = refl

is_observable-handled_example :
    All
      (λ item. 1 < item.ticket)
      (outstanding
        (runtime_calls clock allocator broken fresh).work
        (runtime_calls clock allocator broken fresh).ingress)
is_observable-handled_example =
    is_observable-handled clock allocator limits true tt none false fresh fresh-made broken
      (omega arith) 1 broken-observable broken-running

-- The broken runtime, with a request for its reset.
abbrev resetting : List (RuntimeCall toy)
resetting = broken ++ (requests_reset recovery_reset ∷ [])

resetting-waiting : (runtime_calls clock allocator resetting fresh).work ≡ waiting
unfolding runtime_calls runtime_call start begin_owner owner_start refreshed submit owner_turn
    take_work take_fault is_reset_ready take_admission take_below_snapshots is_snapshot_ready
    take_item perform process_item process_input finish_ticket transition_to_fault
    terminalize_active_subscribers sample_publication_time sweep_closed_subscribers open_subscribers
    terminalize_each discard_ingress request_reset
resetting-waiting = refl

runtime_calls-Barrier_example :
    Barrier
      (take_work (runtime_calls clock allocator resetting fresh)).work
      (runtime_calls clock allocator resetting fresh)
runtime_calls-Barrier_example =
    runtime_calls-Barrier clock allocator limits true tt none false fresh fresh-made resetting
      (omega arith) resetting-waiting

abbrev running : Runtime toy
running = record fresh {
  started = true;
  accepting = true;
  owner_ready = true;
  work = waiting;
  subscribers = record { address = 3; target = fresh_channel (b's' ∷ []) (b'g' ∷ []) 4 } ∷ [];
}

submit_iff_example :
    ((submit (injected_failure transport) running).0 ≡ accepted_input) ↔ Takes running
submit_iff_example = submit_iff (injected_failure transport) running

submit-effect_example : SubmitEffect (injected_failure transport) running
submit-effect_example = submit-effect (injected_failure transport) running

transition_to_fault-effect_example :
    FaultEffect clock_fault running (transition_to_fault clock clock_fault none running)
transition_to_fault-effect_example =
    transition_to_fault-effect clock clock_fault none running (λ _. refl, tt)

abbrev reset_request : ResetRequest toy
reset_request = record { target = 0; kind = recovery_reset; result = none }

abbrev failed : Runtime toy
failed = record running {
  reset_request = some reset_request;
  observation = record running.observation { state = faulted };
}

perform_reset_request-effect_example :
    ResetEffect reset_request failed (perform_reset_request clock failed)
perform_reset_request-effect_example =
    perform_reset_request-effect clock reset_request failed refl (λ _. refl, tt)

-- Over a projection whose last gap cannot be read.
abbrev unreadable : ProjectionApi
unreadable = record toy { reading = λ _. last_gap_throws }

abbrev stuck : Runtime unreadable
stuck = record (new_runtime limits tt none false) {
  reset_request = some (record { target = 0; kind = recovery_reset; result = none });
  observation = record (new_runtime {api = unreadable} limits tt none false).observation {
    state = faulted;
  };
}

stuck-fails : (perform_reset_request clock stuck).observation.fault_reason ≡ some internal_fault
unfolding perform_reset_request answer_reset_request reset_projection terminalize_for_reset
    clear_projection cleared reopened read_projection failed_reset
stuck-fails = refl
