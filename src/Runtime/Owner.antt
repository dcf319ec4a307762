-- ===== src/Runtime/Owner.antt =====
-- The owner's loop: `owner_loop` of src/g3/market_runtime.cpp. A turn is two steps: `take_work` chooses
-- under the lock what to do, and `perform` does it. Between them other threads make their calls.
use binance_market_data_gate.Base.{
  Bool, true, false, not, ◌&&◌, ◌||◌, Option, none, some, List, [], ◌∷◌, leb, if◌then◌else◌,
  has_value, length, ℕ,
}
use binance_market_data_gate.Runtime.Observed.{buffering, stopped, ClockSample}
use binance_market_data_gate.Runtime.Projection.{ProjectionApi}
use binance_market_data_gate.Runtime.Types.{
  FaultReason, reset_stopped, snapshot_stopped, shutting_down, subscription_stopped, snapshot_error,
  AdmissionRequest, SnapshotRequest, ResetRequest, IngressItem, Work, unowned, waiting, finished,
  shuts_down_publication, resets, captures, sweeps, faults, admits_request, processes, Runtime,
}
use binance_market_data_gate.Runtime.Calls.{answer_snapshot, answer_reset, complete_all_admissions}
use binance_market_data_gate.Runtime.Faults.{
  refreshed, sweep_closed_subscribers, close_all_subscribers, transition_to_fault,
}
use binance_market_data_gate.Runtime.Process.{process_item}
use binance_market_data_gate.Runtime.Admission.{perform_admission_request}
use binance_market_data_gate.Runtime.Answers.{perform_reset_request, perform_snapshot_request}

module _ {api : ProjectionApi} where
  -- The block before the loop.
  unfoldable pub owner_start : Runtime api → Runtime api
  unfolding refreshed
  owner_start s = record s {
    owner_ready = true;
    observation = record (refreshed s) { state = buffering };
  }

  abbrev is_due : ℕ → Option (SnapshotRequest api) → Bool
  is_due processed none = false
  is_due processed (some r) = not (has_value r.result) && leb r.target processed

  unfoldable pub is_snapshot_ready : Runtime api → Bool
  is_snapshot_ready s = is_due s.processed_ticket s.snapshot_request

  abbrev is_reset_due : ℕ → Option (ResetRequest api) → Bool
  is_reset_due processed none = false
  is_reset_due processed (some r) = not (has_value r.result) && leb r.target processed

  unfoldable pub is_reset_ready : Runtime api → Bool
  is_reset_ready s = is_reset_due s.processed_ticket s.reset_request

  -- The block after the loop.
  unfoldable pub owner_end : Runtime api → Runtime api
  unfolding refreshed complete_all_admissions close_all_subscribers
  owner_end s = close_all_subscribers (
      complete_all_admissions subscription_stopped (record s {
        work = finished;
        observation = record (refreshed s) { state = stopped };
        snapshot_request = answer_snapshot (snapshot_error snapshot_stopped) s.snapshot_request;
        reset_request = answer_reset reset_stopped s.reset_request;
      }))

  -- `ingress_` at the end of the choice; `break` when it is empty and a stop is requested.
  unfoldable pub take_item : List (IngressItem api) → Runtime api → Runtime api
  unfolding owner_end
  take_item [] s = if s.stop_requested then owner_end s else s
  take_item (item ∷ items) s = record s {
    ingress = items;
    observation = record s.observation { ingress_occupancy = length items };
    work = processes item;
  }

  unfoldable pub take_below_snapshots : Runtime api → Runtime api
  take_below_snapshots s =
      if is_snapshot_ready s
      then record s { work = captures }
      else if s.publication_removal_pending
      then record s { publication_removal_pending = false; work = sweeps }
      else take_item s.ingress s

  -- `admission_ready_locked` and what stands below it.
  unfoldable pub take_admission : List AdmissionRequest → Runtime api → Runtime api
  take_admission [] s = take_below_snapshots s
  take_admission (request ∷ requests) s =
      if leb request.target s.processed_ticket
      then record s { admission_requests = requests; work = admits_request request }
      else take_below_snapshots s

  abbrev pub is_shutdown_pending : Runtime api → Bool
  is_shutdown_pending s = s.publication_shutdown_requested && not s.publication_shutdown_completed

  -- What stands below the shutdown.
  unfoldable pub take_fault : Option FaultReason → Runtime api → Runtime api
  unfolding take_admission is_reset_ready
  take_fault (some reason) s = record s { pending_fault = none; work = faults reason }
  take_fault none s =
      if is_reset_ready s then record s { work = resets } else take_admission s.admission_requests s

  -- The block under the lock, for an owner that waits. A wait that goes on is the state itself.
  unfoldable pub take_work : Runtime api → Runtime api
  unfolding take_fault
  take_work s =
      if not s.owner_ready
        || (not s.stop_requested && not (is_shutdown_pending s) && s.owner_paused)
      then s
      else if is_shutdown_pending s
      then record s { work = shuts_down_publication }
      else take_fault s.pending_fault s

  unfoldable pub perform_publication_shutdown_control : Runtime api → Runtime api
  unfolding close_all_subscribers complete_all_admissions
  perform_publication_shutdown_control s =
      let t = complete_all_admissions shutting_down (close_all_subscribers s) in
      record t {
        publication_admission_open = false;
        publication_shutdown_completed = true;
        observation = record t.observation {
          publication_admission_open = false;
          publication_shutdown = true;
        };
      }

module _ {api : ProjectionApi} (clock : ℕ → Option ClockSample) (allocator : ℕ → Option ℕ) where
  unfoldable pub perform : Work api → Runtime api → Runtime api
  perform unowned s = s
  perform waiting s = s
  perform finished s = s
  perform shuts_down_publication s = perform_publication_shutdown_control s
  perform resets s = perform_reset_request clock s
  perform captures s = perform_snapshot_request clock s
  perform sweeps s = sweep_closed_subscribers s
  perform (faults reason) s = transition_to_fault clock reason none s
  perform (admits_request request) s = perform_admission_request clock allocator request s
  perform (processes item) s = process_item clock allocator item s

  -- A step of the owner's thread.
  unfoldable pub owner_turn : Work api → Runtime api → Runtime api
  unfolding perform
  owner_turn unowned s = s
  owner_turn finished s = s
  owner_turn waiting s = take_work s
  owner_turn work s = record (perform work s) { work = waiting }
