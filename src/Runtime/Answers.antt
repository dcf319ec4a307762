-- ===== src/Runtime/Answers.antt =====
-- The owner's answers to the requests for a reset and for a snapshot: src/g3/market_runtime.cpp.
use binance_market_data_gate.Base.{
  ℕ, suc, Bool, true, false, not, ◌||◌, Option, none, some, [], if◌then◌else◌,
}
use binance_market_data_gate.Base.Words.{add_u64}
use binance_market_data_gate.Publication.Shared.{
  resume_not_available, connection_generation_changed, resubscribe, request_new_snapshot,
}
use binance_market_data_gate.Runtime.Observed.{
  buffering, faulted, is_live, is_faulted, is_needs_resync, ClockSample,
}
use binance_market_data_gate.Runtime.Projection.{
  ProjectionApi, Outcome, good, bad, threw, Reading, reads_all, status_throws,
  last_update_id_throws, last_gap_throws,
}
use binance_market_data_gate.Runtime.Types.{
  internal_fault, RebootstrapResetResult, was_reset, reset_internal_error, reset_invalid_state,
  ResetKind, recovery_reset, planned_reset, snapshot_not_live, snapshot_clock_error,
  snapshot_internal_error, SnapshotResult, captured_snapshot, snapshot_adapter_error,
  snapshot_error, SnapshotRequest, ResetRequest, Observation, Runtime,
}
use binance_market_data_gate.Runtime.Requests.{is_healthy}
use binance_market_data_gate.Runtime.Faults.{refreshed, terminalize_active_subscribers}

module _ {api : ProjectionApi} where
  abbrev pub is_valid_reset : ResetKind → Observation api → Bool
  is_valid_reset recovery_reset o = is_faulted o.state || is_needs_resync o.state
  is_valid_reset planned_reset o = is_healthy o

  abbrev set_snapshot_result :
      SnapshotResult api → Option (SnapshotRequest api) → Option (SnapshotRequest api)
  set_snapshot_result result none = none
  set_snapshot_result result (some r) = some (record r { result = some result })

  -- `refresh_projection_observation_locked`, up to a read that throws.
  unfoldable pub read_projection : Reading → Runtime api → Observation api
  unfolding refreshed
  read_projection reads_all s = refreshed s
  read_projection status_throws s = s.observation
  read_projection last_update_id_throws s = record s.observation {
    projection_status = api.status s.projection;
  }
  read_projection last_gap_throws s = record s.observation {
    projection_status = api.status s.projection;
    last_update_id = api.last_update_id s.projection;
  }

  -- What a reset clears, once the projection is reset.
  unfoldable pub cleared : Runtime api → Runtime api
  cleared t = record t {
    bootstrap = [];
    current_projection_generation = none;
    observation = record t.observation {
      last_gap = none;
      last_install = none;
      last_apply = none;
      last_applied_depth = none;
      adapter_error = none;
      fault_reason = none;
      last_update_id = none;
      current_projection_generation = none;
      bootstrap_occupancy = 0;
      reset_count = add_u64 t.observation.reset_count 1;
    };
  }

  -- The end of the `try` block; `true` if an exception leaves it.
  unfoldable pub reopened : Reading → Runtime api → Bool × Runtime api
  unfolding read_projection
  reopened reads_all t = (
    false,
    record t {
      accepting = true;
      observation = record (read_projection reads_all t) {
        state = buffering;
        last_admitted_ticket = t.last_admitted_ticket;
        processed_ticket = t.processed_ticket;
      };
    },
  )
  reopened r t = (true, record t { observation = read_projection r t })

  -- The `try` block, after the sessions have ended.
  unfoldable pub clear_projection : Runtime api → Bool × Runtime api
  unfolding cleared reopened
  clear_projection t =
      let (thrown, p) = api.reset t.projection in
      let u : Runtime api = record t { projection = p } in
      if thrown then (true, u) else reopened (api.reading p) (cleared u)

  -- The `catch` block: the mailbox stays, and what is left of the bootstrap buffer.
  unfoldable pub failed_reset : Runtime api → Runtime api
  failed_reset t = record t {
    accepting = false;
    observation = record t.observation { fault_reason = some internal_fault; state = faulted };
  }

module _ {api : ProjectionApi} (clock : ℕ → Option ClockSample) where
  unfoldable pub terminalize_for_reset : ResetKind → Runtime api → Runtime api
  unfolding terminalize_active_subscribers
  terminalize_for_reset planned_reset s =
      terminalize_active_subscribers clock connection_generation_changed resubscribe
        s.current_projection_generation s
  terminalize_for_reset recovery_reset s =
      terminalize_active_subscribers clock resume_not_available request_new_snapshot
        s.current_projection_generation s

  -- The `try` block and its `catch`, with the result.
  unfoldable pub reset_projection : ResetKind → Runtime api → RebootstrapResetResult × Runtime api
  unfolding clear_projection failed_reset terminalize_for_reset
  reset_projection kind s =
      let (thrown, t) = clear_projection (terminalize_for_reset kind s) in
      if thrown then (reset_internal_error, failed_reset t) else (was_reset, t)

  unfoldable pub answer_reset_request : Option (ResetRequest api) → Runtime api → Runtime api
  unfolding reset_projection
  answer_reset_request none s = s
  answer_reset_request (some request) s =
      let (result, t) = reset_projection request.kind s in
      if not (is_valid_reset request.kind s.observation)
      then record s { reset_request = some (record request { result = some reset_invalid_state }) }
      else record t { reset_request = some (record request { result = some result }) }

  unfoldable pub perform_reset_request : Runtime api → Runtime api
  unfolding answer_reset_request
  perform_reset_request s = answer_reset_request s.reset_request s

  abbrev snapshot_result :
      Outcome api.AdapterError api.BookSnapshot → ClockSample → SnapshotResult api
  snapshot_result threw sample = snapshot_error snapshot_internal_error
  snapshot_result (bad error) sample = snapshot_adapter_error error
  snapshot_result (good book) sample = captured_snapshot book sample

  abbrev live_snapshot : Option ClockSample → Runtime api → SnapshotResult api
  live_snapshot none s = snapshot_error snapshot_clock_error
  live_snapshot (some sample) s =
      snapshot_result
        (api.make_local_order_book_snapshot s.projection
          (record {
            identity = s.expected_identity;
            producer = "gateway-g3-runtime";
            producer_version = "1.0.0";
            generated_utc_ns = sample.utc_ns;
            generated_monotonic_ns = some sample.monotonic_ns;
          })
          none)
        sample

  unfoldable pub perform_snapshot_request : Runtime api → Runtime api
  perform_snapshot_request s =
      if is_live s.observation.state
      then record s {
        clock_calls = suc s.clock_calls;
        snapshot_request =
            set_snapshot_result (live_snapshot (clock s.clock_calls) s) s.snapshot_request;
      }
      else record s {
        snapshot_request =
            set_snapshot_result (snapshot_error snapshot_not_live) s.snapshot_request;
      }
