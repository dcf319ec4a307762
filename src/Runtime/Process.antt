-- ===== src/Runtime/Process.antt =====
-- What the owner does with an input: `process_input` of src/g3/market_runtime.cpp. A function that an
-- exception can leave gives `true` with the state then. The copies in the deques have memory.
use binance_market_data_gate.Base.{
  ℕ, Bool, true, false, not, ◌||◌, Option, none, some, List, [], ◌∷◌, ◌++◌, ◌==◌, if◌then◌else◌,
  length,
}
use binance_market_data_gate.Publication.Shared.{upstream_sequence_gap, request_new_snapshot}
use binance_market_data_gate.Runtime.Observed.{
  AppliedDepthObservation, is_faulted, is_awaiting_baseline, is_projection_needs_resync,
  ClockSample,
}
use binance_market_data_gate.Runtime.Projection.{
  Outcome, ProjectionApi, good, bad, threw, ApplyDisposition, applied, gap_detected,
}
use binance_market_data_gate.Runtime.Types.{
  bootstrap_buffer_overflow, adapter_fault, transport_failure, snapshot_failure,
  projection_rejected, internal_fault, transport, snapshot, DepthUpdateInput, SnapshotInput,
  RuntimeInput, depth_update_input, snapshot_input, injected_failure, IngressItem, Runtime,
}
use binance_market_data_gate.Runtime.Faults.{
  max_ticket, publish_projection_state, terminalize_active_subscribers, transition_to_fault,
}
use binance_market_data_gate.Runtime.Publish.{publish_applied_update}

abbrev pub is_applied : ApplyDisposition → Bool
is_applied applied = true
is_applied _ = false

abbrev pub is_gap_detected : ApplyDisposition → Bool
is_gap_detected gap_detected = true
is_gap_detected _ = false

-- Both generations are known, and they differ.
abbrev pub are_different : Option ℕ → Option ℕ → Bool
are_different (some a) (some b) = not (a == b)
are_different _ _ = false

module _ {api : ProjectionApi} where
  abbrev pub applied_depth : DepthUpdateInput api → AppliedDepthObservation
  applied_depth input = record {
    receive_time_utc_ns = api.receive_time_utc_ns input.update;
    receive_monotonic_ns = api.receive_monotonic_ns input.update;
    connection_generation = input.connection_generation;
  }

  unfoldable pub finish_ticket : ℕ → Runtime api → Runtime api
  finish_ticket ticket s = record s {
    processed_ticket = max_ticket s.processed_ticket ticket;
    observation = record s.observation { bootstrap_occupancy = length s.bootstrap };
  }

module _ {api : ProjectionApi} (clock : ℕ → Option ClockSample) (allocator : ℕ → Option ℕ) where
  -- `apply_update`, from the result of the projection.
  unfoldable pub record_apply : DepthUpdateInput api → api.ApplyResult → Runtime api → Runtime api
  record_apply input result s =
      let disposition = api.apply_disposition result in
      let t : Runtime api = record s {
        observation = record s.observation {
          last_apply = some result;
          last_applied_depth =
              if is_applied disposition
              then some (applied_depth input)
              else s.observation.last_applied_depth;
        };
      } in
      publish_projection_state (
        if is_applied disposition
        then publish_applied_update clock allocator input.update input.connection_generation t
        else if is_gap_detected disposition
        then terminalize_active_subscribers clock upstream_sequence_gap request_new_snapshot
            input.connection_generation t
        else t)

  -- `apply_update`, from the projection's outcome on.
  unfoldable pub apply_outcome :
      DepthUpdateInput api
      → Outcome api.AdapterError api.ApplyResult
      → Runtime api
      → Bool × Runtime api
  unfolding record_apply
  apply_outcome input threw s = (true, s)
  apply_outcome input (bad error) s =
      (false, transition_to_fault clock adapter_fault (some error) s)
  apply_outcome input (good result) s = (false, record_apply input result s)

  -- `apply_update`, from the adapted update on.
  unfoldable pub apply_adapted :
      DepthUpdateInput api → Outcome api.AdapterError api.Batch → Runtime api → Bool × Runtime api
  unfolding apply_outcome
  apply_adapted input threw s = (true, s)
  apply_adapted input (bad error) s =
      (false, transition_to_fault clock adapter_fault (some error) s)
  apply_adapted input (good batch) s =
      let (outcome, p) = api.apply_to batch s.projection in
      apply_outcome input outcome (record s { projection = p })

  unfoldable pub apply_update : DepthUpdateInput api → Runtime api → Bool × Runtime api
  unfolding apply_adapted
  apply_update input s =
      if are_different s.current_projection_generation input.connection_generation
      then (false, transition_to_fault clock internal_fault none s)
      else apply_adapted input
          (api.adapt_depth_update input.update (api.numeric_spec s.projection) s.expected_identity)
          s

  unfoldable pub process_depth_update : DepthUpdateInput api → Runtime api → Bool × Runtime api
  process_depth_update input s =
      if is_awaiting_baseline (api.status s.projection)
      then if length s.bootstrap == s.limits.bootstrap_capacity
        then (false, transition_to_fault clock bootstrap_buffer_overflow none s)
        else (
          false,
          publish_projection_state (record s { bootstrap = s.bootstrap ++ (input ∷ []) }),
        )
      else apply_update input s

  -- The loop over the bootstrap buffer, whose updates are the first argument; what is left of it is
  -- in the state at each round.
  unfoldable pub replay : List (DepthUpdateInput api) → Runtime api → Bool × Runtime api
  replay [] s = (false, publish_projection_state s)
  replay (input ∷ rest) s =
      let (thrown, t) = apply_update input (record s { bootstrap = rest }) in
      let onward = replay rest t in
      if thrown
      then (true, t)
      else if is_projection_needs_resync (api.status t.projection) || is_faulted t.observation.state
      then (false, publish_projection_state (record t { bootstrap = [] }))
      else onward

  -- `process_snapshot`, from the result of the installation.
  unfoldable pub record_install :
      SnapshotInput api → api.InstallResult → Runtime api → Bool × Runtime api
  unfolding replay
  record_install input result s =
      let t : Runtime api = record s {
        observation = record s.observation { last_install = some result };
      } in
      if not (api.is_installed result)
      then (false, transition_to_fault clock projection_rejected none t)
      else replay t.bootstrap (record t {
        current_projection_generation = input.connection_generation;
        observation = record t.observation {
          current_projection_generation = input.connection_generation;
        };
      })

  -- `process_snapshot`, from the projection's outcome on.
  unfoldable pub install_outcome :
      SnapshotInput api
      → Outcome api.AdapterError api.InstallResult
      → Runtime api
      → Bool × Runtime api
  unfolding record_install
  install_outcome input threw s = (true, s)
  install_outcome input (bad error) s =
      (false, transition_to_fault clock adapter_fault (some error) s)
  install_outcome input (good result) s = record_install input result s

  -- `process_snapshot`, from the adapted snapshot on.
  unfoldable pub install_adapted :
      SnapshotInput api → Outcome api.AdapterError api.Baseline → Runtime api → Bool × Runtime api
  unfolding install_outcome
  install_adapted input threw s = (true, s)
  install_adapted input (bad error) s =
      (false, transition_to_fault clock adapter_fault (some error) s)
  install_adapted input (good baseline) s =
      let (outcome, p) = api.install_into baseline s.projection in
      install_outcome input outcome (record s { projection = p })

  unfoldable pub process_snapshot : SnapshotInput api → Runtime api → Bool × Runtime api
  unfolding install_adapted
  process_snapshot input s =
      install_adapted input
        (api.adapt_exchange_depth_snapshot input.contents (api.numeric_spec s.projection)
          s.expected_identity)
        s

  unfoldable pub process_input : RuntimeInput api → Runtime api → Bool × Runtime api
  process_input (depth_update_input input) s = process_depth_update input s
  process_input (snapshot_input input) s = process_snapshot input s
  process_input (injected_failure transport) s =
      (false, transition_to_fault clock transport_failure none s)
  process_input (injected_failure snapshot) s =
      (false, transition_to_fault clock snapshot_failure none s)

  -- A turn of the owner's loop with an item.
  unfoldable pub process_item : IngressItem api → Runtime api → Runtime api
  process_item item s =
      let (thrown, t) = process_input item.input s in
      finish_ticket item.ticket
        (if thrown then transition_to_fault clock internal_fault none t else t)
