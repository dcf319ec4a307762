-- ===== src/Runtime/Handling/Applying.antt =====
-- The owner's functions on an update and on a snapshot: src/g3/market_runtime.cpp.
use binance_market_data_gate.Base.{
  ℕ, suc, refl, inl, Bool, ◌==◌, Option, none, some, length, arith, if◌then◌else◌, if_cases,
}
use binance_market_data_gate.Publication.Shared.{
  Shared, make_shared, upstream_sequence_gap, request_new_snapshot, PublicationTime,
}
use binance_market_data_gate.Runtime.Observed.{ClockSample}
use binance_market_data_gate.Runtime.Projection.{ProjectionApi, Outcome, good, bad, threw}
use binance_market_data_gate.Runtime.Types.{
  internal_fault, clock_fault, adapter_fault, DepthUpdateInput, Runtime,
}
use binance_market_data_gate.Runtime.Faults.{sweep_closed_subscribers, sample_publication_time}
use binance_market_data_gate.Runtime.Publish.{
  admit_each, publish_to_subscribers, publish_shared, publish_sampled, publish_applied_update,
}
use binance_market_data_gate.Runtime.Process.{
  record_apply, apply_outcome, apply_adapted, apply_update, is_applied, is_gap_detected,
  are_different, applied_depth,
}
use binance_market_data_gate.Runtime.Handling.{Handled, Handled-trans, Handled-refl, same-Handled}
use binance_market_data_gate.Runtime.Handling.Sessions.{
  length-admit_each, admit_each-AllUnended, admit_each-AllEnded,
}
use binance_market_data_gate.Runtime.Handling.Faulting.{
  sweep-Handled, publish_projection_state-Handled, sample-Handled, terminalize_active-Handled,
  transition_to_fault-Handled,
}

module _ {api : ProjectionApi} (clock : ℕ → Option ClockSample) (allocator : ℕ → Option ℕ) where
  publish_to_subscribers-Handled :
      (update : Shared api.DepthUpdate) (generation : Option ℕ) (at : PublicationTime)
      (s : Runtime api)
      → Handled s (publish_to_subscribers clock allocator update generation at s)
  unfolding publish_to_subscribers
  publish_to_subscribers-Handled update generation at s =
      let (failed, (k, chs)) =
        admit_each allocator update generation at s.allocations s.subscribers in
      let t : Runtime api = record s { allocations = k; subscribers = chs } in
      let h : Handled s t = record {
        same = refl;
        tickets = inl (refl, refl);
        buffered = omega arith;
        resident =
            let kept =
              length-admit_each update generation at allocator s.allocations s.subscribers in
            omega (arith, kept);
        settled = λ (u, q). (
          admit_each-AllUnended update generation at allocator s.allocations s.subscribers u,
          λ e.
              let k = q e in
              record {
                gate = k.gate;
                mailbox = k.mailbox;
                buffer = k.buffer;
                sessions =
                    admit_each-AllEnded update generation at allocator s.allocations s.subscribers
                      k.sessions;
              },
        );
      } in
      if_cases (λ r. Handled s r) failed
        (λ _. Handled-trans h (transition_to_fault-Handled clock internal_fault none t)) (λ _. h)

  publish_shared-Handled :
      (update : Option (Shared api.DepthUpdate)) (generation : Option ℕ) (at : PublicationTime)
      (s : Runtime api)
      → Handled s (publish_shared clock allocator update generation at s)
  unfolding publish_shared
  publish_shared-Handled none generation at s =
      transition_to_fault-Handled clock internal_fault none s
  publish_shared-Handled (some update) generation at s =
      publish_to_subscribers-Handled update generation at s

  publish_sampled-Handled :
      (update : api.DepthUpdate) (generation : Option ℕ) (at : Option PublicationTime)
      (s : Runtime api)
      → Handled s (publish_sampled clock allocator update generation at s)
  unfolding publish_sampled
  publish_sampled-Handled update generation none s =
      transition_to_fault-Handled clock clock_fault none s
  publish_sampled-Handled update generation (some at) s =
      Handled-trans (same-Handled s (record s { allocations = suc s.allocations }) refl) (
        publish_shared-Handled (make_shared (allocator s.allocations) update) generation at
          (record s { allocations = suc s.allocations }))

  pub publish_applied_update-Handled :
      (update : api.DepthUpdate) (generation : Option ℕ) (s : Runtime api)
      → Handled s (publish_applied_update clock allocator update generation s)
  unfolding publish_applied_update
  publish_applied_update-Handled update generation s =
      let t = sweep_closed_subscribers s in
      let u = (sample_publication_time clock t).1 in
      if_cases (λ r. Handled s r) s.publication_shutdown_completed (λ _. Handled-refl s)
        (λ _. Handled-trans (sweep-Handled s) (
          if_cases (λ r. Handled t r) (length t.subscribers == 0) (λ _. Handled-refl t)
            (λ _.
              Handled-trans (sample-Handled clock t)
                (publish_sampled-Handled update generation (sample_publication_time clock t).0 u))))

  module _ (input : DepthUpdateInput api) where
    record_apply-Handled :
        (result : api.ApplyResult) (s : Runtime api)
        → Handled s (record_apply clock allocator input result s)
    unfolding record_apply
    record_apply-Handled result s =
        let disposition = api.apply_disposition result in
        let t : Runtime api = record s {
          observation = record s.observation {
            last_apply = some result;
            last_applied_depth =
                if is_applied disposition
                then some (applied_depth input)
                else s.observation.last_applied_depth;
          };
        } in
        Handled-trans (same-Handled s t refl) (
          Handled-trans
            (if_cases (λ r. Handled t r) (is_applied disposition)
              (λ _. publish_applied_update-Handled input.update input.connection_generation t)
              (λ _.
                if_cases (λ r. Handled t r) (is_gap_detected disposition)
                  (λ _.
                    terminalize_active-Handled clock upstream_sequence_gap request_new_snapshot
                      input.connection_generation t)
                  (λ _. Handled-refl t)))
            (publish_projection_state-Handled _))

    apply_outcome-Handled :
        (outcome : Outcome api.AdapterError api.ApplyResult) (s : Runtime api)
        → Handled s (apply_outcome clock allocator input outcome s).1
    unfolding apply_outcome
    apply_outcome-Handled threw s = Handled-refl s
    apply_outcome-Handled (bad error) s =
        transition_to_fault-Handled clock adapter_fault (some error) s
    apply_outcome-Handled (good result) s = record_apply-Handled result s

    apply_adapted-Handled :
        (outcome : Outcome api.AdapterError api.Batch) (s : Runtime api)
        → Handled s (apply_adapted clock allocator input outcome s).1
    unfolding apply_adapted
    apply_adapted-Handled threw s = Handled-refl s
    apply_adapted-Handled (bad error) s =
        transition_to_fault-Handled clock adapter_fault (some error) s
    apply_adapted-Handled (good batch) s =
        let (outcome, p) = api.apply_to batch s.projection in
        Handled-trans (same-Handled s (record s { projection = p }) refl)
          (apply_outcome-Handled outcome (record s { projection = p }))

    pub apply_update-Handled :
        (s : Runtime api) → Handled s (apply_update clock allocator input s).1
    unfolding apply_update
    apply_update-Handled s =
        if_cases (λ (r : Bool × Runtime api). Handled s r.1)
          (are_different s.current_projection_generation input.connection_generation)
          (λ _. transition_to_fault-Handled clock internal_fault none s)
          (λ _. apply_adapted-Handled _ s)
