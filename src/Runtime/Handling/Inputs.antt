-- ===== src/Runtime/Handling/Inputs.antt =====
-- The owner's turn with an item, on a runtime whose mailbox has not been discarded: src/g3/market_runtime.cpp.
use binance_market_data_gate.Base.{
  ℕ, ◌≤◌, ◌≡◌, refl, ◌∙◌, ap, inl, Bool, false, not, ◌==◌, Option, none, some, List, [], ◌∷◌, ◌++◌,
  length, arith, ◌||◌, if_cases, if◌then◌else◌, length-append,
}
use binance_market_data_gate.Runtime.Observed.{
  is_faulted, is_awaiting_baseline, is_projection_needs_resync, ClockSample,
}
use binance_market_data_gate.Runtime.Projection.{ProjectionApi, Outcome, good, bad, threw}
use binance_market_data_gate.Runtime.Types.{
  internal_fault, adapter_fault, bootstrap_buffer_overflow, projection_rejected, transport_failure,
  snapshot_failure, DepthUpdateInput, SnapshotInput, RuntimeInput, depth_update_input,
  snapshot_input, injected_failure, transport, snapshot, IngressItem, Runtime,
}
use binance_market_data_gate.Runtime.Faults.{transition_to_fault}
use binance_market_data_gate.Runtime.Process.{
  apply_update, process_depth_update, replay, record_install, install_outcome, install_adapted,
  process_snapshot, process_input,
}
use binance_market_data_gate.Runtime.Handling.{
  is_cleared, frame, Settled, Handled, Handled-trans, Handled-refl, same-Handled, Drained,
  Drained-trans,
}
use binance_market_data_gate.Runtime.Handling.Faulting.{
  publish_projection_state-Handled, transition_to_fault-Handled,
}
use binance_market_data_gate.Runtime.Handling.Applying.{apply_update-Handled}

module _ {api : ProjectionApi} where
  pub record Processed (s t : Runtime api) : Type 0 where
    pub same : frame t ≡ frame s
    pub tickets : Drained s t
    pub buffered :
        length s.bootstrap ≤ s.limits.bootstrap_capacity
        → length t.bootstrap ≤ s.limits.bootstrap_capacity
    pub resident : length t.subscribers ≤ length s.subscribers
    pub settled : is_cleared s.observation ≡ false → Settled s → Settled t

  Handled→Processed : {s t : Runtime api} → Handled s t → Processed s t
  Handled→Processed {s} {t} h = record {
    same = h.same;
    tickets = h.tickets;
    buffered = λ b. omega (arith, b, h.buffered);
    resident = h.resident;
    settled = λ f u. h.settled u;
  }

  Processed-Handled : {s t u : Runtime api} → Processed s t → Handled t u → Processed s u
  Processed-Handled {s} {t} {u} p h = record {
    same = h.same ∙ p.same;
    tickets = Drained-trans s t u p.tickets h.tickets;
    buffered = λ b. let k = p.buffered b in omega (arith, k, h.buffered);
    resident = omega (arith, p.resident, h.resident);
    settled = λ f u. h.settled (p.settled f u);
  }

  Handled-Processed :
      {s t u : Runtime api}
      → Handled s t
      → is_cleared t.observation ≡ false
      → Processed t u
      → Processed s u
  Handled-Processed {s} {t} {u} h f p = record {
    same = p.same ∙ h.same;
    tickets = Drained-trans s t u h.tickets p.tickets;
    buffered = λ b.
        let cap = ap (λ v. v.limits.bootstrap_capacity) h.same in
        let k = p.buffered (omega (arith, b, h.buffered, cap)) in omega (arith, k, cap);
    resident = omega (arith, p.resident, h.resident);
    settled = λ g u. p.settled f (h.settled u);
  }

  -- A step into another content of the bootstrap buffer.
  refilled-Processed :
      (s t : Runtime api) (us : List (DepthUpdateInput api))
      → length us ≤ s.limits.bootstrap_capacity
      → Processed (record s { bootstrap = us }) t
      → Processed s t
  refilled-Processed s t us b p = record {
    same = p.same;
    tickets = p.tickets;
    buffered = λ _. p.buffered b;
    resident = p.resident;
    settled = λ f (u, q). p.settled f (
      u,
      λ e.
          let k = q e in
          record {
            gate = k.gate;
            mailbox = k.mailbox;
            buffer = λ o. ground (arith, e, f, o);
            sessions = k.sessions;
          },
    );
  }

module _ {api : ProjectionApi} (clock : ℕ → Option ClockSample) (allocator : ℕ → Option ℕ) where
  emptied-Handled : (s : Runtime api) → Handled s (record s { bootstrap = [] })
  emptied-Handled s = record {
    same = refl;
    tickets = inl (refl, refl);
    buffered = omega arith;
    resident = omega arith;
    settled = λ (u, q). (
      u,
      λ e.
          let k = q e in
          record { gate = k.gate; mailbox = k.mailbox; buffer = λ _. refl; sessions = k.sessions },
    );
  }

  replay-Processed :
      (us : List (DepthUpdateInput api)) (s : Runtime api)
      → length us ≤ s.limits.bootstrap_capacity
      → Processed s (replay clock allocator us s).1
  unfolding replay
  replay-Processed [] s b = Handled→Processed (publish_projection_state-Handled s)
  replay-Processed (input ∷ rest) s b =
      let s' : Runtime api = record s { bootstrap = rest } in
      let t = (apply_update clock allocator input s').1 in
      let h : Handled s' t = apply_update-Handled clock allocator input s' in
      let cap = ap (λ v. v.limits.bootstrap_capacity) h.same in
      let onward = replay-Processed rest t (omega (arith, b, cap)) in
      refilled-Processed s _ rest (omega (arith, b)) (
        if_cases (λ (r : Bool × Runtime api). Processed s' r.1)
          (apply_update clock allocator input s').0 (λ _. Handled→Processed h)
          (λ _.
            if_cases (λ (r : Bool × Runtime api). Processed s' r.1)
              (is_projection_needs_resync (api.status t.projection)
                || is_faulted t.observation.state)
              (λ _. Handled→Processed (
                Handled-trans h
                  (Handled-trans (emptied-Handled t) (publish_projection_state-Handled _))))
              (λ e. Handled-Processed h (ground (arith, e)) onward)))

  process_depth_update-Processed :
      (input : DepthUpdateInput api) (s : Runtime api)
      → length s.bootstrap ≤ s.limits.bootstrap_capacity
      → Processed s (process_depth_update clock allocator input s).1
  unfolding process_depth_update
  process_depth_update-Processed input s b =
      if_cases (λ (r : Bool × Runtime api). Processed s r.1)
        (is_awaiting_baseline (api.status s.projection))
        (λ _.
          if_cases (λ (r : Bool × Runtime api). Processed s r.1)
            (length s.bootstrap == s.limits.bootstrap_capacity)
            (λ _.
              Handled→Processed
                (transition_to_fault-Handled clock bootstrap_buffer_overflow none s))
            (λ e.
              let longer = length-append s.bootstrap (input ∷ []) in
              refilled-Processed s _ (s.bootstrap ++ (input ∷ [])) (ground (arith, b, e, longer))
                (Handled→Processed (publish_projection_state-Handled _))))
        (λ _. Handled→Processed (apply_update-Handled clock allocator input s))

  module _ (input : SnapshotInput api) where
    record_install-Processed :
        (result : api.InstallResult) (s : Runtime api)
        → length s.bootstrap ≤ s.limits.bootstrap_capacity
        → is_cleared s.observation ≡ false
        → Processed s (record_install clock allocator input result s).1
    unfolding record_install
    record_install-Processed result s b f =
        let t : Runtime api = record s {
          observation = record s.observation { last_install = some result };
        } in
        let u : Runtime api = record t {
          current_projection_generation = input.connection_generation;
          observation = record t.observation {
            current_projection_generation = input.connection_generation;
          };
        } in
        if_cases (λ (r : Bool × Runtime api). Processed s r.1) (not (api.is_installed result))
          (λ _. Handled→Processed (
            Handled-trans (same-Handled s t refl)
              (transition_to_fault-Handled clock projection_rejected none t)))
          (λ _. Handled-Processed (same-Handled s u refl) f (replay-Processed t.bootstrap u b))

    install_outcome-Processed :
        (outcome : Outcome api.AdapterError api.InstallResult) (s : Runtime api)
        → length s.bootstrap ≤ s.limits.bootstrap_capacity
        → is_cleared s.observation ≡ false
        → Processed s (install_outcome clock allocator input outcome s).1
    unfolding install_outcome
    install_outcome-Processed threw s b f = Handled→Processed (Handled-refl s)
    install_outcome-Processed (bad error) s b f =
        Handled→Processed (transition_to_fault-Handled clock adapter_fault (some error) s)
    install_outcome-Processed (good result) s b f = record_install-Processed result s b f

    install_adapted-Processed :
        (outcome : Outcome api.AdapterError api.Baseline) (s : Runtime api)
        → length s.bootstrap ≤ s.limits.bootstrap_capacity
        → is_cleared s.observation ≡ false
        → Processed s (install_adapted clock allocator input outcome s).1
    unfolding install_adapted
    install_adapted-Processed threw s b f = Handled→Processed (Handled-refl s)
    install_adapted-Processed (bad error) s b f =
        Handled→Processed (transition_to_fault-Handled clock adapter_fault (some error) s)
    install_adapted-Processed (good baseline) s b f =
        let (outcome, p) = api.install_into baseline s.projection in
        Handled-Processed (same-Handled s (record s { projection = p }) refl) f
          (install_outcome-Processed outcome (record s { projection = p }) b f)

  process_input-Processed :
      (input : RuntimeInput api) (s : Runtime api)
      → length s.bootstrap ≤ s.limits.bootstrap_capacity
      → is_cleared s.observation ≡ false
      → Processed s (process_input clock allocator input s).1
  unfolding process_input process_snapshot
  process_input-Processed (depth_update_input input) s b f =
      process_depth_update-Processed input s b
  process_input-Processed (snapshot_input input) s b f = install_adapted-Processed input _ s b f
  process_input-Processed (injected_failure transport) s b f =
      Handled→Processed (transition_to_fault-Handled clock transport_failure none s)
  process_input-Processed (injected_failure snapshot) s b f =
      Handled→Processed (transition_to_fault-Handled clock snapshot_failure none s)

  -- The state that `finish_ticket` is called on.
  abbrev pub before_finish : IngressItem api → Runtime api → Runtime api
  before_finish item s =
      let (thrown, t) = process_input clock allocator item.input s in
      if thrown then transition_to_fault clock internal_fault none t else t

  pub before_finish-Processed :
      (item : IngressItem api) (s : Runtime api)
      → length s.bootstrap ≤ s.limits.bootstrap_capacity
      → is_cleared s.observation ≡ false
      → Processed s (before_finish item s)
  before_finish-Processed item s b f =
      let (thrown, t) = process_input clock allocator item.input s in
      let p : Processed s t = process_input-Processed item.input s b f in
      if_cases (λ r. Processed s r) thrown
        (λ _. Processed-Handled p (transition_to_fault-Handled clock internal_fault none t))
        (λ _. p)
