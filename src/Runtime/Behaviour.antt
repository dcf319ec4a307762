-- ===== src/Runtime/Behaviour.antt =====
-- What single operations of the runtime do, on every branch: src/g3/market_runtime.cpp.
use binance_market_data_gate.Base.{
  ℕ, ◌<◌, ◌^◌, ◌≡◌, ◌≢◌, refl, sym, subst, ◌↔◌, Bool, true, false, not, ◌&&◌, ◌||◌, leb, Option,
  none, some, List, [], ◌∷◌, ◌++◌, length, All, arith, if_cases,
}
use binance_market_data_gate.Base.Words.{add_u64}
use binance_market_data_gate.Runtime.Observed.{faulted, ClockSample}
use binance_market_data_gate.Runtime.Projection.{ProjectionApi}
use binance_market_data_gate.Runtime.Types.{
  RuntimeLimits, FaultReason, ingress_overflow, IngressItem, SnapshotRequest, ResetRequest,
  AdmissionRequest, Work, waiting, resets, captures, admits_request, Runtime, RuntimeInput,
  accepted_input, full,
}
use binance_market_data_gate.Runtime.Calls.{runtime, submit}
use binance_market_data_gate.Runtime.Faults.{
  drained, transition_to_fault, discard_ingress, terminalize_active_subscribers,
  sample_publication_time, sweep_closed_subscribers,
}
use binance_market_data_gate.Runtime.Answers.{perform_reset_request, answer_reset_request}
use binance_market_data_gate.Runtime.Owner.{
  take_item, take_below_snapshots, take_admission, take_fault, take_work, is_snapshot_ready,
  is_reset_ready, is_shutdown_pending, owner_end,
}
use binance_market_data_gate.Runtime.Handling.{IsQuiet, AllUnended}
use binance_market_data_gate.Runtime.Handling.Faulting.{transition_to_fault-IsQuiet}
use binance_market_data_gate.Runtime.Handling.Resets.{ResetEffect, answer_reset_request-effect}
use binance_market_data_gate.Runtime.Histories.Invariant.{IsRuntime, outstanding, Numbered}
use binance_market_data_gate.Runtime.Histories.Guarantees.{Numbered-later, reached-IsRuntime}
use binance_market_data_gate.Runtime.Histories.{RuntimeCall, runtime_calls}

module _ {api : ProjectionApi} where
  -- The conditions on which a runtime takes an input.
  abbrev pub Takes : Runtime api → Type 0
  Takes s =
      (s.is_over ≡ false)
      × (s.started ≡ true)
      × (s.stop_requested ≡ false)
      × (s.accepting ≡ true)
      × (length s.ingress ≢ s.limits.ingress_capacity)

  -- `submit` accepts an input exactly if the runtime is started, neither stopped nor stopping, takes
  -- inputs, and has room in the mailbox.
  pub submit_iff :
      (input : RuntimeInput api) (s : Runtime api) → ((submit input s).0 ≡ accepted_input) ↔ Takes s
  unfolding submit
  submit_iff input s = ground arith

  -- What `submit` of an input does to a runtime, by its answer.
  abbrev pub SubmitEffect : RuntimeInput api → Runtime api → Type 0
  SubmitEffect input s =
      ((submit input s).0 ≡ accepted_input
        → ((submit input s).1.ingress
            ≡ s.ingress
              ++ (record { ticket = add_u64 s.last_admitted_ticket 1; input = input } ∷ []))
          × ((submit input s).1.last_admitted_ticket ≡ add_u64 s.last_admitted_ticket 1))
      × ((submit input s).0 ≡ full
          → ((submit input s).1.ingress ≡ s.ingress)
            × ((submit input s).1.accepting ≡ false)
            × ((submit input s).1.pending_fault ≡ some ingress_overflow))
      × ((submit input s).0 ≢ accepted_input → (submit input s).0 ≢ full → (submit input s).1 ≡ s)

  -- When `submit` accepts, the input stands at the end of the mailbox under the next ticket, and the
  -- counter of tickets has moved to it; when it answers that the mailbox is full, the mailbox is as it
  -- was, the gate is closed and the owner is asked for the fault of an overflow; on every other answer
  -- the runtime is as it was.
  pub submit-effect : (input : RuntimeInput api) (s : Runtime api) → SubmitEffect input s
  unfolding submit
  submit-effect input s = ground arith

  -- A runtime `t` that has faulted from `s` for the reason.
  abbrev pub FaultEffect : FaultReason → Runtime api → Runtime api → Type 0
  FaultEffect reason s t =
      (t.observation.state ≡ faulted)
      × (t.observation.fault_reason ≡ some reason)
      × IsQuiet t
      × (t.processed_ticket ≡ drained s.processed_ticket s.ingress)

module _ {api : ProjectionApi} (clock : ℕ → Option ClockSample) where
  -- A runtime none of whose active sessions has a terminal record is, after `transition_to_fault`,
  -- faulted for the given reason; it takes no input, its mailbox and its bootstrap buffer are empty,
  -- none of its sessions is active, and the discarded tickets are processed.
  pub transition_to_fault-effect :
      (reason : FaultReason) (error : Option api.AdapterError) (s : Runtime api)
      → AllUnended s.subscribers
      → FaultEffect reason s (transition_to_fault clock reason error s)
  unfolding transition_to_fault discard_ingress terminalize_active_subscribers
      sample_publication_time sweep_closed_subscribers
  transition_to_fault-effect reason error s u =
      (refl, refl, transition_to_fault-IsQuiet clock reason error s u, refl)

  -- On a runtime with a request for a reset and none of whose active sessions has a terminal record,
  -- the owner's answer is an invalid state that changes nothing else, if the state does not allow that
  -- kind of reset. If it does, then none of the sessions is active and the mailbox is as it was; and if
  -- neither the reset of the projection nor its reading throws, the answer is a reset, the runtime is
  -- buffering over the reset projection and takes inputs, and it has no fault, no generation and an
  -- empty bootstrap buffer; if one of them throws, the answer is an internal error, and the runtime is
  -- faulted for that reason and takes no input.
  pub perform_reset_request-effect :
      (request : ResetRequest api) (s : Runtime api)
      → s.reset_request ≡ some request
      → AllUnended s.subscribers
      → ResetEffect request s (perform_reset_request clock s)
  unfolding perform_reset_request
  perform_reset_request-effect request s e u =
      subst (λ o. ResetEffect request s (answer_reset_request clock o s)) (sym e)
        (answer_reset_request-effect clock request s u)

module _ {api : ProjectionApi} where
  -- Every item of the mailbox has a ticket after the target.
  abbrev Behind : ℕ → Runtime api → Type 0
  Behind target s = All (λ item. target < item.ticket) s.ingress

  -- What the choice of a work says of the mailbox: a request is taken up behind its barrier.
  abbrev pub Barrier : Work api → Runtime api → Type 0
  Barrier resets s = (r : ResetRequest api) → s.reset_request ≡ some r → Behind r.target s
  Barrier captures s = (r : SnapshotRequest api) → s.snapshot_request ≡ some r → Behind r.target s
  Barrier (admits_request request) s = Behind request.target s
  Barrier _ s = Unit

  module _ {n : ℕ} (s : Runtime api) (v : IsRuntime n s) (e : s.work ≡ waiting) where
    behind : (target : ℕ) → leb target s.processed_ticket ≡ true → Behind target s
    behind target h =
        Numbered-later target s.processed_ticket s.last_admitted_ticket s.ingress
          (ground (arith, h))
          (subst (λ k. Numbered s.processed_ticket (outstanding k s.ingress) s.last_admitted_ticket)
            e v.tickets)

    waiting-Barrier : Barrier s.work s
    waiting-Barrier = subst (λ k. Barrier k s) (sym e) tt

    take_item-Barrier : (items : List (IngressItem api)) → Barrier (take_item items s).work s
    unfolding take_item owner_end
    take_item-Barrier [] =
        if_cases (λ (r : Runtime api). Barrier r.work s) s.stop_requested (λ _. tt)
          (λ _. waiting-Barrier)
    take_item-Barrier (item ∷ items) = tt

    take_below_snapshots-Barrier : Barrier (take_below_snapshots s).work s
    unfolding take_below_snapshots is_snapshot_ready
    take_below_snapshots-Barrier =
        if_cases (λ (r : Runtime api). Barrier r.work s) (is_snapshot_ready s)
          (λ h r f. behind r.target (ground (arith, h, f)))
          (λ _.
            if_cases (λ (r : Runtime api). Barrier r.work s) s.publication_removal_pending (λ _. tt)
              (λ _. take_item-Barrier s.ingress))

    take_admission-Barrier :
        (requests : List AdmissionRequest) → Barrier (take_admission requests s).work s
    unfolding take_admission
    take_admission-Barrier [] = take_below_snapshots-Barrier
    take_admission-Barrier (request ∷ requests) =
        if_cases (λ (r : Runtime api). Barrier r.work s) (leb request.target s.processed_ticket)
          (λ h. behind request.target h) (λ _. take_below_snapshots-Barrier)

    take_fault-Barrier : (o : Option FaultReason) → Barrier (take_fault o s).work s
    unfolding take_fault is_reset_ready
    take_fault-Barrier (some reason) = tt
    take_fault-Barrier none =
        if_cases (λ (r : Runtime api). Barrier r.work s) (is_reset_ready s)
          (λ h r f. behind r.target (ground (arith, h, f)))
          (λ _. take_admission-Barrier s.admission_requests)

    take_work-Barrier : Barrier (take_work s).work s
    unfolding take_work
    take_work-Barrier =
        if_cases (λ (r : Runtime api). Barrier r.work s)
          (not s.owner_ready
            || (not s.stop_requested && not (is_shutdown_pending s) && s.owner_paused))
          (λ _. waiting-Barrier)
          (λ _.
            if_cases (λ (r : Runtime api). Barrier r.work s) (is_shutdown_pending s) (λ _. tt)
              (λ _. take_fault-Barrier s.pending_fault))

module _ {api : ProjectionApi} (clock : ℕ → Option ClockSample) (allocator : ℕ → Option ℕ) where
  -- From the constructor on, after fewer than 2 ^ 64 calls and steps of the owner in any order, if the
  -- owner waits and then takes up a reset, a snapshot or a request for a subscription, every item in
  -- the mailbox has a ticket after the request's target: what was admitted up to it has been handled.
  pub runtime_calls-Barrier :
      (limits : RuntimeLimits) (clocked : Bool) (id : api.ExpectedIdentity) (p : api.Projection)
      (paused : Bool) (s : Runtime api)
      → runtime limits clocked id p paused ≡ some s
      → (os : List (RuntimeCall api)) → length os < 2 ^ 64
      → (runtime_calls clock allocator os s).work ≡ waiting
      → Barrier
          (take_work (runtime_calls clock allocator os s)).work
          (runtime_calls clock allocator os s)
  runtime_calls-Barrier limits clocked id p paused s made os few e =
      take_work-Barrier _
        (reached-IsRuntime clock allocator limits clocked id p paused s made os few) e
