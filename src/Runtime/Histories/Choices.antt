-- ===== src/Runtime/Histories/Choices.antt =====
-- The owner's choices keep the invariant: src/g3/market_runtime.cpp.
use binance_market_data_gate.Base.{
  ℕ, ◌≡◌, refl, sym, subst, ◌∙◌, ap, inl, inr, Bool, true, false, not, ◌&&◌, ◌||◌, leb, Option,
  none, some, List, [], ◌∷◌, length, arith, Bool-cases, if_cases,
}
use binance_market_data_gate.Runtime.Observed.{is_faulted}
use binance_market_data_gate.Runtime.Projection.{ProjectionApi}
use binance_market_data_gate.Runtime.Types.{
  FaultReason, AdmissionRequest, IngressItem, Work, unowned, waiting, shuts_down_publication,
  resets, captures, sweeps, faults, admits_request, is_internal, Runtime,
}
use binance_market_data_gate.Runtime.Handling.{is_cleared}
use binance_market_data_gate.Runtime.Calls.{complete_all_admissions}
use binance_market_data_gate.Runtime.Faults.{refreshed, close_all_subscribers}
use binance_market_data_gate.Runtime.Owner.{
  owner_end, take_item, take_below_snapshots, take_admission, take_fault, take_work,
  is_shutdown_pending, is_snapshot_ready, is_reset_ready,
}
use binance_market_data_gate.Runtime.Histories.Invariant.{
  outstanding, Numbered, unanswered, Unfaulted, IsRuntime,
}

module _ {api : ProjectionApi} where
  abbrev pub is_owned : Work api → Bool
  is_owned unowned = false
  is_owned _ = true

  pub owned-started :
      {n : ℕ} (s : Runtime api) → IsRuntime n s → is_owned s.work ≡ true → s.started ≡ true
  owned-started s v e = elim (Bool-cases s.started) [
    | inl on ↦ on
    | inr off ↦ let idle = ap is_owned (v.unstarted off).0 in ground (arith, e, idle)
  ]

module _ {api : ProjectionApi} {n : ℕ} (s : Runtime api) (v : IsRuntime n s) (on : s.started ≡ true)
    (e : s.work ≡ waiting) where
  waiting_pending : s.pending_admission_count ≡ length s.admission_requests
  waiting_pending = v.pending ∙ ap (λ k. unanswered k (length s.admission_requests)) e

  waiting_tickets : Numbered s.processed_ticket s.ingress s.last_admitted_ticket
  waiting_tickets =
      subst (λ k. Numbered s.processed_ticket (outstanding k s.ingress) s.last_admitted_ticket) e
        v.tickets

  -- A choice that takes nothing out of a queue.
  chosen-IsRuntime :
      (w : Work api) (o : Option FaultReason) (b : Bool)
      → ((k : ℕ) → unanswered w k ≡ k)
      → ((is : List (IngressItem api)) → outstanding w is ≡ is)
      → Unfaulted w (is_cleared s.observation)
      → IsRuntime n (record s { work = w; pending_fault = o; publication_removal_pending = b })
  chosen-IsRuntime w o b requests items free = record {
    mailbox = v.mailbox;
    buffer = v.buffer;
    resident = v.resident;
    pending = waiting_pending ∙ sym (requests (length s.admission_requests));
    admissible = v.admissible;
    pending_counted = v.pending_counted;
    tickets =
        subst (λ is. Numbered s.processed_ticket is s.last_admitted_ticket) (sym (items s.ingress))
          waiting_tickets;
    counted = v.counted;
    settled = (
      v.settled.0,
      λ f.
          let k = v.settled.1 f in
          record { gate = k.gate; mailbox = k.mailbox; buffer = k.buffer; sessions = k.sessions },
    );
    unfaulted = free;
    unstarted = λ f. ground (arith, f, on);
  }

  owner_end-IsRuntime : s.ingress ≡ [] → IsRuntime n (owner_end s)
  unfolding owner_end refreshed complete_all_admissions close_all_subscribers
  owner_end-IsRuntime empty = record {
    mailbox = v.mailbox;
    buffer = v.buffer;
    resident = omega arith;
    pending = refl;
    admissible = omega arith;
    pending_counted = omega arith;
    tickets = waiting_tickets;
    counted = v.counted;
    settled = (tt, λ f. ground (arith, f));
    unfaulted = tt;
    unstarted = λ f. ground (arith, f, on);
  }

  take_item-IsRuntime :
      (items : List (IngressItem api)) → s.ingress ≡ items → IsRuntime n (take_item items s)
  unfolding take_item
  take_item-IsRuntime [] same =
      if_cases (λ (r : Runtime api). IsRuntime n r) s.stop_requested (λ _. owner_end-IsRuntime same)
        (λ _. v)
  take_item-IsRuntime (item ∷ items) same =
      let filled : is_faulted s.observation.state ≡ true
          → is_internal s.observation.fault_reason ≡ false
          → (item ∷ items) ≡ [] =
        λ f o. sym same ∙ (v.settled.1 f).mailbox o in
      let fine : is_cleared s.observation ≡ false = ground (arith, filled) in
      record {
        mailbox = let low = v.mailbox in let size = ap length same in omega (arith, low, size);
        buffer = v.buffer;
        resident = v.resident;
        pending = waiting_pending;
        admissible = v.admissible;
        pending_counted = v.pending_counted;
        tickets =
            subst (λ is. Numbered s.processed_ticket is s.last_admitted_ticket) same
              waiting_tickets;
        counted = v.counted;
        settled = (
          v.settled.0,
          λ f.
              let k = v.settled.1 f in
              record {
                gate = k.gate;
                mailbox = λ o. ground (arith, f, fine, o);
                buffer = k.buffer;
                sessions = k.sessions;
              },
        );
        unfaulted = fine;
        unstarted = λ f. ground (arith, f, on);
      }

  take_below_snapshots-IsRuntime : IsRuntime n (take_below_snapshots s)
  unfolding take_below_snapshots
  take_below_snapshots-IsRuntime =
      if_cases (λ (r : Runtime api). IsRuntime n r) (is_snapshot_ready s)
        (λ _.
          chosen-IsRuntime captures s.pending_fault s.publication_removal_pending (λ _. refl)
            (λ _. refl) tt)
        (λ _.
          if_cases (λ (r : Runtime api). IsRuntime n r) s.publication_removal_pending
            (λ _. chosen-IsRuntime sweeps s.pending_fault false (λ _. refl) (λ _. refl) tt)
            (λ _. take_item-IsRuntime s.ingress refl))

  take_admission-IsRuntime :
      (requests : List AdmissionRequest)
      → s.admission_requests ≡ requests
      → IsRuntime n (take_admission requests s)
  unfolding take_admission
  take_admission-IsRuntime [] same = take_below_snapshots-IsRuntime
  take_admission-IsRuntime (request ∷ requests) same =
      if_cases (λ (r : Runtime api). IsRuntime n r) (leb request.target s.processed_ticket)
        {x = record s { admission_requests = requests; work = admits_request request }}
        (λ _. record {
          mailbox = v.mailbox;
          buffer = v.buffer;
          resident = v.resident;
          pending = waiting_pending ∙ ap length same;
          admissible = v.admissible;
          pending_counted = v.pending_counted;
          tickets = waiting_tickets;
          counted = v.counted;
          settled = (
            v.settled.0,
            λ f.
                let k = v.settled.1 f in
                record {
                  gate = k.gate;
                  mailbox = k.mailbox;
                  buffer = k.buffer;
                  sessions = k.sessions;
                },
          );
          unfaulted = tt;
          unstarted = λ f. ground (arith, f, on);
        })
        (λ _. take_below_snapshots-IsRuntime)

  take_fault-IsRuntime : (o : Option FaultReason) → IsRuntime n (take_fault o s)
  unfolding take_fault
  take_fault-IsRuntime (some reason) =
      chosen-IsRuntime (faults reason) none s.publication_removal_pending (λ _. refl) (λ _. refl) tt
  take_fault-IsRuntime none =
      if_cases (λ (r : Runtime api). IsRuntime n r) (is_reset_ready s)
        (λ _.
          chosen-IsRuntime resets s.pending_fault s.publication_removal_pending (λ _. refl)
            (λ _. refl) tt)
        (λ _. take_admission-IsRuntime s.admission_requests refl)

  pub take_work-IsRuntime : IsRuntime n (take_work s)
  unfolding take_work
  take_work-IsRuntime =
      if_cases (λ (r : Runtime api). IsRuntime n r)
        (not s.owner_ready
          || (not s.stop_requested && not (is_shutdown_pending s) && s.owner_paused))
        (λ _. v)
        (λ _.
          if_cases (λ (r : Runtime api). IsRuntime n r) (is_shutdown_pending s)
            (λ _.
              chosen-IsRuntime shuts_down_publication s.pending_fault s.publication_removal_pending
                (λ _. refl) (λ _. refl) tt)
            (λ _. take_fault-IsRuntime s.pending_fault))
