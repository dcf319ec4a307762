-- ===== src/Runtime/Histories/Invariant.antt =====
-- What holds of a runtime after every call: src/g3/market_runtime.cpp.
use binance_market_data_gate.Base.{
  ℕ, suc, ◌≤◌, ◌≡◌, sym, ◌∙◌, ap, Bool, false, List, [], ◌∷◌, length, arith,
}
use binance_market_data_gate.Runtime.Observed.{is_faulted}
use binance_market_data_gate.Runtime.Projection.{ProjectionApi}
use binance_market_data_gate.Runtime.Types.{
  IngressItem, Work, unowned, admits_request, processes, is_internal, Runtime,
}
use binance_market_data_gate.Runtime.Handling.{is_cleared, view, Settled, same-Handled}

module _ {api : ProjectionApi} where
  -- The items without a processed ticket: that in the owner's hands, and those in the mailbox.
  abbrev pub outstanding : Work api → List (IngressItem api) → List (IngressItem api)
  outstanding (processes item) items = item ∷ items
  outstanding _ items = items

  -- The tickets are those after `k`, in order, up to `last`.
  abbrev pub Numbered : ℕ → List (IngressItem api) → ℕ → Type 0
  Numbered k [] last = k ≡ last
  Numbered k (item ∷ items) last = (item.ticket ≡ suc k) × Numbered (suc k) items last

  -- The requests without an answer, by those in the queue.
  abbrev pub unanswered : Work api → ℕ → ℕ
  unanswered (admits_request _) k = suc k
  unanswered _ k = k

  -- The owner takes no item of a runtime whose mailbox was discarded with a fault.
  abbrev pub Unfaulted : Work api → Bool → Type 0
  Unfaulted (processes _) cleared = cleared ≡ false
  Unfaulted _ cleared = Unit

  -- After at most `n` calls.
  pub record IsRuntime (n : ℕ) (s : Runtime api) : Type 0 where
    pub mailbox : length s.ingress ≤ s.limits.ingress_capacity
    pub buffer : length s.bootstrap ≤ s.limits.bootstrap_capacity
    pub resident : length s.subscribers ≤ s.limits.publication.maximum_active_subscriptions
    pub pending : s.pending_admission_count ≡ unanswered s.work (length s.admission_requests)
    pub admissible : s.pending_admission_count ≤ s.limits.publication.pending_admission_capacity
    pub pending_counted : s.pending_admission_count ≤ n
    pub tickets : Numbered s.processed_ticket (outstanding s.work s.ingress) s.last_admitted_ticket
    pub counted : s.last_admitted_ticket ≤ n
    pub settled : Settled s
    pub unfaulted : Unfaulted s.work (is_cleared s.observation)
    pub unstarted :
        s.started ≡ false → (s.work ≡ unowned) × (is_faulted s.observation.state ≡ false)

  pub more-IsRuntime : {n : ℕ} {s : Runtime api} → IsRuntime n s → IsRuntime (suc n) s
  more-IsRuntime v = record {
    mailbox = v.mailbox;
    buffer = v.buffer;
    resident = v.resident;
    pending = v.pending;
    admissible = v.admissible;
    pending_counted = omega (arith, v.pending_counted);
    tickets = v.tickets;
    counted = omega (arith, v.counted);
    settled = v.settled;
    unfaulted = v.unfaulted;
    unstarted = v.unstarted;
  }

  -- A step that changes none of the fields that the invariant speaks of.
  pub same-IsRuntime : {n : ℕ} (s t : Runtime api) → view t ≡ view s → IsRuntime n s → IsRuntime n t
  same-IsRuntime s t e v =
      let h = same-Handled s t e in
      let limits = ap (λ v. v.kept.limits) e in
      let work = ap (λ v. v.kept.work) e in
      let ingress = ap (λ v. v.ingress) e in
      let count = ap (λ v. v.kept.pending_admission_count) e in
      let last = ap (λ v. v.kept.last_admitted_ticket) e in
      let fault = ap (λ v. v.is_fault) e in
      let reason = ap (λ v. is_internal v.fault_reason) e in
      record {
        mailbox = rw (limits, ingress) v.mailbox;
        buffer = let k = h.buffered in rw limits (omega (arith, v.buffer, k));
        resident = let k = h.resident in rw limits (omega (arith, v.resident, k));
        pending = rw (count, work, ap (λ v. v.kept.admission_requests) e) v.pending;
        admissible = rw (count, limits) v.admissible;
        pending_counted = rw count v.pending_counted;
        tickets = rw (work, ingress, last, ap (λ v. v.processed_ticket) e) v.tickets;
        counted = rw last v.counted;
        settled = h.settled v.settled;
        unfaulted = rw (work, fault, reason) v.unfaulted;
        unstarted = λ f. rw (work, fault) (v.unstarted (sym (ap (λ v. v.kept.started) e) ∙ f));
      }
