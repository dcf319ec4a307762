-- ===== src/Runtime/Histories/Steps.antt =====
-- The calls of the other threads keep the invariant: src/g3/market_runtime.cpp.
use binance_market_data_gate.Base.{
  ℕ, suc, ◌<◌, ◌^◌, ◌≡◌, refl, sym, subst, ◌∙◌, ap, false, not, ◌||◌, ◌==◌, Option, none, some,
  List, [], ◌∷◌, ◌++◌, length, arith, if_cases, length-append,
}
use binance_market_data_gate.Base.Words.{add_u64}
use binance_market_data_gate.Runtime.Projection.{ProjectionApi}
use binance_market_data_gate.Runtime.Types.{
  FaultReason, ingress_overflow, AdmissionResult, SubscriptionAdmissionError, RuntimeInput,
  IngressItem, Work, processes, admits_request, ResetKind, recovery_reset, planned_reset,
  ValidatedOrderBookSubscription, Runtime,
}
use binance_market_data_gate.Runtime.Calls.{submit, observe}
use binance_market_data_gate.Runtime.Requests.{
  request_reset, finish_reset, request_snapshot, finish_snapshot, request_admission,
  notify_subscriber_closed, close_publication_admission, request_publication_shutdown,
  release_owner, pause_owner, is_healthy,
}
use binance_market_data_gate.Runtime.Handling.{view}
use binance_market_data_gate.Runtime.Histories.Invariant.{
  outstanding, Numbered, unanswered, IsRuntime, more-IsRuntime, same-IsRuntime,
}

length-snoc {ℓ} : {A : Type ℓ} (xs : List A) (x : A) → length (xs ++ (x ∷ [])) ≡ suc (length xs)
length-snoc xs x = let longer = length-append xs (x ∷ []) in omega (arith, longer)

module _ {api : ProjectionApi} where
  Numbered-snoc :
      (k last : ℕ) (items : List (IngressItem api)) (item : IngressItem api)
      → item.ticket ≡ suc last
      → Numbered k items last
      → Numbered k (items ++ (item ∷ [])) (suc last)
  Numbered-snoc k last [] item e n = (e ∙ ap suc (sym n), ap suc n)
  Numbered-snoc k last (i ∷ items) item e (h, n) = (h, Numbered-snoc (suc k) last items item e n)

  outstanding-snoc :
      (w : Work api) (k last : ℕ) (items : List (IngressItem api)) (item : IngressItem api)
      → item.ticket ≡ suc last
      → Numbered k (outstanding w items) last
      → Numbered k (outstanding w (items ++ (item ∷ []))) (suc last)
  outstanding-snoc (processes i) k last items item e (h, n) =
      (h, Numbered-snoc (suc k) last items item e n)
  outstanding-snoc w k last items item e n = Numbered-snoc k last items item e n

  unanswered-suc : (w : Work api) (k : ℕ) → unanswered w (suc k) ≡ suc (unanswered w k)
  unanswered-suc (admits_request _) k = refl
  unanswered-suc w k = refl

  module _ {n : ℕ} (s : Runtime api) (v : IsRuntime n s) where
    -- A step with the same view.
    kept-IsRuntime : (t : Runtime api) → view t ≡ view s → IsRuntime (suc n) t
    kept-IsRuntime t e = same-IsRuntime s t e (more-IsRuntime v)

    pub observe-IsRuntime : IsRuntime (suc n) (observe s).1
    unfolding observe
    observe-IsRuntime = kept-IsRuntime _ refl

    pub request_reset-IsRuntime : (kind : ResetKind) → IsRuntime (suc n) (request_reset kind s).1
    unfolding request_reset
    request_reset-IsRuntime recovery_reset = kept-IsRuntime _ (ground arith)
    request_reset-IsRuntime planned_reset = kept-IsRuntime _ (ground arith)

    pub finish_reset-IsRuntime : IsRuntime (suc n) (finish_reset s).1
    unfolding finish_reset
    finish_reset-IsRuntime = kept-IsRuntime _ (ground arith)

    pub request_snapshot-IsRuntime : IsRuntime (suc n) (request_snapshot s).1
    unfolding request_snapshot
    request_snapshot-IsRuntime = kept-IsRuntime _ (ground arith)

    pub finish_snapshot-IsRuntime : IsRuntime (suc n) (finish_snapshot s).1
    unfolding finish_snapshot
    finish_snapshot-IsRuntime = kept-IsRuntime _ (ground arith)

    pub request_publication_shutdown-IsRuntime :
        IsRuntime (suc n) (request_publication_shutdown s).1
    unfolding request_publication_shutdown
    request_publication_shutdown-IsRuntime = kept-IsRuntime _ (ground arith)

    pub pause_owner-IsRuntime : IsRuntime (suc n) (pause_owner s)
    unfolding pause_owner
    pause_owner-IsRuntime = kept-IsRuntime _ (ground arith)

    pub flags-IsRuntime :
        IsRuntime (suc n) (notify_subscriber_closed s)
        × IsRuntime (suc n) (close_publication_admission s)
        × IsRuntime (suc n) (release_owner s)
    unfolding notify_subscriber_closed close_publication_admission release_owner
    flags-IsRuntime = (kept-IsRuntime _ refl, kept-IsRuntime _ refl, kept-IsRuntime _ refl)

    closed-IsRuntime :
        (o : Option FaultReason)
        → IsRuntime (suc n) (record s { accepting = false; pending_fault = o })
    closed-IsRuntime o =
        let w = more-IsRuntime v in
        record {
          mailbox = w.mailbox;
          buffer = w.buffer;
          resident = w.resident;
          pending = w.pending;
          admissible = w.admissible;
          pending_counted = w.pending_counted;
          tickets = w.tickets;
          counted = w.counted;
          settled = (
            w.settled.0,
            λ e.
                let k = w.settled.1 e in
                record {
                  gate = refl;
                  mailbox = k.mailbox;
                  buffer = k.buffer;
                  sessions = k.sessions;
                },
          );
          unfaulted = w.unfaulted;
          unstarted = w.unstarted;
        }

    pub submit-IsRuntime :
        (input : RuntimeInput api) → suc n < 2 ^ 64 → IsRuntime (suc n) (submit input s).1
    unfolding submit
    submit-IsRuntime input b =
        let w = more-IsRuntime v in
        let counted = v.counted in
        let next : add_u64 s.last_admitted_ticket 1 ≡ suc s.last_admitted_ticket = omega arith in
        let item : IngressItem api = record {
          ticket = add_u64 s.last_admitted_ticket 1;
          input = input;
        } in
        if_cases (λ (r : AdmissionResult × Runtime api). IsRuntime (suc n) r.1) s.is_over (λ _. w)
          (λ _.
            if_cases (λ (r : AdmissionResult × Runtime api). IsRuntime (suc n) r.1) (not s.started)
              (λ _. w)
              (λ _.
                if_cases (λ (r : AdmissionResult × Runtime api). IsRuntime (suc n) r.1)
                  s.stop_requested (λ _. w)
                  (λ _.
                    if_cases (λ (r : AdmissionResult × Runtime api). IsRuntime (suc n) r.1)
                      (not s.accepting) (λ _. w)
                      (λ gate.
                        if_cases (λ (r : AdmissionResult × Runtime api). IsRuntime (suc n) r.1)
                          (length s.ingress == s.limits.ingress_capacity)
                          (λ _. closed-IsRuntime (some ingress_overflow))
                          (λ room. record {
                            mailbox =
                                let longer = length-append s.ingress (item ∷ []) in
                                let h = v.mailbox in ground (arith, longer, h, room);
                            buffer = w.buffer;
                            resident = w.resident;
                            pending = w.pending;
                            admissible = w.admissible;
                            pending_counted = w.pending_counted;
                            tickets =
                                subst
                                  (λ l.
                                    Numbered s.processed_ticket
                                      (outstanding s.work (s.ingress ++ (item ∷ []))) l)
                                  (sym next)
                                  (outstanding-snoc s.work s.processed_ticket s.last_admitted_ticket
                                    s.ingress item next v.tickets);
                            counted = rw next (omega (arith, counted));
                            settled = (
                              w.settled.0,
                              λ e. let shut = (w.settled.1 e).gate in ground (arith, shut, gate),
                            );
                            unfaulted = w.unfaulted;
                            unstarted = w.unstarted;
                          })))))

    pub request_admission-IsRuntime :
        (allocated : Option ℕ) (subscription : ValidatedOrderBookSubscription)
        → suc n < 2 ^ 64
        → IsRuntime (suc n) (request_admission allocated subscription s).1
    unfolding request_admission
    request_admission-IsRuntime none subscription b = kept-IsRuntime _ (ground arith)
    request_admission-IsRuntime (some id) subscription b =
        let w = more-IsRuntime v in
        let bound = v.pending_counted in
        let next : add_u64 s.pending_admission_count 1 ≡ suc s.pending_admission_count =
          omega arith in
        if_cases (λ (r : Option SubscriptionAdmissionError × Runtime api). IsRuntime (suc n) r.1)
          s.is_over (λ _. w)
          (λ _.
            if_cases
              (λ (r : Option SubscriptionAdmissionError × Runtime api). IsRuntime (suc n) r.1)
              (not s.started) (λ _. w)
              (λ _.
                if_cases
                  (λ (r : Option SubscriptionAdmissionError × Runtime api). IsRuntime (suc n) r.1)
                  (not s.publication_admission_open
                    || s.publication_shutdown_requested
                    || s.publication_shutdown_completed
                    || s.stop_requested)
                  (λ _. w)
                  (λ _.
                    if_cases
                      (λ (r : Option SubscriptionAdmissionError × Runtime api).
                        IsRuntime (suc n) r.1)
                      (not (is_healthy s.observation)) (λ _. w)
                      (λ _.
                        if_cases
                          (λ (r : Option SubscriptionAdmissionError × Runtime api).
                            IsRuntime (suc n) r.1)
                          (s.pending_admission_count
                            == s.limits.publication.pending_admission_capacity)
                          (λ _. w)
                          (λ room. record {
                            mailbox = w.mailbox;
                            buffer = w.buffer;
                            resident = w.resident;
                            pending =
                                next
                                ∙ ap suc v.pending
                                ∙ sym (unanswered-suc s.work (length s.admission_requests))
                                ∙ ap (unanswered s.work) (sym (length-snoc s.admission_requests _));
                            admissible = let h = v.admissible in rw next (ground (arith, h, room));
                            pending_counted = rw next (omega (arith, bound));
                            tickets = w.tickets;
                            counted = w.counted;
                            settled = (
                              w.settled.0,
                              λ e.
                                  let k = w.settled.1 e in
                                  record {
                                    gate = k.gate;
                                    mailbox = k.mailbox;
                                    buffer = k.buffer;
                                    sessions = k.sessions;
                                  },
                            );
                            unfaulted = w.unfaulted;
                            unstarted = w.unstarted;
                          })))))
