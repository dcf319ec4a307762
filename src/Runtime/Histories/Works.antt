-- ===== src/Runtime/Histories/Works.antt =====
-- The ends of the owner's works, and the invariant: src/g3/market_runtime.cpp.
use binance_market_data_gate.Base.{ℕ, suc, ◌≡◌, subst, ◌∙◌, ap, true, false, ◌∷◌, length, arith}
use binance_market_data_gate.Runtime.Projection.{ProjectionApi}
use binance_market_data_gate.Runtime.Types.{
  AdmissionRequest, IngressItem, waiting, admits_request, processes, Runtime,
}
use binance_market_data_gate.Runtime.Process.{finish_ticket}
use binance_market_data_gate.Runtime.Handling.{is_cleared, Handled}
use binance_market_data_gate.Runtime.Handling.Inputs.{Processed}
use binance_market_data_gate.Runtime.Handling.Answering.{Answered}
use binance_market_data_gate.Runtime.Histories.Invariant.{
  outstanding, Numbered, unanswered, Unfaulted, IsRuntime,
}
use binance_market_data_gate.Runtime.Histories.Tickets.{
  Drained-Numbered, finished-Numbered, Drained-length,
}

module _ {api : ProjectionApi} (n : ℕ) where
  -- What the owner's work does, for a work without an item and without a request.
  pub plain_turn-IsRuntime :
      (s t : Runtime api)
      → IsRuntime n s
      → s.started ≡ true
      → outstanding s.work s.ingress ≡ s.ingress
      → unanswered s.work (length s.admission_requests) ≡ length s.admission_requests
      → Handled s t
      → IsRuntime n (record t { work = waiting })
  plain_turn-IsRuntime s t v on items requests h =
      let limits = ap (λ f. f.limits) h.same in
      let last = ap (λ f. f.last_admitted_ticket) h.same in
      let count = ap (λ f. f.pending_admission_count) h.same in
      let queue = ap (λ f. f.admission_requests) h.same in
      record {
        mailbox =
            let fewer = Drained-length s t h.tickets in
            let low = v.mailbox in rw limits (omega (arith, low, fewer));
        buffer =
            let low = v.buffer in let fewer = h.buffered in rw limits (omega (arith, low, fewer));
        resident =
            let low = v.resident in let fewer = h.resident in rw limits (omega (arith, low, fewer));
        pending = rw (count, queue) (v.pending ∙ requests);
        admissible = rw (count, limits) v.admissible;
        pending_counted = rw count v.pending_counted;
        tickets = rw last (
            Drained-Numbered s t s.last_admitted_ticket h.tickets (
              subst (λ is. Numbered s.processed_ticket is s.last_admitted_ticket) items v.tickets));
        counted = rw last v.counted;
        settled =
            let (u, q) = h.settled v.settled in
            (
              u,
              λ e.
                  let k = q e in
                  record {
                    gate = k.gate;
                    mailbox = k.mailbox;
                    buffer = k.buffer;
                    sessions = k.sessions;
                  },
            );
        unfaulted = tt;
        unstarted = λ f. let same = ap (λ f. f.started) h.same in ground (arith, f, same, on);
      }

  pub admission_turn-IsRuntime :
      (s t : Runtime api) (request : AdmissionRequest)
      → IsRuntime n s
      → s.started ≡ true
      → s.work ≡ admits_request request
      → Answered s t
      → IsRuntime n (record t { work = waiting })
  admission_turn-IsRuntime s t request v on e h =
      let limits = ap (λ f. f.limits) h.same in
      let last = ap (λ f. f.last_admitted_ticket) h.same in
      let queue = ap (λ f. f.admission_requests) h.same in
      let count = ap (λ f. f.pending_admission_count) h.same in
      let were : s.pending_admission_count ≡ suc (length s.admission_requests) =
        v.pending ∙ ap (λ k. unanswered k (length s.admission_requests)) e in
      let are : t.pending_admission_count ≡ length s.admission_requests =
        ground (arith, count, were) in
      let admissible = v.admissible in
      let pending_counted = v.pending_counted in
      record {
        mailbox =
            let fewer = Drained-length s t h.tickets in
            let low = v.mailbox in rw limits (omega (arith, low, fewer));
        buffer =
            let low = v.buffer in let fewer = h.buffered in rw limits (omega (arith, low, fewer));
        resident = rw limits (h.resident v.resident);
        pending = rw queue are;
        admissible = rw (are, limits) (omega (arith, were, admissible));
        pending_counted = omega (arith, are, were, pending_counted);
        tickets = rw last (
            Drained-Numbered s t s.last_admitted_ticket h.tickets (
              subst
                (λ k. Numbered s.processed_ticket (outstanding k s.ingress) s.last_admitted_ticket)
                e v.tickets));
        counted = rw last v.counted;
        settled =
            let (u, q) = h.settled v.settled in
            (
              u,
              λ e.
                  let k = q e in
                  record {
                    gate = k.gate;
                    mailbox = k.mailbox;
                    buffer = k.buffer;
                    sessions = k.sessions;
                  },
            );
        unfaulted = tt;
        unstarted = λ f. let same = ap (λ f. f.started) h.same in ground (arith, f, same, on);
      }

  pub item_turn-IsRuntime :
      (s t : Runtime api) (item : IngressItem api)
      → IsRuntime n s
      → s.started ≡ true
      → s.work ≡ processes item
      → Processed s t
      → IsRuntime n (record (finish_ticket item.ticket t) { work = waiting })
  unfolding finish_ticket
  item_turn-IsRuntime s t item v on e h =
      let limits = ap (λ f. f.limits) h.same in
      let last = ap (λ f. f.last_admitted_ticket) h.same in
      let count = ap (λ f. f.pending_admission_count) h.same in
      let queue = ap (λ f. f.admission_requests) h.same in
      let held : Numbered s.processed_ticket (item ∷ s.ingress) s.last_admitted_ticket =
        subst (λ k. Numbered s.processed_ticket (outstanding k s.ingress) s.last_admitted_ticket) e
          v.tickets in
      let fine : is_cleared s.observation ≡ false =
        subst (λ k. Unfaulted k (is_cleared s.observation)) e v.unfaulted in
      record {
        mailbox =
            let fewer = Drained-length s t h.tickets in
            let low = v.mailbox in rw limits (omega (arith, low, fewer));
        buffer = rw limits (h.buffered v.buffer);
        resident =
            let low = v.resident in let fewer = h.resident in rw limits (omega (arith, low, fewer));
        pending =
            rw (count, queue) (v.pending ∙ ap (λ k. unanswered k (length s.admission_requests)) e);
        admissible = rw (count, limits) v.admissible;
        pending_counted = rw count v.pending_counted;
        tickets = rw last (finished-Numbered s t item s.last_admitted_ticket h.tickets held);
        counted = rw last v.counted;
        settled =
            let (u, q) = h.settled fine v.settled in
            (
              u,
              λ e.
                  let k = q e in
                  record {
                    gate = k.gate;
                    mailbox = k.mailbox;
                    buffer = k.buffer;
                    sessions = k.sessions;
                  },
            );
        unfaulted = tt;
        unstarted = λ f. let same = ap (λ f. f.started) h.same in ground (arith, f, same, on);
      }
