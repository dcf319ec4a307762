-- ===== src/Runtime/Histories/Lifetime.antt =====
-- The start, the stop, the owner's first block and the handlers keep the invariant:
-- src/g3/market_runtime.cpp.
use binance_market_data_gate.Base.{
  ℕ, suc, ◌≡◌, refl, sym, subst, ◌∙◌, ap, Bool, true, false, not, ◌&&◌, ◌||◌, Option, length, arith,
  if_cases, if◌then◌else◌,
}
use binance_market_data_gate.Runtime.Observed.{
  RuntimeState, stopping, stopped, is_faulted, is_needs_resync,
}
use binance_market_data_gate.Runtime.Projection.{ProjectionApi}
use binance_market_data_gate.Runtime.Types.{
  StartResult, Work, finished, processes, is_internal, Runtime,
}
use binance_market_data_gate.Runtime.Calls.{
  start, request_stop, complete_all_admissions, finish_stop,
}
use binance_market_data_gate.Publication.Shared.{Shared}
use binance_market_data_gate.Publication.Channel.Types.{is_active}
use binance_market_data_gate.Runtime.Faults.{refreshed}
use binance_market_data_gate.Runtime.Owner.{owner_start}
use binance_market_data_gate.Runtime.Handling.Answering.{Unended}
use binance_market_data_gate.Runtime.Histories.{HandlerCall, begin_owner, finish_joined, handle}
use binance_market_data_gate.Runtime.Histories.Invariant.{
  outstanding, Numbered, unanswered, Unfaulted, IsRuntime, more-IsRuntime,
}
use binance_market_data_gate.Runtime.Histories.Handlers.{
  length-handle_each, handler_call-Unended, handler_call-ended, handle_each-All,
}

stop_state-faulted :
    (st : RuntimeState)
    → is_faulted (if is_faulted st || is_needs_resync st then st else stopping) ≡ is_faulted st
stop_state-faulted st = ground arith

module _ {api : ProjectionApi} where
  any_Unfaulted : (w : Work api) → Unfaulted w false
  any_Unfaulted (processes _) = refl
  any_Unfaulted w = tt

  module _ {n : ℕ} (s : Runtime api) (v : IsRuntime n s) where
    pub start-IsRuntime : (created : Bool) → IsRuntime (suc n) (start created s).1
    unfolding start
    start-IsRuntime created =
        let w = more-IsRuntime v in
        if_cases (λ (r : Option StartResult × Runtime api). IsRuntime (suc n) r.1) s.is_over
          (λ _. w)
          (λ _.
            if_cases (λ (r : Option StartResult × Runtime api). IsRuntime (suc n) r.1) s.started
              (λ _. w)
              (λ f.
                if_cases (λ (r : Option StartResult × Runtime api). IsRuntime (suc n) r.1)
                  (not created) (λ _. w)
                  (λ _.
                    let (idle, fine) = v.unstarted f in
                    record {
                      mailbox = w.mailbox;
                      buffer = w.buffer;
                      resident = w.resident;
                      pending =
                          w.pending ∙ ap (λ k. unanswered k (length s.admission_requests)) idle;
                      admissible = w.admissible;
                      pending_counted = w.pending_counted;
                      tickets =
                          subst
                            (λ k.
                              Numbered s.processed_ticket (outstanding k s.ingress)
                                s.last_admitted_ticket)
                            idle w.tickets;
                      counted = w.counted;
                      settled = (w.settled.0, λ e. ground (arith, e, fine));
                      unfaulted = tt;
                      unstarted = λ e. ground (arith, e);
                    })))

    pub request_stop-IsRuntime : IsRuntime (suc n) (request_stop s)
    unfolding request_stop
    request_stop-IsRuntime =
        let w = more-IsRuntime v in
        if_cases (λ (r : Runtime api). IsRuntime (suc n) r) s.is_over (λ _. w)
          (λ _.
            if_cases (λ (r : Runtime api). IsRuntime (suc n) r) (not s.started)
              {x = record s {
                accepting = false;
                is_over = true;
                observation = record s.observation { state = stopped; owner_joined = true };
              }}
              {y = record s {
                accepting = false;
                publication_admission_open = false;
                publication_shutdown_requested = true;
                stop_requested = true;
                owner_paused = false;
                observation = record s.observation {
                  publication_admission_open = false;
                  state =
                      if is_faulted s.observation.state || is_needs_resync s.observation.state
                      then s.observation.state
                      else stopping;
                };
              }}
              (λ f. record {
                mailbox = w.mailbox;
                buffer = w.buffer;
                resident = w.resident;
                pending = w.pending;
                admissible = w.admissible;
                pending_counted = w.pending_counted;
                tickets = w.tickets;
                counted = w.counted;
                settled = (w.settled.0, λ e. ground (arith, e));
                unfaulted =
                    let off : s.started ≡ false = ground (arith, f) in
                    let idle = (v.unstarted off).0 in subst (λ k. Unfaulted k false) (sym idle) tt;
                unstarted = λ e. ((w.unstarted e).0, refl);
              })
              (λ f.
                let same = stop_state-faulted s.observation.state in
                record {
                  mailbox = w.mailbox;
                  buffer = w.buffer;
                  resident = w.resident;
                  pending = w.pending;
                  admissible = w.admissible;
                  pending_counted = w.pending_counted;
                  tickets = w.tickets;
                  counted = w.counted;
                  settled = (
                    w.settled.0,
                    λ e.
                        let k = w.settled.1 (sym same ∙ e) in
                        record {
                          gate = refl;
                          mailbox = k.mailbox;
                          buffer = k.buffer;
                          sessions = k.sessions;
                        },
                  );
                  unfaulted =
                      subst (Unfaulted s.work)
                        (ap (λ k. k && not (is_internal s.observation.fault_reason)) (sym same))
                        w.unfaulted;
                  unstarted = λ e. ground (arith, e, f);
                }))

    pub finish_stop-IsRuntime : s.work ≡ finished → IsRuntime (suc n) (finish_stop s)
    unfolding finish_stop complete_all_admissions
    finish_stop-IsRuntime e =
        let w = more-IsRuntime v in
        record {
          mailbox = w.mailbox;
          buffer = w.buffer;
          resident = w.resident;
          pending = sym (ap (λ k. unanswered k 0) e);
          admissible = omega arith;
          pending_counted = omega arith;
          tickets = w.tickets;
          counted = w.counted;
          settled = (w.settled.0, λ f. ground (arith, f));
          unfaulted = subst (λ k. Unfaulted k false) (sym e) tt;
          unstarted = λ f. ((w.unstarted f).0, refl);
        }

    pub finish_joined-IsRuntime :
        (k : Work api) → s.work ≡ k → IsRuntime (suc n) (finish_joined k s)
    unfolding finish_joined
    finish_joined-IsRuntime finished e = finish_stop-IsRuntime e
    finish_joined-IsRuntime k e = more-IsRuntime v

    -- The owner's first block leaves the runtime buffering.
    pub begin_owner-IsRuntime : IsRuntime (suc n) (begin_owner s)
    unfolding begin_owner owner_start refreshed
    begin_owner-IsRuntime =
        let w = more-IsRuntime v in
        if_cases (λ r. IsRuntime (suc n) r) (s.started && not s.owner_ready) {x = owner_start s}
          (λ f. record {
            mailbox = w.mailbox;
            buffer = w.buffer;
            resident = w.resident;
            pending = w.pending;
            admissible = w.admissible;
            pending_counted = w.pending_counted;
            tickets = w.tickets;
            counted = w.counted;
            settled = (w.settled.0, λ e. ground (arith, e));
            unfaulted = any_Unfaulted s.work;
            unstarted = λ e. ((w.unstarted e).0, refl);
          })
          (λ _. w)

    pub handle-IsRuntime :
        (address : ℕ) (o : HandlerCall api.BookSnapshot (Shared api.DepthUpdate))
        → IsRuntime (suc n) (handle address o s)
    unfolding handle
    handle-IsRuntime address o =
        let w = more-IsRuntime v in
        record {
          mailbox = w.mailbox;
          buffer = w.buffer;
          resident =
              let kept = length-handle_each address o s.subscribers in
              let h = v.resident in omega (arith, kept, h);
          pending = w.pending;
          admissible = w.admissible;
          pending_counted = w.pending_counted;
          tickets = w.tickets;
          counted = w.counted;
          settled = (
            handle_each-All Unended handler_call-Unended address o s.subscribers w.settled.0,
            λ e.
                let k = w.settled.1 e in
                record {
                  gate = k.gate;
                  mailbox = k.mailbox;
                  buffer = k.buffer;
                  sessions =
                      handle_each-All (λ c. is_active c.state ≡ false) handler_call-ended address o
                        s.subscribers k.sessions;
                },
          );
          unfaulted = w.unfaulted;
          unstarted = w.unstarted;
        }
