-- ===== src/Runtime/Histories/Turns.antt =====
-- The owner's steps keep the invariant: src/g3/market_runtime.cpp.
use binance_market_data_gate.Base.{ℕ, ◌≡◌, refl, subst, ap, true, Option, none, length, arith}
use binance_market_data_gate.Runtime.Observed.{ClockSample}
use binance_market_data_gate.Runtime.Projection.{ProjectionApi}
use binance_market_data_gate.Runtime.Types.{
  Work, unowned, waiting, finished, shuts_down_publication, resets, captures, sweeps, faults,
  admits_request, processes, Runtime,
}
use binance_market_data_gate.Runtime.Calls.{complete_all_admissions}
use binance_market_data_gate.Runtime.Faults.{close_all_subscribers}
use binance_market_data_gate.Runtime.Process.{process_item}
use binance_market_data_gate.Runtime.Answers.{perform_reset_request, perform_snapshot_request}
use binance_market_data_gate.Runtime.Owner.{
  perform_publication_shutdown_control, perform, owner_turn,
}
use binance_market_data_gate.Runtime.Handling.{is_cleared, Handled, same-Handled}
use binance_market_data_gate.Runtime.Handling.Faulting.{sweep-Handled, transition_to_fault-Handled}
use binance_market_data_gate.Runtime.Handling.Resets.{answer_reset_request-Handled}
use binance_market_data_gate.Runtime.Handling.Inputs.{before_finish-Processed}
use binance_market_data_gate.Runtime.Handling.Answering.{perform_admission-Answered}
use binance_market_data_gate.Runtime.Histories.Invariant.{
  outstanding, Numbered, unanswered, Unfaulted, IsRuntime,
}
use binance_market_data_gate.Runtime.Histories.Choices.{
  is_owned, owned-started, take_work-IsRuntime,
}
use binance_market_data_gate.Runtime.Histories.Works.{
  plain_turn-IsRuntime, admission_turn-IsRuntime, item_turn-IsRuntime,
}

module _ {api : ProjectionApi} (clock : ℕ → Option ClockSample) (allocator : ℕ → Option ℕ) where
  perform_snapshot_request-Handled :
      (s : Runtime api) → Handled s (perform_snapshot_request clock s)
  unfolding perform_snapshot_request
  perform_snapshot_request-Handled s = same-Handled s _ (ground arith)

  module _ {n : ℕ} (s : Runtime api) (v : IsRuntime n s) where
    shut_down-IsRuntime :
        s.started ≡ true
        → s.work ≡ shuts_down_publication
        → IsRuntime n (record (perform_publication_shutdown_control s) { work = waiting })
    unfolding perform_publication_shutdown_control close_all_subscribers complete_all_admissions
    shut_down-IsRuntime on e = record {
      mailbox = v.mailbox;
      buffer = v.buffer;
      resident = omega arith;
      pending = refl;
      admissible = omega arith;
      pending_counted = omega arith;
      tickets =
          subst (λ k. Numbered s.processed_ticket (outstanding k s.ingress) s.last_admitted_ticket)
            e v.tickets;
      counted = v.counted;
      settled = (
        tt,
        λ f.
            let k = v.settled.1 f in
            record { gate = k.gate; mailbox = k.mailbox; buffer = k.buffer; sessions = tt },
      );
      unfaulted = tt;
      unstarted = λ f. ground (arith, f, on);
    }

    pub owner_turn-IsRuntime :
        (w : Work api) → s.work ≡ w → IsRuntime n (owner_turn clock allocator w s)
    unfolding owner_turn perform perform_reset_request process_item
    owner_turn-IsRuntime unowned e = v
    owner_turn-IsRuntime finished e = v
    owner_turn-IsRuntime waiting e = take_work-IsRuntime s v (owned-started s v (ap is_owned e)) e
    owner_turn-IsRuntime shuts_down_publication e =
        shut_down-IsRuntime (owned-started s v (ap is_owned e)) e
    owner_turn-IsRuntime resets e =
        plain_turn-IsRuntime n s _ v (owned-started s v (ap is_owned e))
          (ap (λ k. outstanding k s.ingress) e)
          (ap (λ k. unanswered k (length s.admission_requests)) e)
          (answer_reset_request-Handled clock s.reset_request s v.settled.0)
    owner_turn-IsRuntime captures e =
        plain_turn-IsRuntime n s _ v (owned-started s v (ap is_owned e))
          (ap (λ k. outstanding k s.ingress) e)
          (ap (λ k. unanswered k (length s.admission_requests)) e)
          (perform_snapshot_request-Handled s)
    owner_turn-IsRuntime sweeps e =
        plain_turn-IsRuntime n s _ v (owned-started s v (ap is_owned e))
          (ap (λ k. outstanding k s.ingress) e)
          (ap (λ k. unanswered k (length s.admission_requests)) e) (sweep-Handled s)
    owner_turn-IsRuntime (faults reason) e =
        plain_turn-IsRuntime n s _ v (owned-started s v (ap is_owned e))
          (ap (λ k. outstanding k s.ingress) e)
          (ap (λ k. unanswered k (length s.admission_requests)) e)
          (transition_to_fault-Handled clock reason none s)
    owner_turn-IsRuntime (admits_request request) e =
        admission_turn-IsRuntime n s _ request v (owned-started s v (ap is_owned e)) e
          (perform_admission-Answered request allocator clock s)
    owner_turn-IsRuntime (processes item) e =
        item_turn-IsRuntime n s _ item v (owned-started s v (ap is_owned e)) e (
          before_finish-Processed clock allocator item s v.buffer
            (subst (λ k. Unfaulted k (is_cleared s.observation)) e v.unfaulted))
