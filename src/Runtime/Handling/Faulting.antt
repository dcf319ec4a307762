-- ===== src/Runtime/Handling/Faulting.antt =====
-- The owner's functions on the mailbox, and the transition to a fault: src/g3/market_runtime.cpp.
use binance_market_data_gate.Base.{
  ℕ, ◌≡◌, refl, inl, inr, true, false, Option, none, arith, ◌||◌, if_cases,
}
use binance_market_data_gate.Publication.Shared.{
  ConsumerGapReason, resume_not_available, request_new_snapshot, RecoveryAction,
}
use binance_market_data_gate.Publication.Channel.Types.{is_active}
use binance_market_data_gate.Runtime.Observed.{
  awaiting_baseline, projection_awaiting_bridge, synchronized, projection_needs_resync, is_faulted,
  is_stopping, is_stopped, is_projection_needs_resync, ProjectionStatus, ClockSample,
}
use binance_market_data_gate.Runtime.Projection.{ProjectionApi}
use binance_market_data_gate.Runtime.Types.{
  FaultReason, ResetKind, planned_reset, recovery_reset, Runtime,
}
use binance_market_data_gate.Runtime.Faults.{
  open_subscribers, sweep_closed_subscribers, discard_ingress, projected_state, show_projection,
  publish_projection_state, refreshed, sample_publication_time, terminalize_active_subscribers,
  time_or_zero, publication_time, transition_to_fault, state_for_projection,
}
use binance_market_data_gate.Runtime.Answers.{terminalize_for_reset}
use binance_market_data_gate.Runtime.Handling.{
  AllEnded, AllUnended, IsQuiet, IsQuiet-IsShut, Handled, Handled-trans,
}
use binance_market_data_gate.Runtime.Handling.Sessions.{
  open_subscribers_le, open_subscribers-All, length-terminalize_each, terminalize_each-AllEnded,
  AllEnded→AllUnended,
}

state_for_projection-fine : (p : ProjectionStatus) → is_faulted (state_for_projection p) ≡ false
unfolding state_for_projection
state_for_projection-fine awaiting_baseline = refl
state_for_projection-fine projection_awaiting_bridge = refl
state_for_projection-fine synchronized = refl
state_for_projection-fine projection_needs_resync = refl

module _ {api : ProjectionApi} where
  pub sweep-Handled : (s : Runtime api) → Handled s (sweep_closed_subscribers s)
  unfolding sweep_closed_subscribers
  sweep-Handled s = record {
    same = refl;
    tickets = inl (refl, refl);
    buffered = omega arith;
    resident = open_subscribers_le s.subscribers;
    settled = λ (u, q). (
      open_subscribers-All (λ ch. is_active ch.target.state ≡ true → ch.target.terminal ≡ none)
          s.subscribers u,
      λ e.
          let k = q e in
          record {
            gate = k.gate;
            mailbox = k.mailbox;
            buffer = k.buffer;
            sessions =
                open_subscribers-All (λ ch. is_active ch.target.state ≡ false) s.subscribers
                  k.sessions;
          },
    );
  }

  pub discard_ingress-Handled : (s : Runtime api) → Handled s (discard_ingress s)
  unfolding discard_ingress
  discard_ingress-Handled s = record {
    same = refl;
    tickets = inr (refl, refl);
    buffered = omega arith;
    resident = omega arith;
    settled = λ (u, q). (
      u,
      λ e.
          let k = q e in
          record { gate = k.gate; mailbox = λ _. refl; buffer = k.buffer; sessions = k.sessions },
    );
  }

  pub close_gate-Handled : (s : Runtime api) → Handled s (record s { accepting = false })
  close_gate-Handled s = record {
    same = refl;
    tickets = inl (refl, refl);
    buffered = omega arith;
    resident = omega arith;
    settled = λ (u, q). (
      u,
      λ e.
          let k = q e in
          record { gate = refl; mailbox = k.mailbox; buffer = k.buffer; sessions = k.sessions },
    );
  }

  -- The projection never makes a runtime faulted.
  pub projected_state-faulted :
      (s : Runtime api)
      → is_faulted (projected_state s) ≡ true
      → is_faulted s.observation.state ≡ true
  unfolding projected_state
  projected_state-faulted s =
      if_cases (λ x. is_faulted x ≡ true → is_faulted s.observation.state ≡ true)
        (is_faulted s.observation.state
          || is_stopping s.observation.state
          || is_stopped s.observation.state)
        {x = s.observation.state} {y = state_for_projection (api.status s.projection)} (λ _ e. e)
        (λ _ e. let k = state_for_projection-fine (api.status s.projection) in ground (arith, e, k))

  show_projection-Handled : (s : Runtime api) → Handled s (show_projection s)
  unfolding show_projection refreshed
  show_projection-Handled s = record {
    same = refl;
    tickets = inl (refl, refl);
    buffered = omega arith;
    resident = omega arith;
    settled = λ (u, q). (
      u,
      λ e.
          let k = q (projected_state-faulted s e) in
          record { gate = k.gate; mailbox = k.mailbox; buffer = k.buffer; sessions = k.sessions },
    );
  }

  pub publish_projection_state-Handled : (s : Runtime api) → Handled s (publish_projection_state s)
  unfolding publish_projection_state
  publish_projection_state-Handled s =
      let shown = show_projection-Handled s in
      if_cases (λ t. Handled s t) (is_projection_needs_resync (api.status s.projection))
        (λ _.
          Handled-trans shown
            (Handled-trans (close_gate-Handled (show_projection s)) (discard_ingress-Handled _)))
        (λ _. shown)

module _ {api : ProjectionApi} (clock : ℕ → Option ClockSample) where
  pub sample-Handled : (s : Runtime api) → Handled s (sample_publication_time clock s).1
  unfolding sample_publication_time
  sample-Handled s = record {
    same = refl;
    tickets = inl (refl, refl);
    buffered = omega arith;
    resident = omega arith;
    settled = λ (u, q). (
      u,
      λ e.
          let k = q e in
          record { gate = k.gate; mailbox = k.mailbox; buffer = k.buffer; sessions = k.sessions },
    );
  }

  module _ (reason : ConsumerGapReason) (action : RecoveryAction) (generation : Option ℕ) where
    pub terminalize_active-AllEnded :
        (s : Runtime api)
        → AllUnended s.subscribers
        → AllEnded (terminalize_active_subscribers clock reason action generation s).subscribers
    unfolding terminalize_active_subscribers sample_publication_time sweep_closed_subscribers
    terminalize_active-AllEnded s u = terminalize_each-AllEnded reason action generation _ _ (
        open_subscribers-All (λ ch. is_active ch.target.state ≡ true → ch.target.terminal ≡ none)
          s.subscribers u)

    pub terminalize_active-Handled :
        (s : Runtime api)
        → Handled s (terminalize_active_subscribers clock reason action generation s)
    unfolding terminalize_active_subscribers sample_publication_time sweep_closed_subscribers
    terminalize_active-Handled s = record {
      same = refl;
      tickets = inl (refl, refl);
      buffered = omega arith;
      resident =
          let at = time_or_zero (publication_time (clock s.clock_calls)) in
          let kept =
            length-terminalize_each reason action generation at (open_subscribers s.subscribers) in
          let fewer = open_subscribers_le s.subscribers in omega (arith, kept, fewer);
      settled = λ (u, q). (
        AllEnded→AllUnended _ (terminalize_active-AllEnded s u),
        λ e.
            let k = q e in
            record {
              gate = k.gate;
              mailbox = k.mailbox;
              buffer = k.buffer;
              sessions = terminalize_active-AllEnded s u;
            },
      );
    }

  pub transition_to_fault-IsQuiet :
      (reason : FaultReason) (error : Option api.AdapterError) (s : Runtime api)
      → AllUnended s.subscribers
      → IsQuiet (transition_to_fault clock reason error s)
  unfolding transition_to_fault discard_ingress
  transition_to_fault-IsQuiet reason error s u = record {
    gate = refl;
    mailbox = refl;
    buffer = refl;
    sessions = terminalize_active-AllEnded _ _ _ s u;
  }

  pub transition_to_fault-Handled :
      (reason : FaultReason) (error : Option api.AdapterError) (s : Runtime api)
      → Handled s (transition_to_fault clock reason error s)
  unfolding transition_to_fault discard_ingress terminalize_active_subscribers
      sample_publication_time sweep_closed_subscribers
  transition_to_fault-Handled reason error s =
      let h =
        terminalize_active-Handled resume_not_available request_new_snapshot
          s.current_projection_generation s in
      record {
        same = refl;
        tickets = inr (refl, refl);
        buffered = omega arith;
        resident = h.resident;
        settled = λ (u, q).
            let quiet = transition_to_fault-IsQuiet reason error s u in
            (AllEnded→AllUnended _ quiet.sessions, λ _. IsQuiet-IsShut quiet);
      }

  pub terminalize_for_reset-AllEnded :
      (kind : ResetKind) (s : Runtime api)
      → AllUnended s.subscribers
      → AllEnded (terminalize_for_reset clock kind s).subscribers
        × ((terminalize_for_reset clock kind s).ingress ≡ s.ingress)
        × ((terminalize_for_reset clock kind s).projection ≡ s.projection)
  unfolding terminalize_for_reset terminalize_active_subscribers sample_publication_time
      sweep_closed_subscribers
  terminalize_for_reset-AllEnded planned_reset s u =
      (terminalize_active-AllEnded _ _ _ s u, refl, refl)
  terminalize_for_reset-AllEnded recovery_reset s u =
      (terminalize_active-AllEnded _ _ _ s u, refl, refl)
