-- ===== src/Runtime/Handling/Resets.antt =====
-- The owner's answer to a request for a reset: `perform_reset_request` of src/g3/market_runtime.cpp.
use binance_market_data_gate.Base.{
  Bool, Bool-cases, Option, [], ap, arith, false, if_cases, if◌then◌else◌, inl, inr, length, none,
  not, refl, some, subst, sym, true, ℕ, ◌∙◌, ◌≡◌, ◌≤◌, ◌⊎◌,
}
use binance_market_data_gate.Runtime.Answers.{
  answer_reset_request, clear_projection, cleared, failed_reset, is_valid_reset, read_projection,
  reopened, reset_projection, terminalize_for_reset,
}
use binance_market_data_gate.Runtime.Faults.{refreshed}
use binance_market_data_gate.Runtime.Handling.{
  AllEnded, AllUnended, Handled, Handled-refl, Handled-trans, frame, same-Handled,
}
use binance_market_data_gate.Runtime.Handling.Faulting.{
  terminalize_active-Handled, terminalize_for_reset-AllEnded,
}
use binance_market_data_gate.Runtime.Observed.{ClockSample, buffering, faulted}
use binance_market_data_gate.Runtime.Projection.{
  ProjectionApi, Reading, last_gap_throws, last_update_id_throws, reads_all, status_throws,
}
use binance_market_data_gate.Runtime.Types.{
  RebootstrapResetResult, ResetKind, ResetRequest, Runtime, internal_fault, planned_reset,
  recovery_reset, reset_internal_error, reset_invalid_state, was_reset,
}

module _ {api : ProjectionApi} where
  -- A reset of the projection, and the reading of it then, throw nothing.
  abbrev pub Resets : Runtime api → Type 0
  Resets s =
      ((api.reset s.projection).0 ≡ false) × (api.reading (api.reset s.projection).1 ≡ reads_all)

  -- A runtime `t` that was reset from `s`.
  abbrev pub Reopened : Runtime api → Runtime api → Type 0
  Reopened s t =
      (t.observation.state ≡ buffering)
      × (t.accepting ≡ true)
      × (t.observation.fault_reason ≡ none)
      × (t.current_projection_generation ≡ none)
      × (t.bootstrap ≡ [])
      × (t.projection ≡ (api.reset s.projection).1)

  -- A runtime that a failed reset leaves.
  abbrev pub Failed : Runtime api → Type 0
  Failed t =
      (t.observation.state ≡ faulted)
      × (t.observation.fault_reason ≡ some internal_fault)
      × (t.accepting ≡ false)

  abbrev pub Answers : ResetRequest api → RebootstrapResetResult → Runtime api → Type 0
  Answers request result t = t.reset_request ≡ some (record request { result = some result })

  -- The owner's answer to a request for a reset, from the state `s` to the state `t`.
  abbrev pub ResetEffect : ResetRequest api → Runtime api → Runtime api → Type 0
  ResetEffect request s t =
      ((is_valid_reset request.kind s.observation ≡ false)
        × (t ≡ record s {
          reset_request = some (record request { result = some reset_invalid_state });
        }))
      ⊎ ((is_valid_reset request.kind s.observation ≡ true)
          × AllEnded t.subscribers
          × (t.ingress ≡ s.ingress)
          × ((Resets s × Answers request was_reset t × Reopened s t)
              ⊎ (¬ (Resets s) × Answers request reset_internal_error t × Failed t)))

module _ {api : ProjectionApi} (clock : ℕ → Option ClockSample) where
  -- The end of the `try` block and its `catch`, with the result.
  abbrev guarded : Bool × Runtime api → RebootstrapResetResult × Runtime api
  guarded (thrown, t) = if thrown then (reset_internal_error, failed_reset t) else (was_reset, t)

  -- What the `catch` leaves, whichever part of the `try` block was done.
  caught-Handled :
      (s t : Runtime api)
      → AllEnded s.subscribers
      → frame t ≡ frame s
      → (t.ingress ≡ s.ingress) × (t.processed_ticket ≡ s.processed_ticket)
      → length t.bootstrap ≤ length s.bootstrap
      → t.subscribers ≡ s.subscribers
      → Handled s (failed_reset t)
  unfolding failed_reset
  caught-Handled s t ended same kept fewer sessions = record {
    same = same;
    tickets = inl kept;
    buffered = fewer;
    resident = let count = ap length sessions in omega (arith, count);
    settled = λ (u, _). (
      subst AllUnended (sym sessions) u,
      λ _. record {
        gate = refl;
        mailbox = λ o. ground (arith, o);
        buffer = λ o. ground (arith, o);
        sessions = subst AllEnded (sym sessions) ended;
      },
    );
  }

  reopened-Handled :
      (r : Reading) (s t : Runtime api)
      → AllEnded s.subscribers
      → frame t ≡ frame s
      → (t.ingress ≡ s.ingress) × (t.processed_ticket ≡ s.processed_ticket)
      → t.bootstrap ≡ []
      → t.subscribers ≡ s.subscribers
      → Handled s (guarded (reopened r t)).1
  unfolding reopened read_projection refreshed
  reopened-Handled reads_all s t ended same kept empty sessions = record {
    same = same;
    tickets = inl kept;
    buffered = let none = ap length empty in omega (arith, none);
    resident = let count = ap length sessions in omega (arith, count);
    settled = λ (u, _). (subst AllUnended (sym sessions) u, λ e. ground (arith, e));
  }
  reopened-Handled status_throws s t ended same kept empty sessions =
      caught-Handled s _ ended same kept (let none = ap length empty in omega (arith, none))
        sessions
  reopened-Handled last_update_id_throws s t ended same kept empty sessions =
      caught-Handled s _ ended same kept (let none = ap length empty in omega (arith, none))
        sessions
  reopened-Handled last_gap_throws s t ended same kept empty sessions =
      caught-Handled s _ ended same kept (let none = ap length empty in omega (arith, none))
        sessions

  clear_projection-Handled :
      (s : Runtime api) → AllEnded s.subscribers → Handled s (guarded (clear_projection s)).1
  unfolding clear_projection cleared
  clear_projection-Handled s ended =
      let (thrown, p) = api.reset s.projection in
      if_cases (λ (r : Bool × Runtime api). Handled s (guarded r).1) thrown
        (λ _. caught-Handled s _ ended refl (refl, refl) (omega arith) refl)
        (λ _. reopened-Handled (api.reading p) s _ ended refl (refl, refl) refl refl)

  terminalize_for_reset-Handled :
      (kind : ResetKind) (s : Runtime api) → Handled s (terminalize_for_reset clock kind s)
  unfolding terminalize_for_reset
  terminalize_for_reset-Handled planned_reset s = terminalize_active-Handled clock _ _ _ s
  terminalize_for_reset-Handled recovery_reset s = terminalize_active-Handled clock _ _ _ s

  reset_projection-Handled :
      (kind : ResetKind) (s : Runtime api)
      → AllUnended s.subscribers
      → Handled s (reset_projection clock kind s).1
  unfolding reset_projection
  reset_projection-Handled kind s u =
      let t = terminalize_for_reset clock kind s in
      let ended = (terminalize_for_reset-AllEnded clock kind s u).0 in
      let h = clear_projection-Handled t ended in
      let (thrown, r) = clear_projection t in
      Handled-trans (terminalize_for_reset-Handled kind s)
        (elim (Bool-cases thrown) [ inl e ↦ rw e (rw e at h) | inr e ↦ rw e (rw e at h) ])

  pub answer_reset_request-Handled :
      (o : Option (ResetRequest api)) (s : Runtime api)
      → AllUnended s.subscribers
      → Handled s (answer_reset_request clock o s)
  unfolding answer_reset_request
  answer_reset_request-Handled none s u = Handled-refl s
  answer_reset_request-Handled (some request) s u =
      if_cases (λ (r : Runtime api). Handled s r) (not (is_valid_reset request.kind s.observation))
        (λ _. same-Handled s _ refl)
        (λ _. Handled-trans (reset_projection-Handled request.kind s u) (same-Handled _ _ refl))

  -- The result and the state of a reset, from a runtime whose sessions have ended.
  abbrev ResetOutcome : Runtime api → RebootstrapResetResult × Runtime api → Type 0
  ResetOutcome s (result, t) =
      (t.subscribers ≡ s.subscribers)
      × (t.ingress ≡ s.ingress)
      × ((Resets s × (result ≡ was_reset) × Reopened s t)
          ⊎ (¬ (Resets s) × (result ≡ reset_internal_error) × Failed t))

  reopened-ResetOutcome :
      (r : Reading) (s : Runtime api)
      → (api.reset s.projection).0 ≡ false
      → api.reading (api.reset s.projection).1 ≡ r
      → ResetOutcome s
          (guarded (reopened r (cleared (record s { projection = (api.reset s.projection).1 }))))
  unfolding reopened read_projection refreshed cleared failed_reset
  reopened-ResetOutcome reads_all s n e =
      (refl, refl, inl ((n, e), refl, (refl, refl, refl, refl, refl, refl)))
  reopened-ResetOutcome status_throws s n e =
      (refl, refl, inr (λ (_, h). ground (arith, e, h), refl, (refl, refl, refl)))
  reopened-ResetOutcome last_update_id_throws s n e =
      (refl, refl, inr (λ (_, h). ground (arith, e, h), refl, (refl, refl, refl)))
  reopened-ResetOutcome last_gap_throws s n e =
      (refl, refl, inr (λ (_, h). ground (arith, e, h), refl, (refl, refl, refl)))

  clear_projection-ResetOutcome : (s : Runtime api) → ResetOutcome s (guarded (clear_projection s))
  unfolding clear_projection failed_reset
  clear_projection-ResetOutcome s =
      let (thrown, p) = api.reset s.projection in
      if_cases (λ (r : Bool × Runtime api). ResetOutcome s (guarded r)) thrown
        (λ e. (refl, refl, inr (λ (n, _). ground (arith, e, n), refl, (refl, refl, refl))))
        (λ e. reopened-ResetOutcome (api.reading p) s e refl)

  outcome-ResetEffect :
      (request : ResetRequest api) (s t u : Runtime api) (result : RebootstrapResetResult)
      → is_valid_reset request.kind s.observation ≡ true
      → AllEnded t.subscribers
      → t.ingress ≡ s.ingress
      → t.projection ≡ s.projection
      → ResetOutcome t (result, u)
      → ResetEffect request s
          (record u { reset_request = some (record request { result = some result }) })
  outcome-ResetEffect request s t u result on ended kept same (sessions, items, inl done) =
      let (clean, answer, (a, b, c, d, e, moved)) = done in
      inr (
        on,
        subst AllEnded (sym sessions) ended,
        items ∙ kept,
        inl (
          rw same at clean,
          ap (λ r. some (record request { result = some r })) answer,
          (a, b, c, d, e, moved ∙ ap (λ p. (api.reset p).1) same),
        ),
      )
  outcome-ResetEffect request s t u result on ended kept same (sessions, items, inr done) =
      let (unclean, answer, effect) = done in
      inr (
        on,
        subst AllEnded (sym sessions) ended,
        items ∙ kept,
        inr (
          rw same at unclean,
          ap (λ r. some (record request { result = some r })) answer,
          effect,
        ),
      )

  pub answer_reset_request-effect :
      (request : ResetRequest api) (s : Runtime api)
      → AllUnended s.subscribers
      → ResetEffect request s (answer_reset_request clock (some request) s)
  unfolding answer_reset_request reset_projection
  answer_reset_request-effect request s u =
      let t = terminalize_for_reset clock request.kind s in
      let (ended, kept, same) = terminalize_for_reset-AllEnded clock request.kind s u in
      let (result, r) = guarded (clear_projection t) in
      if_cases (λ (w : Runtime api). ResetEffect request s w)
        (not (is_valid_reset request.kind s.observation)) (λ off. inl (ground (arith, off), refl))
        (λ on.
          outcome-ResetEffect request s t r result (ground (arith, on)) ended kept same
            (clear_projection-ResetOutcome t))
