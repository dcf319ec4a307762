-- ===== src/Runtime/Handling/Answering.antt =====
-- The owner's answers, as steps of the runtime: src/g3/market_runtime.cpp.
use binance_market_data_gate.Base.{
  ℕ, suc, ◌≤◌, ◌<◌, ◌-◌, ◌≡◌, refl, ◌∙◌, ap, inl, Bool, true, false, not, ◌==◌, leb, ltb, Option,
  none, some, List, [], ◌∷◌, length, arith, ◌||◌, if_cases, if◌then◌else◌, length-append,
  All-append,
}
use binance_market_data_gate.Base.Words.{u64_max}
use binance_market_data_gate.Publication.Shared.{Shared, PublicationTime}
use binance_market_data_gate.Publication.Channel.Types.{
  is_active, SubscriberChannel, PublicationRecord,
}
use binance_market_data_gate.Publication.Channel.Owner.{
  subscriber_channel, is_initial_pair, stage_initial,
}
use binance_market_data_gate.Publication.Ring.{ring_push}
use binance_market_data_gate.Publication.Channel.Writer.{clear_from_writer}
use binance_market_data_gate.Runtime.Observed.{RuntimeState, is_live, is_faulted, ClockSample}
use binance_market_data_gate.Runtime.Projection.{ProjectionApi, Outcome, good, bad, threw}
use binance_market_data_gate.Runtime.Types.{
  SubscriptionAdmissionError, AdmissionRequest, SubscriptionAdmissionResult, admission_error,
  Channel, Runtime,
}
use binance_market_data_gate.Runtime.Faults.{sweep_closed_subscribers, sample_publication_time}
use binance_market_data_gate.Runtime.Admission.{
  complete_admission, admission_gate, commit_channel, commit_admission, admit_channel, admit_book,
  admit_sampled, admit_limited, admit_gated, perform_admission_request,
}
use binance_market_data_gate.Runtime.Handling.{
  Frame, frame, Settled, Handled, same-Handled, Drained, Drained-trans,
}
use binance_market_data_gate.Runtime.Handling.Faulting.{sweep-Handled, sample-Handled}

abbrev pub Unended : {Snapshot Update : Type 0} → SubscriberChannel Snapshot Update → Type 0
Unended c = is_active c.state ≡ true → c.terminal ≡ none

module _ {Snapshot Update : Type 0} where
  subscriber_channel-Unended :
      (id gateway : List ℕ) (capacity : ℕ) (c : SubscriberChannel Snapshot Update)
      → subscriber_channel id gateway capacity ≡ some c
      → Unended c
  unfolding subscriber_channel
  subscriber_channel-Unended id gateway capacity c e = ground (arith, e)

  stage_initial-Unended :
      (accepted book : Option (Shared (PublicationRecord Snapshot Update)))
      (c : SubscriberChannel Snapshot Update)
      → Unended c
      → Unended (stage_initial accepted book c).1
  unfolding stage_initial clear_from_writer
  stage_initial-Unended none book c h = h
  stage_initial-Unended (some accepted) none c h = h
  stage_initial-Unended (some accepted) (some book) c h =
      let (ok₁, r₁) = ring_push c.ordinary_capacity (some accepted) c.ordinary_ring in
      let (ok₂, r₂) = ring_push c.ordinary_capacity (some book) r₁ in
      if_cases (λ (r : Bool × SubscriberChannel Snapshot Update). Unended r.1)
        (not (is_initial_pair accepted.target book.target)) (λ _. h)
        (λ _.
          if_cases (λ (r : Bool × SubscriberChannel Snapshot Update). Unended r.1)
            (not (is_active c.state)
              || not (c.ordinary_ring.size == 0)
              || ltb c.ordinary_capacity 2)
            (λ _. h)
            (λ _.
              if_cases (λ (r : Bool × SubscriberChannel Snapshot Update). Unended r.1) ok₁
                (λ _.
                  if_cases (λ (r : Bool × SubscriberChannel Snapshot Update). Unended r.1) ok₂
                    (λ _. h) (λ _ _. refl))
                (λ _ _. refl)))

live-fine : (st : RuntimeState) → is_live st ≡ true → is_faulted st ≡ false
live-fine RuntimeState.live e = refl
live-fine st e = ground (arith, e)

module _ {api : ProjectionApi} where
  abbrev pub lessened : Frame api → Frame api
  lessened f = record f {
    pending_admission_count =
        if f.pending_admission_count == 0 then 0 else f.pending_admission_count - 1;
  }

  -- A step that answers one request for a subscription.
  pub record Answered (s t : Runtime api) : Type 0 where
    pub same : frame t ≡ lessened (frame s)
    pub tickets : Drained s t
    pub buffered : length t.bootstrap ≤ length s.bootstrap
    pub resident :
        length s.subscribers ≤ s.limits.publication.maximum_active_subscriptions
        → length t.subscribers ≤ s.limits.publication.maximum_active_subscriptions
    pub settled : Settled s → Settled t

  Handled-Answered : {s t u : Runtime api} → Handled s t → Answered t u → Answered s u
  Handled-Answered {s} {t} {u} h a = record {
    same = a.same ∙ ap lessened h.same;
    tickets = Drained-trans s t u h.tickets a.tickets;
    buffered = omega (arith, h.buffered, a.buffered);
    resident = λ b.
        let cap = ap (λ v. v.limits.publication.maximum_active_subscriptions) h.same in
        let k = a.resident (omega (arith, b, h.resident, cap)) in omega (arith, k, cap);
    settled = λ q. a.settled (h.settled q);
  }

  complete_admission-Answered :
      (request : AdmissionRequest) (result : SubscriptionAdmissionResult api) (s : Runtime api)
      → Answered s (complete_admission request result s)
  unfolding complete_admission
  complete_admission-Answered request result s = record {
    same = refl;
    tickets = inl (refl, refl);
    buffered = omega arith;
    resident = λ b. b;
    settled = λ (u, q). (
      u,
      λ e.
          let k = q e in
          record { gate = k.gate; mailbox = k.mailbox; buffer = k.buffer; sessions = k.sessions },
    );
  }

  -- What passes the checks is not faulted.
  admission_gate-fine :
      (s : Runtime api) → admission_gate s ≡ none → is_faulted s.observation.state ≡ false
  unfolding admission_gate
  admission_gate-fine s e = live-fine s.observation.state (ground (arith, e))

  module _ (request : AdmissionRequest) where
    commit_channel-Answered :
        (gate : Option SubscriptionAdmissionError) (ch : Shared (Channel api)) (s : Runtime api)
        → (gate ≡ none → is_faulted s.observation.state ≡ false)
        → Unended ch.target
        → length s.subscribers < s.limits.publication.maximum_active_subscriptions
        → Answered s (commit_channel gate request ch s)
    unfolding commit_channel complete_admission
    commit_channel-Answered (some error) ch s f h b =
        complete_admission-Answered request (admission_error error) s
    commit_channel-Answered none ch s f h b = record {
      same = refl;
      tickets = inl (refl, refl);
      buffered = omega arith;
      resident =
          λ _. let longer = length-append s.subscribers (ch ∷ []) in omega (arith, longer, b);
      settled = λ (u, q). (
        All-append (λ ch. Unended ch.target) s.subscribers (ch ∷ []) u (h, tt),
        λ e. let fine = f refl in ground (arith, e, fine),
      );
    }

    commit_admission-Answered :
        (address : ℕ) (staged : Bool) (channel : Channel api) (s : Runtime api)
        → Unended channel
        → length s.subscribers < s.limits.publication.maximum_active_subscriptions
        → Answered s (commit_admission address request (staged, channel) s)
    unfolding commit_admission
    commit_admission-Answered address staged channel s h b =
        if_cases (λ r. Answered s r) (not staged) (λ _. complete_admission-Answered request _ s)
          (λ _. commit_channel-Answered (admission_gate s) _ s (admission_gate-fine s) h b)

    admit_channel-Answered :
        (address : Option ℕ) (channel : Option (Channel api))
        (accepted book : Option
          (Shared (PublicationRecord api.BookSnapshot (Shared api.DepthUpdate))))
        (s : Runtime api)
        → ((c : Channel api) → channel ≡ some c → Unended c)
        → length s.subscribers < s.limits.publication.maximum_active_subscriptions
        → Answered s (admit_channel address channel accepted book request s)
    unfolding admit_channel
    admit_channel-Answered none channel accepted book s h b =
        complete_admission-Answered request _ s
    admit_channel-Answered (some address) none accepted book s h b =
        complete_admission-Answered request _ s
    admit_channel-Answered (some address) (some channel) none book s h b =
        complete_admission-Answered request _ s
    admit_channel-Answered (some address) (some channel) (some accepted) none s h b =
        complete_admission-Answered request _ s
    admit_channel-Answered (some address) (some channel) (some accepted) (some book) s h b =
        let (staged, c) = stage_initial (some accepted) (some book) channel in
        commit_admission-Answered address staged c s
          (stage_initial-Unended (some accepted) (some book) channel (h channel refl)) b

    module _ (allocator : ℕ → Option ℕ) where
      admit_book-Answered :
          (at : PublicationTime) (outcome : Outcome api.AdapterError api.BookSnapshot)
          (s : Runtime api)
          → length s.subscribers < s.limits.publication.maximum_active_subscriptions
          → Answered s (admit_book allocator request at outcome s)
      unfolding admit_book
      admit_book-Answered at threw s b = complete_admission-Answered request _ s
      admit_book-Answered at (bad error) s b = complete_admission-Answered request _ s
      admit_book-Answered at (good book) s b =
          let t : Runtime api = record s { allocations = suc (suc (suc s.allocations)) } in
          Handled-Answered (same-Handled s t refl)
            (admit_channel-Answered _ _ _ _ t (subscriber_channel-Unended _ _ _) b)

      admit_sampled-Answered :
          (depth : Option api.DepthLimit) (at : Option PublicationTime) (s : Runtime api)
          → length s.subscribers < s.limits.publication.maximum_active_subscriptions
          → Answered s (admit_sampled allocator request depth at s)
      unfolding admit_sampled
      admit_sampled-Answered depth none s b = complete_admission-Answered request _ s
      admit_sampled-Answered depth (some at) s b =
          if_cases (λ r. Answered s r) (s.next_subscription_id == u64_max)
            (λ _. complete_admission-Answered request _ s) (λ _. admit_book-Answered at _ s b)

      module _ (clock : ℕ → Option ClockSample) where
        admit_limited-Answered :
            (depth : Option (Option api.DepthLimit)) (s : Runtime api)
            → length s.subscribers < s.limits.publication.maximum_active_subscriptions
            → Answered s (admit_limited clock allocator request depth s)
        unfolding admit_limited sample_publication_time
        admit_limited-Answered none s b = complete_admission-Answered request _ s
        admit_limited-Answered (some depth) s b =
            Handled-Answered (sample-Handled clock s) (admit_sampled-Answered depth _ _ b)

        admit_gated-Answered :
            (gate : Option SubscriptionAdmissionError) (s : Runtime api)
            → Answered s (admit_gated clock allocator gate request s)
        unfolding admit_gated
        admit_gated-Answered (some error) s = complete_admission-Answered request _ s
        admit_gated-Answered none s =
            if_cases (λ r. Answered s r)
              (leb s.limits.publication.maximum_active_subscriptions (length s.subscribers))
              (λ _. complete_admission-Answered request _ s)
              (λ e. admit_limited-Answered _ s (ground (arith, e)))

        pub perform_admission-Answered :
            (s : Runtime api) → Answered s (perform_admission_request clock allocator request s)
        unfolding perform_admission_request
        perform_admission-Answered s =
            Handled-Answered (sweep-Handled s) (admit_gated-Answered _ (sweep_closed_subscribers s))
