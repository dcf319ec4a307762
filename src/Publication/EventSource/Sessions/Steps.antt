-- ===== src/Publication/EventSource/Sessions/Steps.antt =====
-- The invariant of an event source under the calls on generations: src/g9/event_publication.cpp.
use binance_market_data_gate.Base.{
  ℕ, ◌≡◌, refl, subst, inl, inr, Bool, true, false, not, ◌||◌, Option, none, some, List, [], ◌∷◌,
  All, All-map, Bool-cases, if_cases, ◌==◌, optional_eq, optional_eq→eq, if◌then◌else◌, arith,
}
use binance_market_data_gate.Publication.Shared.{Shared, PublicationTime}
use binance_market_data_gate.Publication.EventChannel.Types.{is_active, EventSubscriberChannel}
use binance_market_data_gate.Publication.EventChannel.Laws.{
  Follows, Follows-refl, terminalize_replacement-Follows, close_unavailable-Follows,
  terminalize_replacement-inactive, close_unavailable-inactive,
}
use binance_market_data_gate.Publication.EventSource.Types.{
  EventSourceState, source_closed, opened, permanently_closed, EventPublication,
}
use binance_market_data_gate.Publication.EventSource.Calls.{
  is_open, is_quiesced, is_shutdown, is_permanently_closed, is_later, open_generation,
  quiesce_generation, terminalize_replaced, close_generation_replaced, close_all_unavailable,
  close_generation_permanently,
}
use binance_market_data_gate.Publication.EventSource.Sessions.Invariant.{
  is_live, IsSession, IsSource, AllFollow, AllFollow-refl, AllFollow-length, AllFollow-All,
  Follows-IsNamed,
}

module _ {Event : Type 0} where
  -- A property of the state that a call leaves, and of a channel that a loop leaves, by its test.
  pub result_cases :
      {R : Type 0} (test : Bool) (r r' : R × EventPublication Event)
      → (test ≡ true → IsSource r.1)
      → (test ≡ false → IsSource r'.1)
      → IsSource (if test then r else r').1
  result_cases test r r' f g = if_cases (λ (r : _ × EventPublication Event). IsSource r.1) test f g

  pub channel_cases :
      (P : EventSubscriberChannel Event → Type 0) (test : Bool)
      (ch ch' : Shared (EventSubscriberChannel Event))
      → (test ≡ true → P ch.target)
      → (test ≡ false → P ch'.target)
      → P (if test then ch else ch').target
  channel_cases P test ch ch' f g =
      if_cases (λ (ch : Shared (EventSubscriberChannel Event)). P ch.target) test f g

  -- With no active channel every state and generation will do.
  abbrev pub IsQuiet : List (Shared (EventSubscriberChannel Event)) → Type 0
  IsQuiet = All (λ ch. is_active ch.target.state ≡ false)

  quiet-sessions :
      (state : EventSourceState) (generation : Option ℕ)
      (chs : List (Shared (EventSubscriberChannel Event)))
      → IsQuiet chs
      → All (λ ch. IsSession state generation ch.target) chs
  quiet-sessions state generation [] q = tt
  quiet-sessions state generation (ch ∷ chs) q =
      ((λ h. ground (arith, q.0)), quiet-sessions state generation chs q.1)

  pub dead-IsQuiet :
      (state : EventSourceState) (generation : Option ℕ)
      (chs : List (Shared (EventSubscriberChannel Event)))
      → is_live state ≡ false
      → All (λ ch. IsSession state generation ch.target) chs
      → IsQuiet chs
  dead-IsQuiet state generation [] d a = tt
  dead-IsQuiet state generation (ch ∷ chs) d a =
      (ground (arith, a.0), dead-IsQuiet state generation chs d a.1)

  -- A source whose channels are all quiet, and follow the old ones.
  pub quieted-IsSource :
      (s : EventPublication Event) (state : EventSourceState) (generation : Option ℕ)
      (chs : List (Shared (EventSubscriberChannel Event)))
      → AllFollow s.channels chs
      → IsQuiet chs
      → IsSource s
      → IsSource (record s { channels = chs; source_state = state; source_generation = generation })
  quieted-IsSource s state generation chs f q v = record {
    bounded = omega (arith, AllFollow-length s.channels chs f, v.bounded);
    numbered = v.numbered;
    sessions = quiet-sessions state generation chs q;
    named = AllFollow-All _ (Follows-IsNamed s.next_subscription_id) s.channels chs f v.named;
  }

  pub open_generation-IsSource :
      (g : ℕ) (s : EventPublication Event) → IsSource s → IsSource (open_generation g s).1
  unfolding open_generation
  open_generation-IsSource g s v =
      result_cases
        (g == 0
          || is_shutdown s.source_state
          || is_permanently_closed s.source_state
          || is_open s.source_state
          || is_quiesced s.source_state
          || not (is_later g s.source_generation))
        _ _ (λ _. v)
        λ e.
          let dead : is_live s.source_state ≡ false = ground arith in
          quieted-IsSource s opened (some g) s.channels (AllFollow-refl s.channels)
            (dead-IsQuiet s.source_state s.source_generation s.channels dead v.sessions) v

  pub quiesce_generation-IsSource :
      (g : ℕ) (s : EventPublication Event) → IsSource s → IsSource (quiesce_generation g s).1
  unfolding quiesce_generation
  quiesce_generation-IsSource g s v =
      result_cases (not (is_open s.source_state) || not (optional_eq s.source_generation (some g)))
        _ _ (λ _. v)
        λ e. record {
          bounded = v.bounded;
          numbered = v.numbered;
          sessions = All-map _ _ s.channels (λ ch f h. ((f h).0, (f h).1, refl)) v.sessions;
          named = v.named;
        }

  terminalize_replaced-AllFollow :
      (g : ℕ) (at : PublicationTime) (chs : List (Shared (EventSubscriberChannel Event)))
      → AllFollow chs (terminalize_replaced g at chs)
  unfolding terminalize_replaced
  terminalize_replaced-AllFollow g at [] = tt
  terminalize_replaced-AllFollow g at (ch ∷ chs) = (
    channel_cases (Follows ch.target) (ch.target.source_generation == g) _ _
        (λ _. terminalize_replacement-Follows at ch.target) (λ _. Follows-refl ch.target),
    terminalize_replaced-AllFollow g at chs,
  )

  close_all_unavailable-AllFollow :
      (g : ℕ) (chs : List (Shared (EventSubscriberChannel Event)))
      → AllFollow chs (close_all_unavailable g chs)
  unfolding close_all_unavailable
  close_all_unavailable-AllFollow g [] = tt
  close_all_unavailable-AllFollow g (ch ∷ chs) = (
    channel_cases (Follows ch.target) (ch.target.source_generation == g) _ _
        (λ _. close_unavailable-Follows ch.target) (λ _. Follows-refl ch.target),
    close_all_unavailable-AllFollow g chs,
  )

  -- A session of another generation is not active.
  other-quiet :
      (state : EventSourceState) (g : ℕ) (c : EventSubscriberChannel Event)
      → IsSession state (some g) c
      → (c.source_generation == g) ≡ false
      → is_active c.state ≡ false
  other-quiet state g c f e = elim (Bool-cases (is_active c.state)) [
    | inl h ↦ ground (arith, (f h).1)
    | inr h ↦ h
  ]

  terminalize_replaced-IsQuiet :
      (state : EventSourceState) (g : ℕ) (at : PublicationTime)
      (chs : List (Shared (EventSubscriberChannel Event)))
      → All (λ ch. IsSession state (some g) ch.target) chs
      → IsQuiet (terminalize_replaced g at chs)
  unfolding terminalize_replaced
  terminalize_replaced-IsQuiet state g at [] a = tt
  terminalize_replaced-IsQuiet state g at (ch ∷ chs) a = (
    channel_cases (λ c. is_active c.state ≡ false) (ch.target.source_generation == g) _ _
        (λ _. terminalize_replacement-inactive at ch.target (λ h. (a.0 h).0))
        (λ e. other-quiet state g ch.target a.0 e),
    terminalize_replaced-IsQuiet state g at chs a.1,
  )

  close_all_unavailable-IsQuiet :
      (state : EventSourceState) (g : ℕ) (chs : List (Shared (EventSubscriberChannel Event)))
      → All (λ ch. IsSession state (some g) ch.target) chs
      → IsQuiet (close_all_unavailable g chs)
  unfolding close_all_unavailable
  close_all_unavailable-IsQuiet state g [] a = tt
  close_all_unavailable-IsQuiet state g (ch ∷ chs) a = (
    channel_cases (λ c. is_active c.state ≡ false) (ch.target.source_generation == g) _ _
        (λ _. close_unavailable-inactive ch.target) (λ e. other-quiet state g ch.target a.0 e),
    close_all_unavailable-IsQuiet state g chs a.1,
  )

  pub close_generation_replaced-IsSource :
      (sampled : Option PublicationTime) (g : ℕ) (s : EventPublication Event)
      → IsSource s
      → IsSource (close_generation_replaced sampled g s).1
  unfolding close_generation_replaced
  close_generation_replaced-IsSource none g s v = v
  close_generation_replaced-IsSource (some at) g s v =
      result_cases
        (not (is_quiesced s.source_state) || not (optional_eq s.source_generation (some g))) _ _
        (λ _. v)
        λ e.
          let same : s.source_generation ≡ some g =
            optional_eq→eq s.source_generation (some g) (ground arith) in
          quieted-IsSource s source_closed s.source_generation
            (terminalize_replaced g at s.channels) (terminalize_replaced-AllFollow g at s.channels)
            (terminalize_replaced-IsQuiet s.source_state g at s.channels (
              subst (λ o. All (λ ch. IsSession s.source_state o ch.target) s.channels) same
                v.sessions))
            v

  pub close_generation_permanently-IsSource :
      (g : ℕ) (s : EventPublication Event)
      → IsSource s
      → IsSource (close_generation_permanently g s).1
  unfolding close_generation_permanently
  close_generation_permanently-IsSource g s v =
      result_cases
        (not (is_quiesced s.source_state) || not (optional_eq s.source_generation (some g))) _ _
        (λ _. v)
        λ e.
          let same : s.source_generation ≡ some g =
            optional_eq→eq s.source_generation (some g) (ground arith) in
          quieted-IsSource s permanently_closed s.source_generation
            (close_all_unavailable g s.channels) (close_all_unavailable-AllFollow g s.channels)
            (close_all_unavailable-IsQuiet s.source_state g s.channels (
              subst (λ o. All (λ ch. IsSession s.source_state o ch.target) s.channels) same
                v.sessions))
            v
