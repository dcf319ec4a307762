-- ===== src/Publication/EventSource/Sessions/Guarantees.antt =====
-- What an event source promises over its whole life: src/g9/event_publication.cpp.
use binance_market_data_gate.Base.{
  ℕ, ◌≤◌, ◌≡◌, ◌≢◌, refl, sym, ap, Bool, true, false, Option, none, some, List, [], ◌∷◌, All,
  All-map, drop, if_cases, ◌==◌, ◌||◌, not, ◌∙◌, arith,
}
use binance_market_data_gate.Base.Decimal.{to_string-injective}
use binance_market_data_gate.Publication.Shared.{Shared, PublicationTime}
use binance_market_data_gate.Publication.EventChannel.Types.{Stream, EventSubscriberChannel}
use binance_market_data_gate.Publication.EventChannel.Calls.{
  event_subscriber_channel, stage_accepted,
}
use binance_market_data_gate.Publication.EventSource.Types.{
  EventPublication, EventPublicationLimits, ValidatedEventSubscription, accepted_subscription,
}
use binance_market_data_gate.Publication.EventSource.Calls.{
  event_id, is_open, is_quiesced, is_permanently_closed, is_later, is_shutdown, open_generation,
  quiesce_generation, close_generation_replaced, close_generation_permanently, admit, admit_at,
  admit_channel, admit_staged, event_publication,
}
use binance_market_data_gate.Publication.EventSource.Publish.{
  publish, publish_at, remove, shutdown_publication,
}
use binance_market_data_gate.Publication.EventSource.Sessions.{
  SourceCall, opens, quiesces, closes_permanently, closes_replaced, admits, publishes, removes,
  shuts_down, handles, source_call, source_calls,
}
use binance_market_data_gate.Publication.EventSource.Sessions.Invariant.{IsSource}
use binance_market_data_gate.Publication.EventSource.Sessions.History.{source_calls-IsSource_from}

module _ {Event : Type 0} (event_stream : Event → Stream) where
  pub new-IsSource :
      (id : List ℕ) (clocked : Bool) (limits : EventPublicationLimits) (s : EventPublication Event)
      → event_publication id clocked limits ≡ some s
      → IsSource s
  unfolding event_publication
  new-IsSource id clocked limits s e = ground arith

  -- From the constructor on, after any calls in any order, the subscriptions are within the limit, the
  -- counter has not wrapped, every active session is of the generation being served, has no terminal
  -- yet, and its name is one that was given out.
  pub source_calls-IsSource :
      (id : List ℕ) (clocked : Bool) (limits : EventPublicationLimits) (s : EventPublication Event)
      → event_publication id clocked limits ≡ some s
      → (os : List (SourceCall Event)) → IsSource (source_calls event_stream os s)
  source_calls-IsSource id clocked limits s e os =
      source_calls-IsSource_from event_stream os s (new-IsSource id clocked limits s e)

  -- The generation is at least one that was opened.
  abbrev Reached : ℕ → Option ℕ → Type 0
  Reached g generation = (h : ℕ) × (generation ≡ some h) × (g ≤ h)

  keeps-Reached : (g : ℕ) (o o' : Option ℕ) → o' ≡ o → Reached g o → Reached g o'
  keeps-Reached g o o' same (h, e, l) = (h, same ∙ e, l)

  open_generation-Reached :
      (g k : ℕ) (s : EventPublication Event)
      → Reached g s.source_generation
      → Reached g (open_generation k s).1.source_generation
  unfolding open_generation
  open_generation-Reached g k s (h, e, l) =
      if_cases (λ (r : Bool × EventPublication Event). Reached g r.1.source_generation)
        (k == 0
          || is_shutdown s.source_state
          || is_permanently_closed s.source_state
          || is_open s.source_state
          || is_quiesced s.source_state
          || not (is_later k s.source_generation))
        (λ _. (h, e, l)) (λ t. (k, refl, ground (arith, t, e, l)))

  close_generation_replaced-generation :
      (sampled : Option PublicationTime) (k : ℕ) (s : EventPublication Event)
      → (close_generation_replaced sampled k s).1.source_generation ≡ s.source_generation
  unfolding close_generation_replaced
  close_generation_replaced-generation none k s = refl
  close_generation_replaced-generation (some at) k s = ground arith

  admit-generation :
      (channel_address record_address : Option ℕ) (sampled : Option PublicationTime)
      (subscription : ValidatedEventSubscription) (s : EventPublication Event)
      → (admit channel_address record_address sampled subscription s).1.source_generation
        ≡ s.source_generation
  unfolding admit admit_at admit_channel admit_staged
  admit-generation ca ra none subscription s = refl
  admit-generation none ra (some at) subscription s = ground arith
  admit-generation (some address) ra (some at) subscription s = ground arith

  publish-generation :
      (allocated : ℕ → Option ℕ) (event : Option Event) (k : ℕ) (sampled : Option PublicationTime)
      (s : EventPublication Event)
      → (publish event_stream allocated event k sampled s).1.source_generation ≡ s.source_generation
  unfolding publish publish_at
  publish-generation allocated none k sampled s = refl
  publish-generation allocated (some event) k none s = refl
  publish-generation allocated (some event) k (some at) s = ground arith

  source_call-Reached :
      (g : ℕ) (o : SourceCall Event) (s : EventPublication Event)
      → Reached g s.source_generation
      → Reached g (source_call event_stream o s).source_generation
  unfolding source_call quiesce_generation close_generation_permanently remove shutdown_publication
  source_call-Reached g (opens k) s r = open_generation-Reached g k s r
  source_call-Reached g (quiesces k) s r = keeps-Reached g _ _ (ground arith) r
  source_call-Reached g (closes_permanently k) s r = keeps-Reached g _ _ (ground arith) r
  source_call-Reached g (closes_replaced sampled k) s r =
      keeps-Reached g _ _ (close_generation_replaced-generation sampled k s) r
  source_call-Reached g (admits ca ra sampled subscription) s r =
      keeps-Reached g _ _ (admit-generation ca ra sampled subscription s) r
  source_call-Reached g (publishes allocated event k sampled) s r =
      keeps-Reached g _ _ (publish-generation allocated event k sampled s) r
  source_call-Reached g (removes none) s r = r
  source_call-Reached g (removes (some address)) s r = r
  source_call-Reached g shuts_down s r = keeps-Reached g _ _ (ground arith) r
  source_call-Reached g (handles address h) s r = r

  source_calls-Reached :
      (g : ℕ) (os : List (SourceCall Event)) (s : EventPublication Event)
      → Reached g s.source_generation
      → Reached g (source_calls event_stream os s).source_generation
  unfolding source_calls
  source_calls-Reached g [] s r = r
  source_calls-Reached g (o ∷ os) s r =
      source_calls-Reached g os (source_call event_stream o s) (source_call-Reached g o s r)

  refused :
      (k h : ℕ) (s : EventPublication Event)
      → s.source_generation ≡ some h
      → k ≤ h
      → (open_generation k s).0 ≡ false
  unfolding open_generation
  refused k h s e l = ground (arith, e, l)

  opened-generation :
      (g : ℕ) (s : EventPublication Event)
      → (open_generation g s).0 ≡ true
      → (open_generation g s).1.source_generation ≡ some g
  unfolding open_generation
  opened-generation g s ok = ground (arith, ok)

  -- If a generation is opened, then after any calls in any order `open_generation` refuses that
  -- generation and every earlier one.
  pub open_generation-once :
      (g : ℕ) (s : EventPublication Event)
      → (open_generation g s).0 ≡ true
      → (os : List (SourceCall Event)) (k : ℕ) → k ≤ g
      → (open_generation k (source_calls event_stream os (open_generation g s).1)).0 ≡ false
  open_generation-once g s ok os k l =
      let (h, e, r) =
        source_calls-Reached g os (open_generation g s).1
          (g, opened-generation g s ok, omega arith) in
      refused k h (source_calls event_stream os (open_generation g s).1) e (omega (arith, l, r))

event_id-injective : (k n : ℕ) → event_id k ≡ event_id n → k ≡ n
event_id-injective k n e = to_string-injective k n (ap (λ l. drop 3 l) e)

module _ {Event : Type 0} where
  admit-names :
      (channel_address record_address : Option ℕ) (sampled : Option PublicationTime)
      (subscription : ValidatedEventSubscription) (s : EventPublication Event)
      (ch : Shared (EventSubscriberChannel Event))
      → (admit channel_address record_address sampled subscription s).0 ≡ accepted_subscription ch
      → ch.target.subscription_id ≡ event_id s.next_subscription_id
  unfolding admit admit_at admit_channel admit_staged event_subscriber_channel stage_accepted
  admit-names ca ra none subscription s ch e = ground arith
  admit-names none ra (some at) subscription s ch e = ground arith
  admit-names (some address) ra (some at) subscription s ch e = ground arith

  -- On a source that keeps its invariant, a subscription that is admitted gets a name that no other
  -- subscription of the source has.
  pub admit-fresh :
      (channel_address record_address : Option ℕ) (sampled : Option PublicationTime)
      (subscription : ValidatedEventSubscription) (s : EventPublication Event)
      (ch : Shared (EventSubscriberChannel Event))
      → IsSource s
      → (admit channel_address record_address sampled subscription s).0 ≡ accepted_subscription ch
      → All (λ other. other.target.subscription_id ≢ ch.target.subscription_id) s.channels
  admit-fresh ca ra sampled subscription s ch v e =
      let new = admit-names ca ra sampled subscription s ch e in
      All-map _ _ s.channels
        (λ other (k, h, named) same.
          let equal = event_id-injective k s.next_subscription_id (sym named ∙ same ∙ new) in
          omega (arith, h, equal))
        v.named
