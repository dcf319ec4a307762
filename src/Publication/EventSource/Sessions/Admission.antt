-- ===== src/Publication/EventSource/Sessions/Admission.antt =====
-- Admission to an event source: `EventPublication::admit` of src/g9/event_publication.cpp.
use binance_market_data_gate.Base.{
  ℕ, ◌+◌, ◌<◌, ◌≡◌, refl, sym, ap, subst, ◌∙◌, Bool, true, false, not, Option, none, some, [], ◌∷◌,
  ◌++◌, length, length-append, All, All-append, All-map, ◌==◌, arith,
}
use binance_market_data_gate.Base.Words.{u64_max, add_u64}
use binance_market_data_gate.Publication.Shared.{PublicationTime}
use binance_market_data_gate.Publication.EventChannel.Types.{EventSubscriberChannel}
use binance_market_data_gate.Publication.EventChannel.Calls.{
  event_subscriber_channel, stage_accepted,
}
use binance_market_data_gate.Publication.EventChannel.Laws.{staged_channel}
use binance_market_data_gate.Publication.EventSource.Types.{
  EventSourceState, EventPublication, ValidatedEventSubscription,
}
use binance_market_data_gate.Publication.EventSource.Calls.{
  event_id, is_open, is_shutdown, admit, admit_at, admit_channel, admit_staged,
  make_accepted_record,
}
use binance_market_data_gate.Publication.EventSource.Sessions.Invariant.{is_live, IsNamed, IsSource}
use binance_market_data_gate.Publication.EventSource.Sessions.Steps.{result_cases}

open→live : (state : EventSourceState) → is_open state ≡ true → is_live state ≡ true
open→live state h = ground arith

module _ {Event : Type 0} where
  -- What the end of `admit` does, given how the new channel came to be.
  admit_staged-IsSource :
      (address : Option ℕ) (staged : Bool × EventSubscriberChannel Event)
      (s : EventPublication Event)
      → (staged.0 ≡ true
          → (staged.1.subscription_id ≡ event_id s.next_subscription_id)
            × (s.source_generation ≡ some staged.1.source_generation)
            × (staged.1.terminal ≡ none))
      → is_open s.source_state ≡ true
      → length s.channels < s.limits.maximum_active_subscriptions
      → s.next_subscription_id < u64_max
      → IsSource s
      → IsSource (admit_staged address staged s).1
  unfolding admit_staged
  admit_staged-IsSource none staged s made o m n v = v
  admit_staged-IsSource (some address) (false, c) s made o m n v = v
  admit_staged-IsSource (some address) (true, c) s made o m n v =
      let step : add_u64 s.next_subscription_id 1 ≡ s.next_subscription_id + 1 = omega (arith, n) in
      record {
        bounded =
            omega
              (arith, m, length-append s.channels (record { address = address; target = c } ∷ []));
        numbered = omega (arith, n, step);
        sessions =
            All-append _ s.channels _ v.sessions
              ((λ h. ((made refl).2, (made refl).1, open→live s.source_state o)), tt);
        named =
            subst
              (λ k.
                All (λ ch. IsNamed k ch.target)
                  (s.channels ++ (record { address = address; target = c } ∷ [])))
              (sym step)
              (All-append _ s.channels _
                (All-map _ _ s.channels (λ ch (k, h, e). (k, omega (arith, h), e)) v.named)
                ((s.next_subscription_id, omega arith, (made refl).0), tt));
      }

  admit_channel-IsSource :
      (channel_address record_address : Option ℕ) (subscription : ValidatedEventSubscription)
      (at : PublicationTime) (g : ℕ) (made : Option (EventSubscriberChannel Event))
      (s : EventPublication Event)
      → event_subscriber_channel
          (event_id s.next_subscription_id)
          s.gateway_instance_id
          subscription.stream
          g
          s.limits.ordinary_queue_capacity
        ≡ made
      → s.source_generation ≡ some g
      → is_open s.source_state ≡ true
      → length s.channels < s.limits.maximum_active_subscriptions
      → s.next_subscription_id < u64_max
      → IsSource s
      → IsSource (admit_channel channel_address record_address subscription at made s).1
  unfolding admit_channel
  admit_channel-IsSource ca ra subscription at g none s m same o room ids v = v
  admit_channel-IsSource ca ra subscription at g (some c) s m same o room ids v =
      let accepted =
        make_accepted_record ra subscription (event_id s.next_subscription_id) s.gateway_instance_id
          at in
      admit_staged-IsSource ca (stage_accepted accepted c) s
        (λ e.
          let (id, gen, stream, terminal) =
            staged_channel (event_id s.next_subscription_id) s.gateway_instance_id
              subscription.stream g s.limits.ordinary_queue_capacity accepted c _ m
              (ap (λ b. (b, (stage_accepted accepted c).1)) e) in
          (id, same ∙ ap some (sym gen), terminal))
        o room ids v

  admit_at-IsSource :
      (channel_address record_address : Option ℕ) (subscription : ValidatedEventSubscription)
      (at : PublicationTime) (generation : Option ℕ) (s : EventPublication Event)
      → s.source_generation ≡ generation
      → is_open s.source_state ≡ true
      → IsSource s
      → IsSource (admit_at channel_address record_address subscription at generation s).1
  unfolding admit_at
  admit_at-IsSource ca ra subscription at none s same o v = v
  admit_at-IsSource ca ra subscription at (some g) s same o v =
      result_cases (length s.channels == s.limits.maximum_active_subscriptions) _ _ (λ _. v)
        λ room.
          result_cases (s.next_subscription_id == u64_max) _ _ (λ _. v)
            λ ids.
              admit_channel-IsSource ca ra subscription at g _ s refl same o
                (ground (arith, room, v.bounded)) (ground (arith, ids, v.numbered)) v

  pub admit-IsSource :
      (channel_address record_address : Option ℕ) (sampled : Option PublicationTime)
      (subscription : ValidatedEventSubscription) (s : EventPublication Event)
      → IsSource s
      → IsSource (admit channel_address record_address sampled subscription s).1
  unfolding admit
  admit-IsSource ca ra none subscription s v = v
  admit-IsSource ca ra (some at) subscription s v =
      result_cases (is_shutdown s.source_state) _ _ (λ _. v)
        λ _.
          result_cases (not (is_open s.source_state)) _ _ (λ _. v)
            λ o.
              admit_at-IsSource ca ra subscription at s.source_generation s refl (ground (arith, o))
                v
