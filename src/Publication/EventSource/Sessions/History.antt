-- ===== src/Publication/EventSource/Sessions/History.antt =====
-- Histories of an event source, and the calls that publish, remove and shut down.
use binance_market_data_gate.Base.{
  ℕ, ◌≤◌, not, ◌||◌, ◌&&◌, Option, none, some, List, [], ◌∷◌, length, All, if_cases, ◌==◌,
  optional_eq, arith,
}
use binance_market_data_gate.Publication.Shared.{Shared, PublicationTime}
use binance_market_data_gate.Publication.EventChannel.Types.{Stream, EventSubscriberChannel}
use binance_market_data_gate.Publication.EventChannel.Calls.{admit_event, close_from_owner}
use binance_market_data_gate.Publication.EventChannel.Laws.{
  Follows, Follows-refl, admit_event-Follows, acknowledge-Follows, close_from_writer-Follows,
  close_from_owner-Follows,
}
use binance_market_data_gate.Publication.EventSource.Types.{
  shutdown, EventPublication, EventPublishResult,
}
use binance_market_data_gate.Publication.EventSource.Calls.{
  is_open, is_shutdown, is_later, is_source_closed,
}
use binance_market_data_gate.Publication.EventSource.Publish.{
  publish_each, publish_at, publish, remove_channel, remove, close_all, shutdown_publication,
  receives, is_allocation_failure,
}
use binance_market_data_gate.Publication.EventSource.Sessions.{
  HandlerCall, acknowledges, closes, SourceCall, opens, quiesces, closes_permanently,
  closes_replaced, admits, publishes, removes, shuts_down, handles, handler_call, on_channel,
  source_call, source_calls,
}
use binance_market_data_gate.Publication.EventSource.Sessions.Invariant.{
  IsSource, AllFollow, AllFollow-refl, followed-IsSource,
}
use binance_market_data_gate.Publication.EventSource.Sessions.Steps.{
  result_cases, channel_cases, IsQuiet, quieted-IsSource, open_generation-IsSource,
  quiesce_generation-IsSource, close_generation_replaced-IsSource,
  close_generation_permanently-IsSource,
}
use binance_market_data_gate.Publication.EventSource.Sessions.Admission.{admit-IsSource}

module _ {Event : Type 0} where
  publish_each-AllFollow :
      (event_stream : Event → Stream) (allocated : ℕ → Option ℕ) (event : Event) (g : ℕ)
      (at : PublicationTime) (chs : List (Shared (EventSubscriberChannel Event)))
      → AllFollow chs (publish_each event_stream allocated event g at chs).1
  unfolding publish_each
  publish_each-AllFollow event_stream allocated event g at [] = tt
  publish_each-AllFollow event_stream allocated event g at (ch ∷ chs) =
      let rest = publish_each-AllFollow event_stream allocated event g at chs in
      let f = admit_event-Follows event_stream (allocated ch.address) event at ch.target in
      if_cases
        (λ (r : EventPublishResult × List (Shared (EventSubscriberChannel Event))).
          AllFollow (ch ∷ chs) r.1)
        (not (receives event_stream event g ch.target)) (λ _. (Follows-refl ch.target, rest))
        λ _.
          if_cases
            (λ (r : EventPublishResult × List (Shared (EventSubscriberChannel Event))).
              AllFollow (ch ∷ chs) r.1)
            (is_allocation_failure
              (admit_event event_stream (allocated ch.address) (some event) at ch.target).0)
            (λ _. (f, AllFollow-refl chs)) (λ _. (f, rest))

  remove_channel-All :
      (P : EventSubscriberChannel Event → Type 0) (address : ℕ)
      (chs : List (Shared (EventSubscriberChannel Event)))
      → All (λ ch. P ch.target) chs
      → All (λ ch. P ch.target) (remove_channel address chs)
  unfolding remove_channel
  remove_channel-All P address [] a = tt
  remove_channel-All P address (ch ∷ chs) a =
      if_cases (λ (r : List (Shared (EventSubscriberChannel Event))). All (λ ch'. P ch'.target) r)
        (ch.address == address) (λ _. a.1) (λ _. (a.0, remove_channel-All P address chs a.1))

  remove_channel-length :
      (address : ℕ) (chs : List (Shared (EventSubscriberChannel Event)))
      → length (remove_channel address chs) ≤ length chs
  unfolding remove_channel
  remove_channel-length address [] = omega arith
  remove_channel-length address (ch ∷ chs) =
      let rest = remove_channel-length address chs in ground arith

  remove-IsSource :
      (address : Option ℕ) (s : EventPublication Event) → IsSource s → IsSource (remove address s)
  unfolding remove
  remove-IsSource none s v = v
  remove-IsSource (some address) s v = record {
    bounded = omega (arith, remove_channel-length address s.channels, v.bounded);
    numbered = v.numbered;
    sessions = remove_channel-All _ address s.channels v.sessions;
    named = remove_channel-All _ address s.channels v.named;
  }

  close_all-AllFollow :
      (chs : List (Shared (EventSubscriberChannel Event))) → AllFollow chs (close_all chs)
  unfolding close_all
  close_all-AllFollow [] = tt
  close_all-AllFollow (ch ∷ chs) = (close_from_owner-Follows ch.target, close_all-AllFollow chs)

  close_all-IsQuiet : (chs : List (Shared (EventSubscriberChannel Event))) → IsQuiet (close_all chs)
  unfolding close_all close_from_owner
  close_all-IsQuiet [] = tt
  close_all-IsQuiet (ch ∷ chs) = (ground arith, close_all-IsQuiet chs)

  pub shutdown_publication-IsSource :
      (s : EventPublication Event) → IsSource s → IsSource (shutdown_publication s)
  unfolding shutdown_publication
  shutdown_publication-IsSource s v =
      if_cases (λ (r : EventPublication Event). IsSource r) (is_shutdown s.source_state) (λ _. v)
        (λ _.
          quieted-IsSource s shutdown s.source_generation (close_all s.channels)
            (close_all-AllFollow s.channels) (close_all-IsQuiet s.channels) v)

  handler_call-Follows :
      (h : HandlerCall Event) (c : EventSubscriberChannel Event) → Follows c (handler_call h c)
  unfolding handler_call
  handler_call-Follows (acknowledges p) c = acknowledge-Follows p c
  handler_call-Follows closes c = close_from_writer-Follows c

  on_channel-AllFollow :
      (address : ℕ) (h : HandlerCall Event) (chs : List (Shared (EventSubscriberChannel Event)))
      → AllFollow chs (on_channel address h chs)
  unfolding on_channel
  on_channel-AllFollow address h [] = tt
  on_channel-AllFollow address h (ch ∷ chs) = (
    channel_cases (Follows ch.target) (ch.address == address) _ _
        (λ _. handler_call-Follows h ch.target) (λ _. Follows-refl ch.target),
    on_channel-AllFollow address h chs,
  )

module _ {Event : Type 0} (event_stream : Event → Stream) where
  publish-IsSource :
      (allocated : ℕ → Option ℕ) (event : Option Event) (g : ℕ) (sampled : Option PublicationTime)
      (s : EventPublication Event)
      → IsSource s
      → IsSource (publish event_stream allocated event g sampled s).1
  unfolding publish publish_at
  publish-IsSource allocated none g sampled s v = v
  publish-IsSource allocated (some event) g none s v = v
  publish-IsSource allocated (some event) g (some at) s v =
      result_cases
        (is_shutdown s.source_state
          || (is_source_closed s.source_state && is_later g s.source_generation))
        _ _ (λ _. v)
        λ _.
          result_cases
            (not (is_open s.source_state) || not (optional_eq s.source_generation (some g))) _ _
            (λ _. v)
            λ _.
              followed-IsSource s (publish_each event_stream allocated event g at s.channels).1
                (publish_each-AllFollow event_stream allocated event g at s.channels) v

  pub source_call-IsSource :
      (o : SourceCall Event) (s : EventPublication Event)
      → IsSource s
      → IsSource (source_call event_stream o s)
  unfolding source_call
  source_call-IsSource (opens g) s v = open_generation-IsSource g s v
  source_call-IsSource (quiesces g) s v = quiesce_generation-IsSource g s v
  source_call-IsSource (closes_permanently g) s v = close_generation_permanently-IsSource g s v
  source_call-IsSource (closes_replaced sampled g) s v =
      close_generation_replaced-IsSource sampled g s v
  source_call-IsSource (admits ca ra sampled subscription) s v =
      admit-IsSource ca ra sampled subscription s v
  source_call-IsSource (publishes allocated event g sampled) s v =
      publish-IsSource allocated event g sampled s v
  source_call-IsSource (removes address) s v = remove-IsSource address s v
  source_call-IsSource shuts_down s v = shutdown_publication-IsSource s v
  source_call-IsSource (handles address h) s v =
      followed-IsSource s (on_channel address h s.channels)
        (on_channel-AllFollow address h s.channels) v

  pub source_calls-IsSource_from :
      (os : List (SourceCall Event)) (s : EventPublication Event)
      → IsSource s
      → IsSource (source_calls event_stream os s)
  unfolding source_calls
  source_calls-IsSource_from [] s v = v
  source_calls-IsSource_from (o ∷ os) s v =
      source_calls-IsSource_from os (source_call event_stream o s) (source_call-IsSource o s v)
