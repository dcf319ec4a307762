-- ===== src/Publication/EventSource/Publish.antt =====
-- `publish`, `remove`, `shutdown` and `observe` of `EventPublication`: src/g9/event_publication.cpp.
use binance_market_data_gate.Base.{
  ℕ, Bool, true, false, not, ◌&&◌, ◌||◌, Option, none, some, List, [], ◌∷◌, ◌==◌, if◌then◌else◌,
  optional_eq, length,
}
use binance_market_data_gate.Publication.Shared.{Shared, PublicationTime}
use binance_market_data_gate.Publication.EventChannel.Types.{
  Stream, stream_eq, EventAdmissionResult, allocation_failure, EventSubscriberChannel,
}
use binance_market_data_gate.Publication.EventChannel.Calls.{admit_event, close_from_owner}
use binance_market_data_gate.Publication.EventSource.Types.{
  shutdown, EventPublication, EventPublishResult, published, ignored_before_open, invariant_failure,
  EventPublicationObservation,
}
use binance_market_data_gate.Publication.EventSource.Calls.{
  is_open, is_source_closed, is_shutdown, is_later,
}

abbrev pub is_allocation_failure : EventAdmissionResult → Bool
is_allocation_failure allocation_failure = true
is_allocation_failure _ = false

module _ {Event : Type 0} (event_stream : Event → Stream) where
  -- The test of the loop of `publish`.
  abbrev pub receives : Event → ℕ → EventSubscriberChannel Event → Bool
  receives event generation c =
      stream_eq c.stream (event_stream event) && c.source_generation == generation

  -- The loop, which stops at the first failure. `allocated` is what the allocator gives for the
  -- record of each channel, by the channel's address.
  unfoldable pub publish_each :
      (allocated : ℕ → Option ℕ)
      → Event
      → ℕ
      → PublicationTime
      → List (Shared (EventSubscriberChannel Event))
      → EventPublishResult × List (Shared (EventSubscriberChannel Event))
  publish_each allocated event generation at [] = (published, [])
  publish_each allocated event generation at (ch ∷ chs) =
      let (result, c) = admit_event event_stream (allocated ch.address) (some event) at ch.target in
      let (rest, chs') = publish_each allocated event generation at chs in
      if not (receives event generation ch.target)
      then (rest, ch ∷ chs')
      else if is_allocation_failure result
      then (invariant_failure, record ch { target = c } ∷ chs)
      else (rest, record ch { target = c } ∷ chs')

  unfoldable pub publish_at :
      (allocated : ℕ → Option ℕ)
      → Event
      → ℕ
      → PublicationTime
      → EventPublication Event
      → EventPublishResult × EventPublication Event
  publish_at allocated event generation at s =
      if is_shutdown s.source_state
        || (is_source_closed s.source_state && is_later generation s.source_generation)
      then (ignored_before_open, s)
      else if not (is_open s.source_state)
          || not (optional_eq s.source_generation (some generation))
      then (invariant_failure, s)
      else let (result, channels) = publish_each allocated event generation at s.channels in
        (result, record s { channels = channels })

  unfoldable pub publish :
      (allocated : ℕ → Option ℕ)
      → Option Event
      → ℕ
      → (sampled : Option PublicationTime) → EventPublication Event
      → EventPublishResult × EventPublication Event
  unfolding publish_at
  publish allocated none generation sampled s = (invariant_failure, s)
  publish allocated (some event) generation none s = (invariant_failure, s)
  publish allocated (some event) generation (some at) s = publish_at allocated event generation at s

module _ {Event : Type 0} where
  -- `std::find` and `erase`, by the address of the channel.
  unfoldable pub remove_channel :
      ℕ
      → List (Shared (EventSubscriberChannel Event))
      → List (Shared (EventSubscriberChannel Event))
  remove_channel address [] = []
  remove_channel address (ch ∷ chs) =
      if ch.address == address then chs else ch ∷ remove_channel address chs

  -- `none` is a null channel.
  unfoldable pub remove : Option ℕ → EventPublication Event → EventPublication Event
  remove none s = s
  remove (some address) s = record s { channels = remove_channel address s.channels }

  unfoldable pub close_all :
      List (Shared (EventSubscriberChannel Event)) → List (Shared (EventSubscriberChannel Event))
  close_all [] = []
  close_all (ch ∷ chs) = record ch { target = close_from_owner ch.target } ∷ close_all chs

  unfoldable pub shutdown_publication : EventPublication Event → EventPublication Event
  shutdown_publication s =
      if is_shutdown s.source_state
      then s
      else record s { source_state = shutdown; channels = close_all s.channels }

  unfoldable pub observe : EventPublication Event → EventPublicationObservation
  observe s = record {
    source_state = s.source_state;
    source_generation = s.source_generation;
    active_subscriptions = length s.channels;
  }
