-- ===== src/Publication/EventSource/Sessions.antt =====
-- Histories of an event source: the calls of the transport's side, of the service, and of the
-- handlers on their own channels, in any order.
pub mod Invariant
pub mod Steps
mod Admission
pub mod History
pub mod Guarantees
pub mod Shutdown
use binance_market_data_gate.Base.{ℕ, Bool, Option, List, [], ◌∷◌, ◌==◌, if◌then◌else◌}
use binance_market_data_gate.Publication.Shared.{Shared, PublicationTime}
use binance_market_data_gate.Publication.EventChannel.Types.{
  Stream, PeekedEventPublication, EventSubscriberChannel,
}
use binance_market_data_gate.Publication.EventChannel.Calls.{acknowledge, close_from_writer}
use binance_market_data_gate.Publication.EventSource.Types.{
  ValidatedEventSubscription, EventPublication,
}
use binance_market_data_gate.Publication.EventSource.Calls.{
  open_generation, quiesce_generation, close_generation_replaced, close_generation_permanently,
  admit,
}
use binance_market_data_gate.Publication.EventSource.Publish.{publish, remove, shutdown_publication}

pub data HandlerCall (Event : Type 0) : Type 0 where
  acknowledges : PeekedEventPublication Event → HandlerCall Event
  closes : HandlerCall Event

pub data SourceCall (Event : Type 0) : Type 0 where
  opens quiesces closes_permanently : ℕ → SourceCall Event
  closes_replaced : Option PublicationTime → ℕ → SourceCall Event
  admits :
      (channel_address record_address : Option ℕ)
      → Option PublicationTime
      → ValidatedEventSubscription
      → SourceCall Event
  publishes :
      (allocated : ℕ → Option ℕ) → Option Event → ℕ → Option PublicationTime → SourceCall Event
  removes : Option ℕ → SourceCall Event
  shuts_down : SourceCall Event
  handles : (address : ℕ) → HandlerCall Event → SourceCall Event

module _ {Event : Type 0} where
  unfoldable pub handler_call :
      HandlerCall Event → EventSubscriberChannel Event → EventSubscriberChannel Event
  handler_call (acknowledges p) c = (acknowledge p c).1
  handler_call closes c = close_from_writer c

  -- The handler of the channel at an address makes a call on it.
  unfoldable pub on_channel :
      ℕ
      → HandlerCall Event
      → List (Shared (EventSubscriberChannel Event))
      → List (Shared (EventSubscriberChannel Event))
  on_channel address h [] = []
  on_channel address h (ch ∷ chs) =
      (if ch.address == address then record ch { target = handler_call h ch.target } else ch)
      ∷ on_channel address h chs

module _ {Event : Type 0} (event_stream : Event → Stream) where
  unfoldable pub source_call : SourceCall Event → EventPublication Event → EventPublication Event
  source_call (opens g) s = (open_generation g s).1
  source_call (quiesces g) s = (quiesce_generation g s).1
  source_call (closes_permanently g) s = (close_generation_permanently g s).1
  source_call (closes_replaced sampled g) s = (close_generation_replaced sampled g s).1
  source_call (admits channel_address record_address sampled subscription) s =
      (admit channel_address record_address sampled subscription s).1
  source_call (publishes allocated event g sampled) s =
      (publish event_stream allocated event g sampled s).1
  source_call (removes address) s = remove address s
  source_call shuts_down s = shutdown_publication s
  source_call (handles address h) s = record s { channels = on_channel address h s.channels }

  unfoldable pub source_calls :
      List (SourceCall Event) → EventPublication Event → EventPublication Event
  source_calls [] s = s
  source_calls (o ∷ os) s = source_calls os (source_call o s)
