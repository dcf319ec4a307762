-- ===== src/Publication/EventChannel/Types.antt =====
-- The data of `EventSubscriberChannel`: src/g9/event_publication.hpp.
use binance_market_data_gate.Base.{ℕ, Bool, true, false, ◌&&◌, Option, List, ◌==◌}
use binance_market_data_gate.Publication.Ring.{Ring}
use binance_market_data_gate.Publication.Shared.{
  Shared, ConsumerGapReason, RecoveryAction, reason_eq, action_eq, PublicationTime, time_eq,
}
use binance_market_data_gate.Publication.Channel.Types.{SubscriptionAccepted}

-- The enumerators of `common_wire::Stream` that the gateway serves, and the unspecified one.
pub data Stream : Type 0 where
  stream_unspecified diff_depth agg_trade book_ticker : Stream

abbrev pub stream_eq : Stream → Stream → Bool
stream_eq stream_unspecified stream_unspecified = true
stream_eq diff_depth diff_depth = true
stream_eq agg_trade agg_trade = true
stream_eq book_ticker book_ticker = true
stream_eq _ _ = false

-- `g4::NormalizedMarketEvent`, a variant of three protobuf messages, which are only moved.
pub data NormalizedMarketEvent (Depth Trade Ticker : Type 0) : Type 0 where
  depth_event : Depth → NormalizedMarketEvent Depth Trade Ticker
  trade_event : Trade → NormalizedMarketEvent Depth Trade Ticker
  ticker_event : Ticker → NormalizedMarketEvent Depth Trade Ticker

unfoldable pub normalized_event_stream :
    {Depth Trade Ticker : Type 0} → NormalizedMarketEvent Depth Trade Ticker → Stream
normalized_event_stream (depth_event _) = diff_depth
normalized_event_stream (trade_event _) = agg_trade
normalized_event_stream (ticker_event _) = book_ticker

-- An event, of any type `Event`, is a `std::shared_ptr` to a normalized event.
pub data EventOrdinaryPayload (Event : Type 0) : Type 0 where
  accepted_payload : SubscriptionAccepted → EventOrdinaryPayload Event
  event_payload : Event → EventOrdinaryPayload Event

pub record EventPublicationRecord (Event : Type 0) : Type 0 where
  pub session_sequence : ℕ
  pub connection_generation : Option ℕ
  pub published_at : PublicationTime
  pub payload : EventOrdinaryPayload Event

pub record EventTerminalDescriptor : Type 0 where
  pub session_sequence : ℕ
  pub connection_generation : ℕ
  pub published_at : PublicationTime
  pub reason : ConsumerGapReason
  pub recovery_action : RecoveryAction

-- The defaulted `operator==`.
unfoldable pub event_descriptor_eq : EventTerminalDescriptor → EventTerminalDescriptor → Bool
event_descriptor_eq s t =
    s.session_sequence == t.session_sequence
    && s.connection_generation == t.connection_generation
    && time_eq s.published_at t.published_at
    && reason_eq s.reason t.reason
    && action_eq s.recovery_action t.recovery_action

pub data EventChannelState : Type 0 where
  active terminal_gap terminal_unavailable closed : EventChannelState

abbrev pub is_active : EventChannelState → Bool
is_active active = true
is_active _ = false

abbrev pub is_closed : EventChannelState → Bool
is_closed closed = true
is_closed _ = false

pub data EventAdmissionResult : Type 0 where
  admitted terminalized inactive allocation_failure : EventAdmissionResult

pub data EventAcknowledgeResult : Type 0 where
  acknowledged ack_closed mismatch : EventAcknowledgeResult

pub record PeekedEventPublication (Event : Type 0) : Type 0 where
  pub ordinary : Option (Shared (EventPublicationRecord Event))
  pub terminal : Option EventTerminalDescriptor

pub record EventSubscriberChannel (Event : Type 0) : Type 0 where
  pub subscription_id : List ℕ
  pub gateway_instance_id : List ℕ
  pub stream : Stream
  pub source_generation : ℕ
  pub ordinary_capacity : ℕ
  pub ordinary_ring : Ring (Shared (EventPublicationRecord Event))
  pub terminal : Option EventTerminalDescriptor
  pub state : EventChannelState
  pub next_session_sequence : ℕ
