-- ===== src/Publication/EventSource/Tests.antt =====
-- An event source on concrete calls. An event is its stream here.
use binance_market_data_gate.Base.{
  ◌≡◌, ◌≢◌, refl, true, false, none, some, List, [], ◌∷◌, All, arith,
}
use binance_market_data_gate.Publication.Shared.{Shared, PublicationTime}
use binance_market_data_gate.Publication.Ring.{ring, ring_push}
use binance_market_data_gate.Publication.EventChannel.Types.{
  Stream, agg_trade, EventSubscriberChannel,
}
use binance_market_data_gate.Publication.EventChannel.Calls.{
  fresh_channel, event_subscriber_channel, stage_accepted,
}
use binance_market_data_gate.Publication.EventSource.Types.{
  EventPublication, EventPublicationLimits, ValidatedEventSubscription, source_closed,
  accepted_subscription, admission_error, EventSubscriptionAdmission,
}
use binance_market_data_gate.Publication.EventSource.Calls.{
  event_publication, open_generation, admit, make_accepted_record,
}
use binance_market_data_gate.Publication.EventSource.Sessions.{
  SourceCall, opens, quiesces, closes_replaced, admits, publishes, source_call, source_calls,
}
use binance_market_data_gate.Publication.EventChannel.Types.{is_active}
use binance_market_data_gate.Publication.EventSource.Types.{shutdown}
use binance_market_data_gate.Publication.EventSource.Publish.{shutdown_publication}
use binance_market_data_gate.Publication.EventSource.Sessions.Shutdown.{source_calls-shutdown}
use binance_market_data_gate.Publication.EventSource.Sessions.Invariant.{IsSource}
use binance_market_data_gate.Publication.EventSource.Sessions.Guarantees.{
  source_calls-IsSource, open_generation-once, admit-fresh,
}

abbrev at : PublicationTime
at = record { utc_ns = 10; monotonic_ns = some 20 }

abbrev limits : EventPublicationLimits
limits = record { maximum_active_subscriptions = 2; ordinary_queue_capacity = 4 }

abbrev subscription : ValidatedEventSubscription
subscription = record {
  request_id = b'r' ∷ [];
  stream = agg_trade;
  negotiated_payload_schema_version = "agg-trade.v1";
}

abbrev same_stream : Stream → Stream
same_stream e = e

abbrev constructed : EventPublication Stream
constructed = record {
  gateway_instance_id = b'g' ∷ [];
  limits = limits;
  source_state = source_closed;
  source_generation = none;
  next_subscription_id = 1;
  channels = [];
}

made : event_publication (b'g' ∷ []) true limits ≡ some constructed
unfolding event_publication
made = refl

-- Two subscriptions to trades, a trade, and the reconnection to a new generation.
abbrev history : List (SourceCall Stream)
history =
    opens 4
    ∷ admits (some 1) (some 2) (some at) subscription
    ∷ admits (some 3) (some 4) (some at) subscription
    ∷ publishes (λ _. some 5) (some agg_trade) 4 (some at)
    ∷ quiesces 4
    ∷ closes_replaced (some at) 4
    ∷ opens 5
    ∷ []

source_calls-IsSource_example : IsSource (source_calls same_stream history constructed)
source_calls-IsSource_example =
    source_calls-IsSource same_stream (b'g' ∷ []) true limits constructed made history

opened_4 : (open_generation 4 constructed).0 ≡ true
unfolding open_generation
opened_4 = refl

open_generation-once_example :
    (open_generation 4 (source_calls same_stream history (open_generation 4 constructed).1)).0
    ≡ false
open_generation-once_example =
    open_generation-once same_stream 4 constructed opened_4 history 4 (omega arith)

-- The source with one subscription, before the second is admitted.
abbrev with_one : EventPublication Stream
with_one =
    source_calls same_stream (opens 4 ∷ admits (some 1) (some 2) (some at) subscription ∷ [])
      constructed

with_one-IsSource : IsSource with_one
with_one-IsSource =
    source_calls-IsSource same_stream (b'g' ∷ []) true limits constructed made
      (opens 4 ∷ admits (some 1) (some 2) (some at) subscription ∷ [])

abbrev channel_or :
    Shared (EventSubscriberChannel Stream)
    → EventSubscriptionAdmission Stream
    → Shared (EventSubscriberChannel Stream)
channel_or other (accepted_subscription ch) = ch
channel_or other (admission_error e) = other

abbrev unused : Shared (EventSubscriberChannel Stream)
unused = record { address = 0; target = fresh_channel [] [] agg_trade 4 4 }

abbrev second : Shared (EventSubscriberChannel Stream)
second = channel_or unused (admit (some 3) (some 4) (some at) subscription with_one).0

admits_second :
    (admit (some 3) (some 4) (some at) subscription with_one).0 ≡ accepted_subscription second
unfolding source_calls source_call open_generation admit event_subscriber_channel stage_accepted
    ring_push ring event_publication make_accepted_record
admits_second = refl

admit-fresh_example :
    All (λ other. other.target.subscription_id ≢ second.target.subscription_id) with_one.channels
admit-fresh_example =
    admit-fresh (some 3) (some 4) (some at) subscription with_one second with_one-IsSource
      admits_second

source_calls-shutdown_example :
    ((source_calls same_stream history (shutdown_publication with_one)).source_state ≡ shutdown)
    × All
        (λ ch. is_active ch.target.state ≡ false)
        (source_calls same_stream history (shutdown_publication with_one)).channels
source_calls-shutdown_example = source_calls-shutdown same_stream with_one with_one-IsSource history
