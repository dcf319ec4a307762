-- ===== src/Publication/EventSource/Types.antt =====
-- The data of `EventPublication`: src/g9/event_publication.hpp.
use Prim.Native.String.{String}
use binance_market_data_gate.Base.{ℕ, Option, List}
use binance_market_data_gate.Publication.Shared.{Shared}
use binance_market_data_gate.Publication.EventChannel.Types.{Stream, EventSubscriberChannel}

pub record EventPublicationLimits : Type 0 where
  pub maximum_active_subscriptions : ℕ
  pub ordinary_queue_capacity : ℕ

pub record ValidatedEventSubscription : Type 0 where
  pub request_id : List ℕ
  pub stream : Stream
  pub negotiated_payload_schema_version : String

pub data EventSourceState : Type 0 where
  source_closed opened quiesced permanently_closed shutdown : EventSourceState

pub data EventSubscriptionAdmissionError : Type 0 where
  source_unavailable active_limit clock_error id_exhausted : EventSubscriptionAdmissionError
  internal_error shutting_down : EventSubscriptionAdmissionError

-- `channels` holds `std::shared_ptr<EventSubscriberChannel>`: the address by which a channel is
-- known, and the channel. A null pointer is never stored.
pub record EventPublication (Event : Type 0) : Type 0 where
  pub gateway_instance_id : List ℕ
  pub limits : EventPublicationLimits
  pub source_state : EventSourceState
  pub source_generation : Option ℕ
  pub next_subscription_id : ℕ
  pub channels : List (Shared (EventSubscriberChannel Event))

pub data EventSubscriptionAdmission (Event : Type 0) : Type 0 where
  accepted_subscription : Shared (EventSubscriberChannel Event) → EventSubscriptionAdmission Event
  admission_error : EventSubscriptionAdmissionError → EventSubscriptionAdmission Event

pub data EventPublishResult : Type 0 where
  published ignored_before_open invariant_failure : EventPublishResult

pub record EventPublicationObservation : Type 0 where
  pub source_state : EventSourceState
  pub source_generation : Option ℕ
  pub active_subscriptions : ℕ
