-- ===== src/Publication/Channel/Types.antt =====
-- The data of `SubscriberChannel`: src/g7/order_book_publication.hpp.
use Prim.Native.String.{String}
use binance_market_data_gate.Base.{
  ℕ, Bool, true, false, not, ◌&&◌, Option, List, ◌==◌, if◌then◌else◌, optional_eq,
}
use binance_market_data_gate.Base.Words.{add_u64, u64_max}
use binance_market_data_gate.Publication.Ring.{Ring}
use binance_market_data_gate.Publication.Shared.{
  Shared, ConsumerGapReason, RecoveryAction, reason_eq, action_eq, PublicationTime, time_eq,
}

-- The fields of the protobuf message that `make_accepted_record` sets.
pub record SubscriptionAccepted : Type 0 where
  pub request_id : List ℕ
  pub subscription_id : List ℕ
  pub schema_version : String
  pub gateway_instance_id : List ℕ
  pub accepted_time_utc_ns : ℕ
  pub negotiated_payload_schema_versions : List String

pub data OrdinaryPayload (Snapshot Update : Type 0) : Type 0 where
  accepted_payload : SubscriptionAccepted → OrdinaryPayload Snapshot Update
  snapshot_payload : Snapshot → OrdinaryPayload Snapshot Update
  update_payload : Update → OrdinaryPayload Snapshot Update

pub data PublicationPayloadKind : Type 0 where
  subscription_accepted snapshot depth_update : PublicationPayloadKind

pub record PublicationRecord (Snapshot Update : Type 0) : Type 0 where
  pub session_sequence : ℕ
  pub connection_generation : Option ℕ
  pub published_at : PublicationTime
  pub payload : OrdinaryPayload Snapshot Update

pub record TerminalDescriptor : Type 0 where
  pub session_sequence : ℕ
  pub connection_generation : Option ℕ
  pub published_at : PublicationTime
  pub reason : ConsumerGapReason
  pub recovery_action : RecoveryAction

-- The defaulted `operator==`.
unfoldable pub descriptor_eq : TerminalDescriptor → TerminalDescriptor → Bool
descriptor_eq s t =
    s.session_sequence == t.session_sequence
    && optional_eq s.connection_generation t.connection_generation
    && time_eq s.published_at t.published_at
    && reason_eq s.reason t.reason
    && action_eq s.recovery_action t.recovery_action

pub data SubscriberState : Type 0 where
  active terminal_gap closed : SubscriberState

abbrev pub is_active : SubscriberState → Bool
is_active active = true
is_active _ = false

abbrev pub is_closed : SubscriberState → Bool
is_closed closed = true
is_closed _ = false

pub data OrdinaryAdmissionResult : Type 0 where
  admitted terminalized inactive allocation_failure : OrdinaryAdmissionResult

pub data AcknowledgeResult : Type 0 where
  acknowledged ack_closed mismatch : AcknowledgeResult

module _ {Snapshot Update : Type 0} where
  unfoldable pub kind_of : OrdinaryPayload Snapshot Update → PublicationPayloadKind
  kind_of (accepted_payload _) = subscription_accepted
  kind_of (snapshot_payload _) = snapshot
  kind_of (update_payload _) = depth_update

pub record PeekedPublication (Snapshot Update : Type 0) : Type 0 where
  pub ordinary : Option (Shared (PublicationRecord Snapshot Update))
  pub terminal : Option TerminalDescriptor

pub record SubscriberChannel (Snapshot Update : Type 0) : Type 0 where
  pub subscription_id : List ℕ
  pub gateway_instance_id : List ℕ
  pub ordinary_capacity : ℕ
  pub ordinary_ring : Ring (Shared (PublicationRecord Snapshot Update))
  pub terminal : Option TerminalDescriptor
  pub state : SubscriberState
  pub next_session_sequence : ℕ

-- `if (next != max) ++next`.
abbrev pub next_after_terminal : ℕ → ℕ
next_after_terminal next = if not (next == u64_max) then add_u64 next 1 else next
