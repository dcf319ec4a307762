-- ===== src/Runtime/Types.antt =====
-- The data of src/g3/market_runtime.{hpp,cpp}.
use binance_market_data_gate.Base.{ℕ, Bool, true, false, Option, some, List}
use binance_market_data_gate.Publication.Shared.{Shared}
use binance_market_data_gate.Publication.Channel.Types.{SubscriberChannel}
use binance_market_data_gate.Runtime.Observed.{
  RuntimeState, ProjectionStatus, AppliedDepthObservation, ClockSample,
}
use binance_market_data_gate.Runtime.Projection.{ProjectionApi}

pub data FaultReason : Type 0 where
  ingress_overflow bootstrap_buffer_overflow adapter_fault transport_failure : FaultReason
  snapshot_failure projection_rejected clock_fault internal_fault : FaultReason

abbrev pub is_internal : Option FaultReason → Bool
is_internal (some internal_fault) = true
is_internal _ = false

pub data StartResult : Type 0 where
  started_now already_started start_stopped : StartResult

pub data AdmissionResult : Type 0 where
  accepted_input full not_started admission_stopping admission_stopped admission_faulted :
      AdmissionResult

pub data RebootstrapResetResult : Type 0 where
  was_reset reset_not_started reset_invalid_state reset_busy reset_stopping : RebootstrapResetResult
  reset_stopped reset_internal_error : RebootstrapResetResult

pub data ResetKind : Type 0 where
  recovery_reset planned_reset : ResetKind

pub data SnapshotRequestError : Type 0 where
  snapshot_not_started snapshot_not_live snapshot_busy snapshot_faulted : SnapshotRequestError
  snapshot_stopping snapshot_stopped snapshot_clock_error : SnapshotRequestError
  snapshot_internal_error : SnapshotRequestError

pub data SubscriptionAdmissionError : Type 0 where
  subscription_not_started not_live pending_limit active_limit : SubscriptionAdmissionError
  invalid_depth_limit shutting_down clock_error id_exhausted : SubscriptionAdmissionError
  internal_error subscription_stopped : SubscriptionAdmissionError

pub data PublicationShutdownResult : Type 0 where
  shut_down already_shut_down shutdown_not_started shutdown_stopped : PublicationShutdownResult

pub record PublicationLimits : Type 0 where
  pub maximum_active_subscriptions : ℕ
  pub ordinary_queue_capacity : ℕ
  pub pending_admission_capacity : ℕ

pub record RuntimeLimits : Type 0 where
  pub ingress_capacity : ℕ
  pub bootstrap_capacity : ℕ
  pub publication : PublicationLimits

-- The depth limit is a `std::int32_t`, as its bits.
pub record ValidatedOrderBookSubscription : Type 0 where
  pub request_id : List ℕ
  pub gateway_instance_id : List ℕ
  pub depth_limit : Option ℕ

-- `id` stands for the address of the request, which the caller waits on.
pub record AdmissionRequest : Type 0 where
  pub id : ℕ
  pub target : ℕ
  pub subscription : ValidatedOrderBookSubscription

pub data InjectedFailure : Type 0 where
  transport snapshot : InjectedFailure

module _ (api : ProjectionApi) where
  abbrev pub Channel : Type 0
  Channel = SubscriberChannel api.BookSnapshot (Shared api.DepthUpdate)

  pub record DepthUpdateInput : Type 0 where
    pub update : api.DepthUpdate
    pub connection_generation : Option ℕ

  pub record SnapshotInput : Type 0 where
    pub contents : api.DepthSnapshot
    pub connection_generation : Option ℕ

  pub data RuntimeInput : Type 0 where
    depth_update_input : DepthUpdateInput → RuntimeInput
    snapshot_input : SnapshotInput → RuntimeInput
    injected_failure : InjectedFailure → RuntimeInput

  pub record IngressItem : Type 0 where
    pub ticket : ℕ
    pub input : RuntimeInput

  pub data SubscriptionAdmissionResult : Type 0 where
    accepted_subscription : Shared Channel → SubscriptionAdmissionResult
    admission_error : SubscriptionAdmissionError → SubscriptionAdmissionResult

  pub data SnapshotResult : Type 0 where
    captured_snapshot : api.BookSnapshot → ClockSample → SnapshotResult
    snapshot_adapter_error : api.AdapterError → SnapshotResult
    snapshot_error : SnapshotRequestError → SnapshotResult

  pub record SnapshotRequest : Type 0 where
    pub target : ℕ
    pub result : Option SnapshotResult

  pub record ResetRequest : Type 0 where
    pub target : ℕ
    pub kind : ResetKind
    pub result : Option RebootstrapResetResult

  -- `RuntimeObservation`, without the identifiers of threads and the two capacities.
  pub record Observation : Type 0 where
    pub state : RuntimeState
    pub projection_status : ProjectionStatus
    pub last_update_id : Option ℕ
    pub last_gap : Option api.GapInfo
    pub last_install : Option api.InstallResult
    pub last_apply : Option api.ApplyResult
    pub last_applied_depth : Option AppliedDepthObservation
    pub adapter_error : Option api.AdapterError
    pub fault_reason : Option FaultReason
    pub ingress_occupancy : ℕ
    pub bootstrap_occupancy : ℕ
    pub reset_count : ℕ
    pub last_admitted_ticket : ℕ
    pub processed_ticket : ℕ
    pub current_projection_generation : Option ℕ
    pub resident_subscription_count : ℕ
    pub pending_admission_count : ℕ
    pub publication_admission_open : Bool
    pub publication_shutdown : Bool
    pub owner_joined : Bool

  -- What the owner's thread has taken under the lock, and is about to do.
  pub data Work : Type 0 where
    unowned waiting finished : Work
    shuts_down_publication resets captures sweeps : Work
    faults : FaultReason → Work
    admits_request : AdmissionRequest → Work
    processes : IngressItem → Work

  -- `MarketRuntime::Impl`. `released` are the channels that the shutdown has taken from `subscribers`
  -- and that their handlers hold still, `answers` are the results of the admission requests, by the request;
  -- `clock_calls` and `allocations` count the calls of the clock and of the allocator.
  pub record Runtime : Type 0 where
    pub limits : RuntimeLimits
    pub expected_identity : api.ExpectedIdentity
    pub projection : api.Projection
    pub bootstrap : List DepthUpdateInput
    pub current_projection_generation : Option ℕ
    pub subscribers : List (Shared Channel)
    pub released : List (Shared Channel)
    pub next_subscription_id : ℕ
    pub ingress : List IngressItem
    pub admission_requests : List AdmissionRequest
    pub answers : List (ℕ × SubscriptionAdmissionResult)
    pub pending_fault : Option FaultReason
    pub snapshot_request : Option SnapshotRequest
    pub reset_request : Option ResetRequest
    pub observation : Observation
    pub last_admitted_ticket : ℕ
    pub processed_ticket : ℕ
    pub pending_admission_count : ℕ
    pub started : Bool
    pub accepting : Bool
    pub publication_admission_open : Bool
    pub publication_shutdown_requested : Bool
    pub publication_shutdown_completed : Bool
    pub publication_removal_pending : Bool
    pub stop_requested : Bool
    pub is_over : Bool
    pub owner_ready : Bool
    pub owner_paused : Bool
    pub work : Work
    pub clock_calls : ℕ
    pub allocations : ℕ
