-- ===== src/Status/Types.antt =====
-- The data that the status reads and gives: src/g10/gateway_status.{hpp,cpp}, and of the observations
-- of src/g3/market_runtime.hpp and src/g5/recovery_coordinator.hpp the fields that it reads.
use Prim.Native.String.{String}
use binance_market_data_gate.Base.{ℕ, Bool, true, false, Option, List}
use binance_market_data_gate.Publication.EventSource.Types.{EventPublicationObservation}
use binance_market_data_gate.Registry.{MarketKey}
pub use binance_market_data_gate.Runtime.Observed.{
  RuntimeState, constructed, buffering, awaiting_bridge, live, needs_resync, faulted, stopping,
  stopped, other_state, is_live, ProjectionStatus, synchronized, is_synchronized,
  AppliedDepthObservation, ClockSample,
}

pub data RecoveryState : Type 0 where
  starting recovery_live rotating backoff recovering exhausted : RecoveryState
  recovery_stopping recovery_stopped : RecoveryState

abbrev pub is_recovery_live : RecoveryState → Bool
is_recovery_live recovery_live = true
is_recovery_live _ = false

pub record RuntimeObservation : Type 0 where
  pub state : RuntimeState
  pub projection_status : ProjectionStatus
  pub last_applied_depth : Option AppliedDepthObservation
  pub resident_subscription_count : ℕ

pub record RecoveryObservation : Type 0 where
  pub state : RecoveryState
  pub connection_generation : ℕ
  pub active_transport_count : ℕ

pub data StatusSnapshotError : Type 0 where
  start_baseline_unavailable clock_error monotonic_clock_regression : StatusSnapshotError
  invalid_observation observation_timeout : StatusSnapshotError

-- The enumerators of `common_wire::StreamLifecycleState` that `map_runtime_state` names.
pub data StreamLifecycleState : Type 0 where
  state_accepted state_snapshot_pending state_live state_resync_in_progress : StreamLifecycleState
  state_degraded state_closing state_closed : StreamLifecycleState

pub record CollectedMarket : Type 0 where
  pub key : MarketKey
  pub runtime : RuntimeObservation
  pub recovery : RecoveryObservation
  pub event_publication : EventPublicationObservation

-- The fields of the protobuf messages that `collect` sets.
pub record MarketStatus : Type 0 where
  pub key : MarketKey
  pub state : StreamLifecycleState
  pub last_event_utc_ns : Option ℕ
  pub connection_generation : Option ℕ
  pub active_subscription_count : ℕ

pub record GatewayStatusSnapshot : Type 0 where
  pub schema_version : String
  pub gateway_instance_id : List ℕ
  pub observed_time_utc_ns : ℕ
  pub uptime_seconds : ℕ
  pub markets : List MarketStatus
  pub total_active_subscriptions : ℕ

pub data StatusSnapshotResult : Type 0 where
  status : GatewayStatusSnapshot → StatusSnapshotResult
  status_error : StatusSnapshotError → StatusSnapshotResult

-- A market whose parts are observed: its key, and the addresses of the three parts, which the
-- constructor of the registry (or of the assembler, by its references) makes non-null.
pub record MarketSource : Type 0 where
  pub key : MarketKey
  pub runtime : ℕ
  pub recovery : ℕ
  pub event_publication : ℕ

-- `GatewayStatusAssembler`, without its clock.
pub record GatewayStatusAssembler : Type 0 where
  pub sources : List MarketSource
  pub gateway_instance_id : List ℕ
  pub start_baseline_monotonic_ns : Option ℕ
