-- ===== src/Recovery/Types.antt =====
-- The data of src/g5/recovery_coordinator.hpp, and of src/g4/spot_transport.hpp that it reads.
use binance_market_data_gate.Base.{ℕ, Bool, Option, List}
use binance_market_data_gate.Runtime.Observed.{RuntimeState, ProjectionStatus}
use binance_market_data_gate.Runtime.Types.{FaultReason}

pub data NetworkErrorCode : Type 0 where
  timeout dns tcp tls web_socket_handshake web_socket_read http_write : NetworkErrorCode
  http_read http_status protocol runtime_admission server_shutdown internal : NetworkErrorCode

pub record NetworkError : Type 0 where
  pub code : NetworkErrorCode
  pub stage : List ℕ
  pub message : List ℕ
  pub status : Option ℕ
  pub retry_after : Option (List ℕ)

-- The fields of `TransportObservation` that the recovery's decisions read.
pub record TransportObservation : Type 0 where
  pub running : Bool
  pub stopped : Bool
  pub terminal_error : Option NetworkError

-- The fields of `RuntimeObservation` that the recovery's decisions read.
pub record RuntimeCut : Type 0 where
  pub state : RuntimeState
  pub projection_status : ProjectionStatus
  pub fault_reason : Option FaultReason

pub data RecoveryCause : Type 0 where
  cause_needs_resync cause_transport_failure cause_snapshot_failure : RecoveryCause
  cause_ingress_overflow cause_bootstrap_buffer_overflow cause_protocol : RecoveryCause
  cause_server_shutdown cause_http429 cause_http418 cause_http5xx : RecoveryCause
  cause_terminal_http4xx cause_internal_failure : RecoveryCause

-- A delay is a number of seconds.
pub record RecoveryDecision : Type 0 where
  pub recoverable : Bool
  pub cause : RecoveryCause
  pub minimum_delay : Option ℕ
