-- ===== src/Runtime/Projection.antt =====
-- The projection library and its protobuf adapter, which src/g3/market_runtime.cpp calls and which
-- are not in the repository: a record of their types and operations.
use binance_market_data_gate.Base.{ℕ, Bool, Option}
use binance_market_data_gate.Runtime.Observed.{ProjectionStatus}
use Prim.Native.String.{String}

-- A call of the adapter gives a value or an `AdapterError`, or it throws.
pub data Outcome (E A : Type 0) : Type 0 where
  good : A → Outcome E A
  bad : E → Outcome E A
  threw : Outcome E A

-- Which read of `refresh_projection_observation_locked` an exception leaves, if any.
pub data Reading : Type 0 where
  reads_all status_throws last_update_id_throws last_gap_throws : Reading

-- The enumerators of `core::ApplyDisposition`.
pub data ApplyDisposition : Type 0 where
  applied ignored_stale ignored_duplicate gap_detected rejected_wrong_state : ApplyDisposition

-- `adapter::SnapshotContext`, as the runtime fills it.
pub record SnapshotContext (Identity : Type 0) : Type 0 where
  pub identity : Identity
  pub producer : String
  pub producer_version : String
  pub generated_utc_ns : ℕ
  pub generated_monotonic_ns : Option ℕ

pub record ProjectionApi : Type 1 where
  pub Projection : Type 0
  pub NumericSpec : Type 0
  pub ExpectedIdentity : Type 0
  pub DepthUpdate : Type 0
  pub DepthSnapshot : Type 0
  pub Batch : Type 0
  pub Baseline : Type 0
  pub BookSnapshot : Type 0
  pub DepthLimit : Type 0
  pub AdapterError : Type 0
  pub GapInfo : Type 0
  pub InstallResult : Type 0
  pub ApplyResult : Type 0
  pub status : Projection → ProjectionStatus
  pub numeric_spec : Projection → NumericSpec
  pub last_update_id : Projection → Option ℕ
  pub last_gap : Projection → Option GapInfo
  -- Whether a reset throws, and the projection after it.
  pub reset : Projection → Bool × Projection
  -- Which read of a projection throws. Outside the `try` of `perform_reset_request` such an exception
  -- ends the process: `owner_loop` is `noexcept`, and the `transition_to_fault` in its `catch` reads
  -- again. The definitions go on there with the values below.
  pub reading : Projection → Reading
  pub adapt_depth_update : DepthUpdate → NumericSpec → ExpectedIdentity → Outcome AdapterError Batch
  pub apply_to : Batch → Projection → Outcome AdapterError ApplyResult × Projection
  pub apply_disposition : ApplyResult → ApplyDisposition
  pub adapt_exchange_depth_snapshot :
      DepthSnapshot → NumericSpec → ExpectedIdentity → Outcome AdapterError Baseline
  pub install_into : Baseline → Projection → Outcome AdapterError InstallResult × Projection
  pub is_installed : InstallResult → Bool
  -- `none` is an `AdapterError`.
  pub create_depth_limit : ℕ → Option DepthLimit
  pub make_local_order_book_snapshot :
      Projection
      → SnapshotContext ExpectedIdentity
      → Option DepthLimit
      → Outcome AdapterError BookSnapshot
  pub is_invalid_depth_limit : AdapterError → Bool
  pub receive_time_utc_ns : DepthUpdate → Option ℕ
  pub receive_monotonic_ns : DepthUpdate → Option ℕ
  pub has_symbol : ExpectedIdentity → Bool
