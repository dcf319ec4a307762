-- ===== src/Runtime.antt =====
-- The single-product runtime: `MarketRuntime` of src/g3/market_runtime.{hpp,cpp}.
pub mod Observed
pub mod Projection
pub mod Types
pub mod Calls
pub mod Requests
pub mod Waits
pub mod Faults
pub mod Publish
pub mod Process
pub mod Admission
pub mod Answers
pub mod Owner
pub mod Handling
pub mod Histories
pub mod Behaviour
pub mod Tests
