-- ===== src/Status.antt =====
-- The status of the gateway: src/g10/gateway_status.cpp. An assembler that was made without a registry
-- has one source, the spot market; its three pointers come from references, so the branch of `collect`
-- for a null pointer is never taken.
pub mod Types
pub mod Collect
pub mod Snapshots
mod Tests
