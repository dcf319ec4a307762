-- ===== src/Recovery.antt =====
-- The recovery of a runtime's source: src/g5/spot_recovery.cpp and src/g5/recovery_coordinator.hpp.
pub mod Types
pub mod Policy
pub mod History
pub mod Laws
pub mod Tests
