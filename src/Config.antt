-- ===== src/Config.antt =====
-- The configuration surface: src/config.cpp and include/binance_market_data/gateway/v1/config.hpp.
mod Tests
pub mod Types
pub mod Symbol
pub mod Endpoint
pub mod Validate
