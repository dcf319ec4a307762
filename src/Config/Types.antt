-- ===== src/Config/Types.antt =====
-- The data of include/binance_market_data/gateway/v1/config.hpp.
use Prim.Native.String.{String}
use binance_market_data_gate.Base.{ℕ, List}

-- An enumerator, or a value cast from `std::uint8_t` that no enumerator has.
pub data Venue : Type 0 where
  binance : Venue
  other_venue : ℕ → Venue

pub data Market : Type 0 where
  spot usd_m_perpetual : Market
  other_market : ℕ → Market

pub data ConfigErrorCode : Type 0 where
  invalid_venue invalid_market invalid_symbol invalid_endpoint : ConfigErrorCode
  invalid_queue_capacity : ConfigErrorCode

pub record ConfigError : Type 0 where
  pub code : ConfigErrorCode
  pub field : String
  pub message : String

-- The host as bytes; the port is a `std::uint16_t`.
pub record ListenEndpoint : Type 0 where
  pub host : List ℕ
  pub port : ℕ

pub data EndpointResult : Type 0 where
  endpoint : ListenEndpoint → EndpointResult
  endpoint_error : ConfigError → EndpointResult

pub record GatewayConfig : Type 0 where
  pub venue : Venue
  pub market : Market
  pub symbol : List ℕ
  pub grpc_listen : ListenEndpoint
  pub queue_capacity : ℕ

-- Only `ConfigValidationAccess::create` builds one.
pub record ValidatedGatewayConfig : Type 0 where
  pub value : GatewayConfig

pub data ConfigResult : Type 0 where
  validated : ValidatedGatewayConfig → ConfigResult
  config_error : ConfigError → ConfigResult
