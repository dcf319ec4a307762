-- ===== src/Config/Validate.antt =====
-- `validate_endpoint` and `validate_config` of src/config.cpp.
pub mod Accepts
use binance_market_data_gate.Base.{ℕ, Bool, true, false, not, ◌&&◌, ◌||◌, ◌==◌, if◌then◌else◌}
use binance_market_data_gate.Config.Types.{
  Venue, binance, other_venue, Market, spot, usd_m_perpetual, other_market, invalid_venue,
  invalid_market, invalid_symbol, invalid_endpoint, invalid_queue_capacity, GatewayConfig,
  ValidatedGatewayConfig, ConfigResult, validated, config_error,
}
use binance_market_data_gate.Config.Symbol.{valid_symbol}
use binance_market_data_gate.Config.Endpoint.{error, valid_host_token}

abbrev pub is_binance : Venue → Bool
is_binance binance = true
is_binance (other_venue _) = false

abbrev pub is_supported : Market → Bool
is_supported spot = true
is_supported usd_m_perpetual = true
is_supported (other_market _) = false

unfoldable pub validate_endpoint : GatewayConfig → ConfigResult
validate_endpoint config =
    if not (valid_host_token config.grpc_listen.host) || config.grpc_listen.port == 0
    then config_error (
        error invalid_endpoint "grpc-listen"
          "endpoint must contain a non-empty safe ASCII host token and port")
    else validated (record { value = config })

unfoldable pub validate_config : GatewayConfig → ConfigResult
validate_config config =
    if not (is_binance config.venue)
    then config_error (error invalid_venue "venue" "only binance is supported")
    else if not (is_supported config.market)
    then config_error (error invalid_market "market" "market must be spot or usd-m-perpetual")
    else if not (valid_symbol config.symbol)
    then config_error (
        error invalid_symbol "symbol"
          "symbol must be a non-empty strict UTF-8 scalar identity without ASCII C0/whitespace or DEL bytes")
    else if config.queue_capacity == 0
    then config_error
        (error invalid_queue_capacity "queue-capacity" "queue capacity must be greater than zero")
    else validate_endpoint config
