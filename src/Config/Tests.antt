-- ===== src/Config/Tests.antt =====
-- The configuration on concrete inputs.
use binance_market_data_gate.Base.{ℕ, ◌≡◌, refl, ◌↔◌, true, false, List, [], ◌∷◌}
use binance_market_data_gate.Config.Types.{
  binance, spot, GatewayConfig, ListenEndpoint, endpoint, validated, config_error, ConfigError,
  invalid_queue_capacity,
}
use binance_market_data_gate.Config.Symbol.{valid_symbol, scan, next_scalar}
use binance_market_data_gate.Config.Symbol.Utf8.{IsSymbolText, valid_symbol_iff}
use binance_market_data_gate.Config.Endpoint.{parse_listen_endpoint, error}
use binance_market_data_gate.Config.Endpoint.Grammar.{IsEndpointText, parse_listen_endpoint_iff}
use binance_market_data_gate.Config.Validate.{validate_config}
use binance_market_data_gate.Config.Validate.Accepts.{
  IsAcceptable, validate_config_iff, Fault, validate_config-Fault,
}

-- "BTC".
abbrev symbol : List ℕ
symbol = b'B' ∷ b'T' ∷ b'C' ∷ []

-- "h:80".
abbrev listen_text : List ℕ
listen_text = b'h' ∷ b':' ∷ b'8' ∷ b'0' ∷ []

abbrev listen : ListenEndpoint
listen = record { host = b'h' ∷ []; port = 80 }

abbrev config_with : ℕ → GatewayConfig
config_with queue_capacity = record {
  venue = binance;
  market = spot;
  symbol = symbol;
  grpc_listen = listen;
  queue_capacity = queue_capacity;
}

abbrev no_capacity : ConfigError
no_capacity =
    error invalid_queue_capacity "queue-capacity" "queue capacity must be greater than zero"

symbol-valid : valid_symbol symbol ≡ true
unfolding valid_symbol scan next_scalar
symbol-valid = refl

-- A surrogate, U+D800, is not a symbol.
surrogate-invalid : valid_symbol (0xED ∷ 0xA0 ∷ 0x80 ∷ []) ≡ false
unfolding valid_symbol scan next_scalar
surrogate-invalid = refl

no_capacity-reported : validate_config (config_with 0) ≡ config_error no_capacity
unfolding validate_config valid_symbol scan next_scalar
no_capacity-reported = refl

valid_symbol_iff_example : (valid_symbol symbol ≡ true) ↔ IsSymbolText symbol
valid_symbol_iff_example = valid_symbol_iff symbol

parse_listen_endpoint_iff_example :
    (parse_listen_endpoint listen_text ≡ endpoint listen) ↔ IsEndpointText listen_text listen
parse_listen_endpoint_iff_example = parse_listen_endpoint_iff listen_text listen

validate_config_iff_example :
    (validate_config (config_with 64) ≡ validated (record { value = config_with 64 }))
    ↔ IsAcceptable (config_with 64)
validate_config_iff_example = validate_config_iff (config_with 64)

validate_config-Fault_example : Fault (config_with 0) no_capacity.code
validate_config-Fault_example =
    validate_config-Fault (config_with 0) no_capacity no_capacity-reported
