-- ===== src/Config/Validate/Accepts.antt =====
-- Which configurations pass, and which fault is reported for the others.
use binance_market_data_gate.Base.{
  ◌<◌, ◌≡◌, ◌≢◌, ◌↔◌, ◌⊎◌, inl, inr, Bool, true, false, Bool-cases, ==_iff, ◌==◌, subst, sym, arith,
}
use binance_market_data_gate.Config.Types.{
  binance, spot, usd_m_perpetual, GatewayConfig, ConfigError, ConfigErrorCode, invalid_venue, Venue,
  Market, other_venue, other_market, invalid_market, invalid_symbol, invalid_endpoint,
  invalid_queue_capacity, validated, config_error,
}
use binance_market_data_gate.Config.Symbol.{valid_symbol}
use binance_market_data_gate.Config.Symbol.Utf8.{IsSymbolText, valid_symbol_iff}
use binance_market_data_gate.Config.Endpoint.{valid_host_token}
use binance_market_data_gate.Config.Validate.{
  is_binance, is_supported, validate_endpoint, validate_config,
}

abbrev pub IsSupported : Market → Type 0
IsSupported m = (m ≡ spot) ⊎ (m ≡ usd_m_perpetual)

-- What a configuration must be, field by field.
pub record IsAcceptable (c : GatewayConfig) : Type 0 where
  pub venue : c.venue ≡ binance
  pub market : IsSupported c.market
  pub symbol : IsSymbolText c.symbol
  pub capacity : 0 < c.queue_capacity
  pub host : valid_host_token c.grpc_listen.host ≡ true
  pub port : 0 < c.grpc_listen.port

is_binance_iff : (v : Venue) → (is_binance v ≡ true) ↔ (v ≡ binance)
is_binance_iff binance = ground arith
is_binance_iff (other_venue n) = ground arith

is_supported_iff : (m : Market) → (is_supported m ≡ true) ↔ IsSupported m
is_supported_iff spot = ground arith
is_supported_iff usd_m_perpetual = ground arith
is_supported_iff (other_market n) = ground arith

-- A configuration is validated, unchanged, exactly when its venue is Binance, its market is one of the
-- two supported, its symbol is a symbol text, its capacity and port are positive, and its host is a safe
-- token.
pub validate_config_iff :
    (c : GatewayConfig) → (validate_config c ≡ validated (record { value = c })) ↔ IsAcceptable c
unfolding validate_config validate_endpoint
validate_config_iff c = (
  λ h. record {
    venue = (is_binance_iff c.venue).0 (ground arith);
    market = (is_supported_iff c.market).0 (ground arith);
    symbol = (valid_symbol_iff c.symbol).0 (ground arith);
    capacity = ground arith;
    host = ground arith;
    port = ground arith;
  },
  λ a.
      let v = (is_binance_iff c.venue).1 a.venue in
      let m = (is_supported_iff c.market).1 a.market in
      let s = (valid_symbol_iff c.symbol).1 a.symbol in ground arith,
)

-- The fault behind each error code, after the checks that come before it.
abbrev pub Fault : GatewayConfig → ConfigErrorCode → Type 0
Fault c invalid_venue = c.venue ≢ binance
Fault c invalid_market = (c.venue ≡ binance) × (¬ IsSupported c.market)
Fault c invalid_symbol = (c.venue ≡ binance) × IsSupported c.market × (¬ IsSymbolText c.symbol)
Fault c invalid_queue_capacity =
    (c.venue ≡ binance) × IsSupported c.market × IsSymbolText c.symbol × (c.queue_capacity ≡ 0)
Fault c invalid_endpoint =
    (c.venue ≡ binance)
    × IsSupported c.market
    × IsSymbolText c.symbol
    × (0 < c.queue_capacity)
    × ((valid_host_token c.grpc_listen.host ≡ false) ⊎ (c.grpc_listen.port ≡ 0))

refute : {P : Type 0} {b : Bool} → (b ≡ true) ↔ P → b ≡ false → ¬ P
refute q h p = ground (arith, q.1 p)

endpoint_fault :
    (c : GatewayConfig) (e : ConfigError)
    → validate_endpoint c ≡ config_error e
    → (e.code ≡ invalid_endpoint)
      × ((valid_host_token c.grpc_listen.host ≡ false) ⊎ (c.grpc_listen.port ≡ 0))
unfolding validate_endpoint
endpoint_fault c e h = ground arith

-- If validation gives an error, its code names a check that fails, and all the checks before it hold.
pub validate_config-Fault :
    (c : GatewayConfig) (e : ConfigError) → validate_config c ≡ config_error e → Fault c e.code
unfolding validate_config
validate_config-Fault c e h = elim (Bool-cases (is_binance c.venue)) [
  | inr no_venue ↦
      subst (Fault c) {x = invalid_venue} (ground arith) (refute (is_binance_iff c.venue) no_venue)
  | inl t ↦
      let v = (is_binance_iff c.venue).0 t in
      elim (Bool-cases (is_supported c.market)) [
        | inr no_market ↦
            subst (Fault c) {x = invalid_market} (ground arith)
              (v, refute (is_supported_iff c.market) no_market)
        | inl t' ↦
            let m = (is_supported_iff c.market).0 t' in
            elim (Bool-cases (valid_symbol c.symbol)) [
              | inr no_symbol ↦
                  subst (Fault c) {x = invalid_symbol} (ground arith)
                    (v, m, refute (valid_symbol_iff c.symbol) no_symbol)
              | inl t'' ↦
                  let s = (valid_symbol_iff c.symbol).0 t'' in
                  elim (Bool-cases (c.queue_capacity == 0)) [
                    | inl z ↦
                        subst (Fault c) {x = invalid_queue_capacity} (ground arith)
                          (v, m, s, (==_iff c.queue_capacity 0).0 z)
                    | inr z ↦
                        let rest : validate_endpoint c ≡ config_error e = ground arith in
                        let (k, bad) = endpoint_fault c e rest in
                        subst (Fault c) (sym k) (v, m, s, ground arith, bad)
                  ]
            ]
      ]
]
