-- ===== src/Daemon/Tests.antt =====
-- Arguments of the daemon.
use binance_market_data_gate.Base.{ℕ, List, [], ◌∷◌, ◌≡◌, refl, ◌↔◌, false, is_empty}
use binance_market_data_gate.Registry.{bytes_eq}
use binance_market_data_gate.Daemon.{
  loads_config, help_requested, duplicate_option, help_option, config_option, read_options,
  parse_daemon_config,
}
use binance_market_data_gate.Daemon.Arguments.{parse_daemon_config_iff}

abbrev path : List ℕ
path = b'c' ∷ []

parse_daemon_config_iff_example :
    (parse_daemon_config (config_option ∷ path ∷ []) ≡ loads_config path)
    ↔ ((config_option ∷ path ∷ [] ≡ config_option ∷ path ∷ []) × (is_empty path ≡ false))
parse_daemon_config_iff_example = parse_daemon_config_iff (config_option ∷ path ∷ []) path

asks-help : parse_daemon_config (help_option ∷ []) ≡ help_requested
unfolding parse_daemon_config bytes_eq
asks-help = refl

repeats-option :
    parse_daemon_config (config_option ∷ path ∷ config_option ∷ path ∷ []) ≡ duplicate_option
unfolding parse_daemon_config read_options bytes_eq
repeats-option = refl
