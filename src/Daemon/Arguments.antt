-- ===== src/Daemon/Arguments.antt =====
-- Which arguments the daemon takes: src/production/daemon_config.cpp.
use binance_market_data_gate.Base.{
  ℕ, true, false, List, [], ◌∷◌, is_empty, ◌≡◌, refl, ◌∙◌, ap, ◌↔◌, arith,
}
use binance_market_data_gate.Registry.Order.{bytes_eq→eq, bytes_eq_refl}
use binance_market_data_gate.Daemon.{loads_config, config_option, read_options, parse_daemon_config}

-- After one path only the end of the arguments is taken.
read_options-seen :
    (path p : List ℕ) (rest : List (List ℕ))
    → read_options true path rest ≡ loads_config p
    → (rest ≡ []) × (path ≡ p)
unfolding read_options
read_options-seen path p [] h = ground arith
read_options-seen path p (option ∷ []) h = ground arith
read_options-seen path p (option ∷ value ∷ rest) h = ground arith

-- The daemon loads a file exactly if its arguments are the option and that path, and the path is not
-- empty.
pub parse_daemon_config_iff :
    (arguments : List (List ℕ)) (path : List ℕ)
    → (parse_daemon_config arguments ≡ loads_config path)
      ↔ ((arguments ≡ config_option ∷ path ∷ []) × (is_empty path ≡ false))
unfolding parse_daemon_config read_options
parse_daemon_config_iff arguments path = (sound arguments, complete)
  where
    sound :
        (arguments : List (List ℕ))
        → parse_daemon_config arguments ≡ loads_config path
        → (arguments ≡ config_option ∷ path ∷ []) × (is_empty path ≡ false)
    sound [] h = ground arith
    sound (option ∷ []) h = ground arith
    sound (option ∷ value ∷ rest) h =
        let matched = bytes_eq→eq option config_option in
        let seen = read_options-seen value path rest in ground (arith, matched, seen)

    complete :
        (arguments ≡ config_option ∷ path ∷ []) × (is_empty path ≡ false)
        → parse_daemon_config arguments ≡ loads_config path
    complete (e, f) = ap parse_daemon_config e ∙ rw (f, bytes_eq_refl config_option) refl
