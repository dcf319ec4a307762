-- ===== src/Daemon.antt =====
-- The daemon's arguments: `parse_daemon_config` of src/production/daemon_config.cpp, up to the loading
-- of the file.
pub mod Arguments
pub mod Tests
use binance_market_data_gate.Base.{
  ℕ, Bool, true, false, not, List, [], ◌∷◌, if◌then◌else◌, is_empty,
}
use binance_market_data_gate.Registry.{bytes_eq}

-- What the arguments ask for: the help, the loading of a file, or an error's message.
pub data DaemonArguments : Type 0 where
  help_requested : DaemonArguments
  loads_config : (path : List ℕ) → DaemonArguments
  unknown_option : (option : List ℕ) → DaemonArguments
  duplicate_option missing_value config_required : DaemonArguments

-- "--help" and "--config".
abbrev pub help_option : List ℕ
help_option = b'-' ∷ b'-' ∷ b'h' ∷ b'e' ∷ b'l' ∷ b'p' ∷ []

abbrev pub config_option : List ℕ
config_option = b'-' ∷ b'-' ∷ b'c' ∷ b'o' ∷ b'n' ∷ b'f' ∷ b'i' ∷ b'g' ∷ []

-- The loop, with the path and whether it was seen.
unfoldable pub read_options : Bool → List ℕ → List (List ℕ) → DaemonArguments
read_options seen path [] = if seen then loads_config path else config_required
read_options seen path (option ∷ []) =
    if not (bytes_eq option config_option)
    then unknown_option option
    else if seen
    then duplicate_option
    else missing_value
read_options seen path (option ∷ value ∷ rest) =
    let onward = read_options true value rest in
    if not (bytes_eq option config_option)
    then unknown_option option
    else if seen
    then duplicate_option
    else if is_empty value
    then missing_value
    else onward

abbrev is_help : List (List ℕ) → Bool
is_help (option ∷ []) = bytes_eq option help_option
is_help _ = false

-- For the arguments after the program's name.
unfoldable pub parse_daemon_config : List (List ℕ) → DaemonArguments
unfolding read_options
parse_daemon_config arguments =
    if is_help arguments then help_requested else read_options false [] arguments
