-- ===== src/Config/Endpoint.antt =====
-- `valid_host_token`, `parse_port` and `parse_listen_endpoint` of src/config.cpp.
pub mod Grammar
use Prim.Native.String.{String}
use binance_market_data_gate.Base.{
  ℕ, suc, ◌+◌, ◌-◌, ◌%◌, Bool, true, false, not, ◌&&◌, ◌||◌, Option, none, some, List, [], ◌∷◌, ltb,
  leb, ◌==◌, if◌then◌else◌, optional_eq, length, is_empty, drop, get_or,
}
use binance_market_data_gate.Base.Bytes.{find, rfind, substr}
use binance_market_data_gate.Base.Decimal.{
  Errc, success, invalid_argument, result_out_of_range, from_chars_u32,
}
use binance_market_data_gate.Config.Types.{
  ConfigErrorCode, invalid_endpoint, ConfigError, ListenEndpoint, EndpointResult, endpoint,
  endpoint_error,
}

abbrev pub max_host_length : ℕ
max_host_length = 253

-- `error(...)`.
abbrev pub error : ConfigErrorCode → String → String → ConfigError
error code field message = record { code = code; field = field; message = message }

abbrev pub hostname_character : ℕ → Bool
hostname_character c =
    (leb b'a' c && leb c b'z')
    || (leb b'A' c && leb c b'Z')
    || (leb b'0' c && leb c b'9')
    || c == b'.'
    || c == b'-'
    || c == b':'

unfoldable pub hostname_characters : List ℕ → Bool
hostname_characters [] = true
hostname_characters (c ∷ cs) = if not (hostname_character c) then false else hostname_characters cs

unfoldable pub valid_host_token : List ℕ → Bool
valid_host_token value =
    if is_empty value || ltb max_host_length (length value)
    then false
    else hostname_characters value

abbrev pub is_success : Errc → Bool
is_success success = true
is_success _ = false

abbrev pub unsafe_endpoint : EndpointResult
unsafe_endpoint = endpoint_error (
    error invalid_endpoint "grpc-listen"
      "endpoint must contain a non-empty safe ASCII host token and port")

abbrev pub bad_port : EndpointResult
bad_port =
    endpoint_error
      (error invalid_endpoint "grpc-listen" "port must be an integer in the range 1..65535")

unfoldable pub parse_port : List ℕ → List ℕ → EndpointResult
parse_port host port =
    if not (valid_host_token host) || is_empty port
    then unsafe_endpoint
    else let parsed = from_chars_u32 port in
      if not (is_success parsed.ec)
        || not (is_empty parsed.rest)
        || parsed.value == 0
        || ltb 65535 parsed.value
      then bad_port
      else endpoint (record { host = host; port = parsed.value % 65536 })

-- The branch for `[host]:port`, at the position that `value.find(']')` gives.
parse_bracketed : List ℕ → Option ℕ → EndpointResult
parse_bracketed value none =
    endpoint_error (error invalid_endpoint "grpc-listen" "IPv6 endpoints must use [host]:port")
parse_bracketed value (some close_bracket) =
    if leb (length value) (close_bracket + 1) || not (get_or value (close_bracket + 1) 0 == b':')
    then endpoint_error (error invalid_endpoint "grpc-listen" "IPv6 endpoints must use [host]:port")
    else parse_port (substr 1 (close_bracket - 1) value) (drop (close_bracket + 2) value)

-- The branch for `host:port`, at the position that `value.rfind(':')` gives.
parse_plain : List ℕ → Option ℕ → EndpointResult
parse_plain value none =
    endpoint_error
      (error invalid_endpoint "grpc-listen" "endpoint must use host:port or [ipv6]:port")
parse_plain value (some colon) =
    if not (optional_eq (find b':' value) (some colon))
    then endpoint_error
        (error invalid_endpoint "grpc-listen" "endpoint must use host:port or [ipv6]:port")
    else parse_port (substr 0 colon value) (drop (colon + 1) value)

unfoldable pub parse_listen_endpoint : List ℕ → EndpointResult
unfolding parse_bracketed parse_plain
parse_listen_endpoint [] =
    endpoint_error (error invalid_endpoint "grpc-listen" "endpoint is required")
parse_listen_endpoint (front ∷ rest) =
    let value = front ∷ rest in
    if front == b'['
    then parse_bracketed value (find b']' value)
    else parse_plain value (rfind b':' value)
