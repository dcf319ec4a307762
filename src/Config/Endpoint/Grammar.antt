-- ===== src/Config/Endpoint/Grammar.antt =====
-- The texts that `parse_listen_endpoint` accepts, as a grammar.
use native.Mathlib.Numerals.{add-one}
use binance_market_data_gate.Base.{
  ℕ, zero, suc, ◌+◌, ◌-◌, ◌≤◌, ◌<◌, ◌≡◌, refl, ap, ap₂, get_or, ◌∙◌, ◌≢◌, ◌⊎◌, inl, inr, ◌↔◌, true,
  false, some, List, [], ◌∷◌, ◌++◌, ◌==◌, length, length-append, arith, optional_eq→eq,
  Option-cases, Bool-cases, ==_refl, ==_iff, take, drop, take-length_append, drop-suc-length_append,
}
use binance_market_data_gate.Base.Bytes.{
  find, rfind, Lacks, substr, find-append, rfind-append, find_sound,
}
use binance_market_data_gate.Base.Decimal.{
  IsDigits, decimal_value, from_chars_sound, from_chars_complete,
}
use binance_market_data_gate.Config.Types.{ListenEndpoint, endpoint}
use binance_market_data_gate.Config.Endpoint.{
  hostname_character, hostname_characters, valid_host_token, parse_plain, parse_bracketed,
  parse_port, parse_listen_endpoint,
}

-- A port: digits, leading zeros allowed, that stand for a number from 1 to 65535.
pub record IsPort (text : List ℕ) (port : ℕ) : Type 0 where
  pub digits : IsDigits text
  pub some_digit : text ≢ []
  pub number : decimal_value text ≡ port
  pub nonzero : 0 < port
  pub fits : port ≤ 65535

parse_port_sound :
    (host port : List ℕ) (e : ListenEndpoint)
    → parse_port host port ≡ endpoint e
    → (e.host ≡ host) × (valid_host_token host ≡ true) × IsPort port e.port
unfolding parse_port
parse_port_sound host port e h = ground (arith, from_chars_sound port)

parse_port_complete :
    (port : List ℕ) (e : ListenEndpoint)
    → valid_host_token e.host ≡ true
    → IsPort port e.port
    → parse_port e.host port ≡ endpoint e
unfolding parse_port
parse_port_complete [] e h p = absurd (p.some_digit refl)
parse_port_complete (c ∷ cs) e h p =
    ground (arith, from_chars_complete (c ∷ cs) p.digits p.some_digit)

hostname-Lacks :
    (c : ℕ) (value : List ℕ)
    → hostname_character c ≡ false
    → hostname_characters value ≡ true
    → Lacks c value
unfolding hostname_characters
hostname-Lacks c [] h v = tt
hostname-Lacks c (x ∷ xs) h v = ground (arith, hostname-Lacks c xs h)

valid_host-Lacks :
    (c : ℕ) (value : List ℕ)
    → hostname_character c ≡ false
    → valid_host_token value ≡ true
    → Lacks c value
unfolding valid_host_token
valid_host-Lacks c value h v = hostname-Lacks c value h (ground arith)

digits-Lacks : (text : List ℕ) → IsDigits text → Lacks b':' text
digits-Lacks [] d = tt
digits-Lacks (x ∷ xs) d = (ground arith, digits-Lacks xs d.1)

-- `host:port` with no colon in the host, or `[host]:port`.
abbrev pub IsEndpointText : List ℕ → ListenEndpoint → Type 0
IsEndpointText value e =
    (port : List ℕ) × (valid_host_token e.host ≡ true)
    × IsPort port e.port
    × ((Lacks b':' e.host × (value ≡ e.host ++ (b':' ∷ port)))
        ⊎ (value ≡ b'[' ∷ (e.host ++ (b']' ∷ b':' ∷ port))))

parse_plain-append :
    (host port : List ℕ)
    → Lacks b':' host
    → parse_plain (host ++ (b':' ∷ port)) (some (length host)) ≡ parse_port host port
unfolding parse_plain
parse_plain-append host port l = rw (
  find-append b':' host port l,
  ==_refl (length host),
  take-length_append,
  add-one,
  drop-suc-length_append,
)

parse_bracketed_at :
    (value : List ℕ) (c : ℕ)
    → c + 1 < length value
    → get_or value (c + 1) 0 ≡ b':'
    → parse_bracketed value (some c) ≡ parse_port (substr 1 (c - 1) value) (drop (c + 2) value)
unfolding parse_bracketed
parse_bracketed_at value c h e = ground arith

drop_two : (host port : List ℕ) (a b : ℕ) → drop (length host + 2) (host ++ (a ∷ b ∷ port)) ≡ port
drop_two [] port a b = refl
drop_two (x ∷ xs) port a b =
    let e : suc (length xs) + 2 ≡ suc (length xs + 2) = omega arith in rw e (drop_two xs port a b)

get_or_second :
    (host port : List ℕ) (a b : ℕ) → get_or (host ++ (a ∷ b ∷ port)) (length host + 1) 0 ≡ b
get_or_second [] port a b = refl
get_or_second (x ∷ xs) port a b =
    let e : suc (length xs) + 1 ≡ suc (length xs + 1) = omega arith in
    rw e (get_or_second xs port a b)

parse_bracketed-append :
    (host port : List ℕ)
    → parse_bracketed (b'[' ∷ (host ++ (b']' ∷ b':' ∷ port))) (some (suc (length host)))
      ≡ parse_port host port
parse_bracketed-append host port =
    let body = host ++ (b']' ∷ b':' ∷ port) in
    let next : suc (length host) + 1 ≡ suc (length host + 1) = omega arith in
    let after : suc (length host) + 2 ≡ suc (length host + 2) = omega arith in
    let before : suc (length host) - 1 ≡ length host = omega arith in
    parse_bracketed_at (b'[' ∷ body) (suc (length host))
      (omega (arith, length-append host (b']' ∷ b':' ∷ port)))
      (rw next (get_or_second host port b']' b':'))
    ∙ ap₂ parse_port (rw before (take-length_append host (b']' ∷ b':' ∷ port)))
        (rw after (drop_two host port b']' b':'))

valid_host-front : (h : ℕ) (hs : List ℕ) → valid_host_token (h ∷ hs) ≡ true → (h == b'[') ≡ false
unfolding valid_host_token hostname_characters
valid_host-front h hs v = ground arith

plain_complete :
    (host port : List ℕ)
    → valid_host_token host ≡ true
    → IsDigits port
    → Lacks b':' host
    → parse_listen_endpoint (host ++ (b':' ∷ port)) ≡ parse_port host port
unfolding parse_listen_endpoint
plain_complete [] port v d l = unfold valid_host_token in cc
plain_complete (h ∷ hs) port v d l =
    rw (valid_host-front h hs v, rfind-append b':' (h ∷ hs) port (digits-Lacks port d))
      (parse_plain-append (h ∷ hs) port l)

bracketed_complete :
    (host port : List ℕ)
    → valid_host_token host ≡ true
    → parse_listen_endpoint (b'[' ∷ (host ++ (b']' ∷ b':' ∷ port))) ≡ parse_port host port
unfolding parse_listen_endpoint find
bracketed_complete host port v =
    rw (find-append b']' host (b':' ∷ port) (valid_host-Lacks b']' host refl v))
      (parse_bracketed-append host port)

parse_listen_endpoint_complete :
    (value : List ℕ) (e : ListenEndpoint)
    → IsEndpointText value e
    → parse_listen_endpoint value ≡ endpoint e
parse_listen_endpoint_complete value e (port, v, p, inl (l, q)) =
    rw q (plain_complete e.host port v p.digits l ∙ parse_port_complete port e v p)
parse_listen_endpoint_complete value e (port, v, p, inr q) =
    rw q (bracketed_complete e.host port v ∙ parse_port_complete port e v p)

parse_bracketed-inversion :
    (value : List ℕ) (c : ℕ) (e : ListenEndpoint)
    → parse_bracketed value (some c) ≡ endpoint e
    → (c + 1 < length value)
      × (get_or value (c + 1) 0 ≡ b':')
      × (parse_port (substr 1 (c - 1) value) (drop (c + 2) value) ≡ endpoint e)
unfolding parse_bracketed
parse_bracketed-inversion value c e h = ground arith

drop-get_or : (k : ℕ) (xs : List ℕ) → k < length xs → drop k xs ≡ get_or xs k 0 ∷ drop (suc k) xs
drop-get_or k [] h = elim h [ ]
drop-get_or zero (x ∷ xs) h = refl
drop-get_or (suc k) (x ∷ xs) h = drop-get_or k xs (omega arith)

bracketed_sound :
    (rest : List ℕ) (i : ℕ) (e : ListenEndpoint)
    → find b']' rest ≡ some i
    → parse_bracketed (b'[' ∷ rest) (some (suc i)) ≡ endpoint e
    → IsEndpointText (b'[' ∷ rest) e
bracketed_sound rest i e f h =
    let (fits, colon, parsed) = parse_bracketed-inversion (b'[' ∷ rest) (suc i) e h in
    let next : suc i + 1 ≡ suc (suc i) = omega arith in
    let after : suc i + 2 ≡ suc (suc (suc i)) = omega arith in
    let before : suc i - 1 ≡ i = omega arith in
    let (same, v, p) = parse_port_sound _ _ e (rw (before, after) at parsed) in
    let split = drop-get_or (suc i) rest (omega arith) in
    let colon' : get_or rest (suc i) 0 ≡ b':' = rw next at colon in
    (_, rw same v, p, inr (ap (◌∷◌ b'[') ((find_sound b']' rest i f).1 ∙ rw (same, split, colon'))))

plain_sound :
    (value : List ℕ) (i : ℕ) (e : ListenEndpoint)
    → parse_plain value (some i) ≡ endpoint e
    → IsEndpointText value e
unfolding parse_plain
plain_sound value i e h =
    let found : find b':' value ≡ some i =
      ground (arith, optional_eq→eq (find b':' value) (some i)) in
    let parsed : parse_port (take i value) (drop (i + 1) value) ≡ endpoint e = ground arith in
    let (same, v, p) = parse_port_sound _ _ e (rw add-one at parsed) in
    let (l, q) = find_sound b':' value i found in
    (drop (suc i) value, rw same v, p, inl (rw same l, rw same q))

sound_at :
    (front : ℕ) (rest : List ℕ) (e : ListenEndpoint)
    → ((front == b'[') ≡ true) ⊎ ((front == b'[') ≡ false)
    → parse_listen_endpoint (front ∷ rest) ≡ endpoint e
    → IsEndpointText (front ∷ rest) e
unfolding parse_listen_endpoint find
sound_at front rest e (inl t) h = elim (Option-cases (find b']' rest)) [
  | inl n ↦ ground (arith, (==_iff front b'[').0 t)
  | inr (i, f) ↦
      let same = (==_iff front b'[').0 t in rw same (bracketed_sound rest i e f (rw (same, f) at h))
]
sound_at front rest e (inr t) h = elim (Option-cases (rfind b':' (front ∷ rest))) [
  | inl n ↦ ground arith
  | inr (i, f) ↦ plain_sound (front ∷ rest) i e (rw (t, f) at h)
]

parse_listen_endpoint_sound :
    (value : List ℕ) (e : ListenEndpoint)
    → parse_listen_endpoint value ≡ endpoint e
    → IsEndpointText value e
unfolding parse_listen_endpoint
parse_listen_endpoint_sound [] e h = ground arith
parse_listen_endpoint_sound (front ∷ rest) e h =
    sound_at front rest e (Bool-cases (front == b'[')) h

-- `parse_listen_endpoint` accepts exactly the texts `host:port`, with no colon in the host, and
-- `[host]:port`, where the host is a safe token and the port has digits only and is from 1 to 65535;
-- and it gives that host and port.
pub parse_listen_endpoint_iff :
    (value : List ℕ) (e : ListenEndpoint)
    → (parse_listen_endpoint value ≡ endpoint e) ↔ IsEndpointText value e
parse_listen_endpoint_iff value e =
    (parse_listen_endpoint_sound value e, parse_listen_endpoint_complete value e)
