-- ===== src/Target.antt =====
-- internal/adapters/target/target.go: what a monitoring may reach. url.Parse, netip.ParseAddr and the
-- functions on host:port texts are a parameter (`Parsers`); what the resolver answers is an argument
-- of each call that asks it, since two calls may get two answers.
pub mod Address
pub mod Usable
pub mod Safe
pub mod Examples
use webguard_instance.Base.{
  ℕ, ℤ, pos, leb_ℤ, String, Bool, true, false, not, ◌&&◌, ◌||◌, Option, none, some, List, [], ◌∷◌,
  codes, lower, ltb, ◌==◌, str_eq, trim_space, if◌then◌else◌, ◌+s◌,
}
use webguard_instance.Base.Chars.{byte_length, equal_fold, has_part, has_suffix, trim}
use webguard_instance.Base.Result.{Result, ok, err, ◌>>=◌, ◌>>◌}
use webguard_instance.Monitor.Numbers.{format_int}
use webguard_instance.Target.Address.{Addr, is_unsafe_address}

-- What the code reads of a url.URL; `user` tells whether there is one.
pub record Url : Type 0 where
  pub scheme : String
  pub user : Bool
  pub host : String
  pub path : String
  pub raw_query : String
  pub fragment : String

-- An address and the text that netip.Addr.String gives for it.
pub record Ip : Type 0 where
  pub address : Addr
  pub text : String

-- Functions of net/url, net and net/netip; none of them keeps a state.
pub record Parsers : Type 0 where
  pub parse_url : String → Result String Url
  pub hostname : Url → String
  pub url_text : Url → String
  pub split_host_port : String → Result String (String × String)
  pub join_host_port : String → String → String
  pub parse_addr : String → Option Ip

pub record EgressPolicy : Type 0 where
  pub allow_private : Bool

-- The checks that extractHostPort and HTTPURL begin with.
unfoldable pub read_target : String → Result String String
read_target raw_target =
    let target = trim_space raw_target in
    if str_eq target ""
    then err "target is empty"
    else if ltb 4096 (byte_length (codes target))
    then err "target exceeds maximum length"
    else ok target

-- The host of a parsed URL, if there is one.
host_or : String → Result String Url → String
host_or target (err e) = target
host_or target (ok parsed) = if str_eq parsed.host "" then target else parsed.host

host_port_text : Parsers → String → Result String String
unfolding host_or
host_port_text p target =
    if has_part (codes target) (codes "://")
    then (do parsed ← p.parse_url target; ok parsed.host)
    else ok (host_or target (p.parse_url ("//" +s target)))

split_or_whole : String → Result String (String × String) → String × String
split_or_whole host_port (ok parts) = parts
split_or_whole host_port (err e) = (host_port, "")

unfoldable pub extract_host_port : Parsers → String → Result String (String × String)
unfolding read_target host_port_text split_or_whole
extract_host_port p raw_target = do
  target ← read_target raw_target
  text ← host_port_text p target
  let host_port = trim_space text
  if str_eq host_port ""
      then err "target host is empty"
      else ok (split_or_whole host_port (p.split_host_port host_port))

unfoldable pub tcp_address : Parsers → String → ℤ → Result String String
unfolding extract_host_port
tcp_address p raw_target port = do
  parts ← extract_host_port p raw_target
  if leb_ℤ port (pos 0)
      then err ("invalid port " +s format_int port)
      else ok (p.join_host_port parts.0 (format_int port))

unfoldable pub host : Parsers → String → Result String String
unfolding extract_host_port
host p raw_target = do parts ← extract_host_port p raw_target; ok parts.0

unfoldable pub ssl_address_and_server_name : Parsers → String → Result String (String × String)
unfolding extract_host_port
ssl_address_and_server_name p raw_target = do
  parts ← extract_host_port p raw_target
  let port = if str_eq parts.1 "" then "443" else parts.1
  ok (p.join_host_port parts.0 port, parts.0)

-- The loop of resolveHostIPs over the answer.
unfoldable pub refuse_private : EgressPolicy → List Ip → Result String (Unit {0})
unfolding is_unsafe_address
refuse_private policy [] = ok tt
refuse_private policy (ip ∷ ips) =
    let rest = refuse_private policy ips in
    if not policy.allow_private && is_unsafe_address ip.address
    then err ("private target address is not allowed: " +s ip.text)
    else rest

is_empty : List Ip → Bool
is_empty [] = true
is_empty (ip ∷ ips) = false

-- A literal address is not looked up.
resolve : Result String (List Ip) → String → EgressPolicy → Option Ip → Result String (List Ip)
unfolding refuse_private is_empty is_unsafe_address
resolve answer name policy (some ip) =
    if not policy.allow_private && is_unsafe_address ip.address
    then err ("private target address is not allowed: " +s name)
    else ok (ip ∷ [])
resolve answer name policy none = do
  ips ← answer
  if is_empty ips
      then err ("target host has no IP addresses: " +s name)
      else do refuse_private policy ips; ok ips

unfoldable pub resolve_host_ips :
    Parsers → Result String (List Ip) → String → EgressPolicy → Result String (List Ip)
unfolding resolve
resolve_host_ips p answer name policy = resolve answer name policy (p.parse_addr name)

unfoldable pub is_bracket : ℕ → Bool
is_bracket c = c == b'[' || c == b']'

is_local_name : String → Bool
is_local_name name =
    equal_fold name "localhost" || has_suffix (lower (codes name)) (codes ".localhost")

unfoldable pub validate_host :
    Parsers → Result String (List Ip) → String → EgressPolicy → Result String (Unit {0})
unfolding resolve_host_ips is_bracket is_local_name
validate_host p answer name policy =
    let bare = trim is_bracket (trim_space name) in
    if str_eq bare ""
    then err "target host is empty"
    else if policy.allow_private
    then ok tt
    else if is_local_name bare
    then err ("private target host is not allowed: " +s bare)
    else do ips ← resolve_host_ips p answer bare policy; ok tt

-- The checks of HTTPURL on the parsed URL; the last is that of the host.
accept_url : Url → Result String (Unit {0}) → Result String Url
accept_url parsed valid =
    if not (str_eq parsed.scheme "http") && not (str_eq parsed.scheme "https")
    then err ("unsupported target scheme: " +s parsed.scheme)
    else if str_eq parsed.host ""
    then err "target host is empty"
    else if parsed.user
    then err "target URL must not contain credentials"
    else valid >> ok parsed

unfoldable pub http_url :
    Parsers → Result String (List Ip) → String → EgressPolicy → Result String Url
unfolding read_target validate_host accept_url
http_url p answer raw_target policy = do
  target ← read_target raw_target
  parsed ← p.parse_url target
  accept_url parsed (validate_host p answer (p.hostname parsed) policy)

-- ips[0], which would panic on an empty list
first_text : List Ip → Option String
first_text [] = none
first_text (ip ∷ ips) = some ip.text

dial_first : Parsers → String → Option String → Option (Result String String)
dial_first p port none = none
dial_first p port (some text) = some (ok (p.join_host_port text port))

pub dial_resolved : Parsers → String → Result String (List Ip) → Option (Result String String)
unfolding first_text dial_first
dial_resolved p port (err e) = some (err e)
dial_resolved p port (ok ips) = dial_first p port (first_text ips)

dial_parts :
    Parsers
    → EgressPolicy
    → Result String (List Ip)
    → Result String (String × String)
    → Option (Result String String)
unfolding resolve_host_ips dial_resolved
dial_parts p policy answer (err e) = some (err e)
dial_parts p policy answer (ok (name, port)) =
    if policy.allow_private
    then some (ok (p.join_host_port name port))
    else dial_resolved p port (resolve_host_ips p answer name policy)

-- The text that is handed to the dialer, or the error; `none` would be a panic.
unfoldable pub safe_dial_context :
    Parsers → EgressPolicy → Result String (List Ip) → String → Option (Result String String)
unfolding dial_parts
safe_dial_context p policy answer target = dial_parts p policy answer (p.split_host_port target)
