-- ===== src/Runner/Checks.antt =====
-- What the checks of internal/adapters/runner/runner.go share: what the network, the ping command, TLS and the
-- domain lookup answer is an argument (`World`).
pub mod Responses
pub mod Crawls
pub mod Executors
pub mod Reach
pub mod Examples
use webguard_instance.Base.{
  ℤ, pos, leb_ℤ, ltb_ℤ, leb, ltb, ◌+ℤ◌, ◌*ℤ◌, String, Bool, true, false, not, ◌&&◌, ◌||◌, Option,
  none, some, List, [], ◌∷◌, ◌++◌, codes, str_eq, if◌then◌else◌,
}
use webguard_instance.Base.Chars.{has_part}
use webguard_instance.Base.Result.{Result, ok, err}
use webguard_instance.Base.Time.{second}
use webguard_instance.Monitor.Numbers.{format_int}
use webguard_instance.Monitor.Types.{
  Monitoring, RawObservation, Float64, Instant, is_zero, SslResultPayload, DomainResultPayload,
  status_up, status_down, status_unknown,
}
use webguard_instance.Target.{
  Ip, Parsers, EgressPolicy, host, tcp_address, ssl_address_and_server_name, validate_host,
  safe_dial_context,
}
use webguard_instance.Runner.Dns.{Texts, Lookup, ParsedIp, four, sixteen}
use webguard_instance.Runner.Dns
use webguard_instance.Runner.Execution.{
  Execution, response_execution, response_execution_with_observation,
}
use webguard_instance.Runner.Http.{Formats}
use webguard_instance.Runner.Http.Rounds.{Network, HttpCheckResult}
use webguard_instance.Runner.Http.Perform.{perform_http_request}
use webguard_instance.Runner.Registry.{Checks}

-- What a certificate says; `issuer` is the text of the whole name.
pub record Certificate : Type 0 where
  pub not_before : Instant
  pub not_after : Instant
  pub has_name : String → Bool
  pub common_name : String
  pub issuer : String

-- domainlookup.Result, and whether an error of the lookup is temporary.
pub record DomainResult : Type 0 where
  pub registered : Bool
  pub expires_at : Option Instant
  pub registrar : Option String
  pub checked_at : Instant

-- What the program does not decide. The resolver answers once when a host is validated and once when it is
-- dialled. The ping command gives its latency, if its output shows one, and whether it failed; the
-- handshake with a server name gives the certificates, if it succeeds.
pub record World : Type 0 where
  pub parsers : Parsers
  pub formats : Formats
  pub texts : Texts
  pub parse_ip : String → Option ParsedIp
  pub policy : EgressPolicy
  pub start : Instant
  pub now : Instant
  pub elapsed : Float64
  pub answer : Result String (List Ip)
  pub dial_answer : Result String (List Ip)
  pub network : Network
  pub resolve : String → String → ℤ → Result String (List String)
  pub connects : String → Bool
  pub ping : List String → Option Float64 × Bool
  pub handshake : String → Option (List Certificate)
  pub domain_lookup : String → Result Bool DomainResult

unfoldable pub begun : World → Monitoring → RawObservation
begun w m = record {
  type = m.type;
  observed_at = w.start;
  http_status_code = none;
  response_time = none;
  transport_error = none;
  connected = none;
  keyword_matched = none;
  dns_record_type = "";
  dns_expected_values = [];
  dns_observed_values = [];
  dns_matched = none;
  metadata = [];
}

abbrev pub Observed : Type 0
Observed = String × Option Float64 × Option ℤ × RawObservation

unfoldable pub unreached : World → Monitoring → String → Observed
unfolding begun
unreached w m reason = (
  status_down,
  none,
  none,
  record (begun w m) { connected = some false; transport_error = some reason },
)

-- A connection to an address by the function that dials; `none` of its result would be a panic.
unfoldable pub connected_to : World → Option (Result String String) → Bool
connected_to w none = false
connected_to w (some (err e)) = false
connected_to w (some (ok text)) = w.connects text

unfoldable pub dials : World → String → Bool
unfolding connected_to safe_dial_context
dials w address = connected_to w (safe_dial_context w.parsers w.policy w.dial_answer address)
