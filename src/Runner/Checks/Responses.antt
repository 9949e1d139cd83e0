-- ===== src/Runner/Checks/Responses.antt =====
-- The HTTP, keyword, ping and port checks of internal/adapters/runner/runner.go.
use webguard_instance.Base.{
  ℤ, pos, leb_ℤ, ltb_ℤ, leb, ltb, String, Bool, true, false, ◌&&◌, Option, none, some, List, [],
  ◌∷◌, ◌++◌, codes, if◌then◌else◌,
}
use webguard_instance.Base.Chars.{has_part}
use webguard_instance.Base.Result.{Result, ok, err}
use webguard_instance.Monitor.Numbers.{format_int}
use webguard_instance.Monitor.Types.{Monitoring, Float64, status_up, status_down}
use webguard_instance.Target.{host, tcp_address, validate_host}
use webguard_instance.Runner.Dns.{ParsedIp, four, sixteen}
use webguard_instance.Runner.Http.Rounds.{HttpCheckResult}
use webguard_instance.Runner.Http.Perform.{perform_http_request}
use webguard_instance.Runner.Checks.{World, Observed, begun, unreached, dials}

unfoldable pub http_check : World → Monitoring → Result String HttpCheckResult
unfolding perform_http_request
http_check w m = (perform_http_request w.parsers w.formats w.policy w.answer w.network m).1

observe_http_result : World → Monitoring → Result String HttpCheckResult → Observed
unfolding begun
observe_http_result w m (err e) =
    (status_down, none, none, record (begun w m) { transport_error = some "http_transport_error" })
observe_http_result w m (ok r) =
    let code = some (pos r.status_code) in
    let o = record (begun w m) {
      http_status_code = some (pos r.status_code);
      response_time = some w.elapsed;
    } in
    if leb 200 r.status_code && ltb r.status_code 400
    then (status_up, some w.elapsed, code, o)
    else (status_down, none, code, o)

unfoldable pub observe_http_monitoring : World → Monitoring → Observed
unfolding observe_http_result http_check
observe_http_monitoring w m = observe_http_result w m (http_check w m)

observe_keyword_result : World → Monitoring → Result String HttpCheckResult → Observed
unfolding begun
observe_keyword_result w m (err e) = (
  status_down,
  none,
  none,
  record (begun w m) {
    transport_error = some "http_transport_error";
    keyword_matched = some false;
  },
)
observe_keyword_result w m (ok r) =
    let matched = has_part (codes r.body) (codes m.keyword) in
    let o = record (begun w m) {
      http_status_code = some (pos r.status_code);
      response_time = some w.elapsed;
      keyword_matched = some matched;
    } in
    if matched
    then (status_up, some w.elapsed, some (pos r.status_code), o)
    else (status_down, none, some (pos r.status_code), o)

unfoldable pub observe_keyword_monitoring : World → Monitoring → Observed
unfolding observe_keyword_result http_check
observe_keyword_monitoring w m = observe_keyword_result w m (http_check w m)

abbrev pub fixed_ping_timeout_seconds : ℤ
fixed_ping_timeout_seconds = pos 5

ip_flag : Option ParsedIp → List String
ip_flag none = []
ip_flag (some (sixteen text)) = "-6" ∷ []
ip_flag (some (four text)) = "-4" ∷ []

unfoldable pub build_ping_command : World → String → ℤ → List String
unfolding ip_flag format_int
build_ping_command w name timeout =
    let seconds = if leb_ℤ timeout (pos 0) then fixed_ping_timeout_seconds else timeout in
    "-c" ∷ "1" ∷ "-W" ∷ format_int seconds ∷ (ip_flag (w.parse_ip name) ++ name ∷ [])

latency_or : Float64 → Option Float64 → Float64
latency_or elapsed none = elapsed
latency_or elapsed (some latency) = latency

pinged : World → Monitoring → Option Float64 × Bool → Observed
unfolding latency_or unreached begun
pinged w m (latency, true) = unreached w m "ping_failed"
pinged w m (latency, false) =
    let time = latency_or w.elapsed latency in
    (
      status_up,
      some time,
      none,
      record (begun w m) { connected = some true; response_time = some time },
    )

ping_host : World → Monitoring → String → Result String (Unit {0}) → Observed
unfolding pinged unreached build_ping_command
ping_host w m name (err e) = unreached w m "target_rejected"
ping_host w m name (ok valid) =
    let timeout = if ltb_ℤ (pos 0) m.timeout then m.timeout else fixed_ping_timeout_seconds in
    pinged w m (w.ping (build_ping_command w name timeout))

ping_target : World → Monitoring → Result String String → Observed
unfolding ping_host unreached validate_host
ping_target w m (err e) = unreached w m "invalid_target"
ping_target w m (ok name) = ping_host w m name (validate_host w.parsers w.answer name w.policy)

unfoldable pub observe_ping_monitoring : World → Monitoring → Observed
unfolding ping_target host
observe_ping_monitoring w m = ping_target w m (host w.parsers m.target)

with_port : Monitoring → Observed → Observed
unfolding format_int
with_port m (status, time, code, o) =
    (status, time, code, record o { metadata = ("port", format_int m.port) ∷ [] })

port_address : World → Monitoring → Result String String → Observed
unfolding dials unreached begun
port_address w m (err e) = unreached w m "invalid_target"
port_address w m (ok address) =
    if dials w address
    then (
      status_up,
      some w.elapsed,
      none,
      record (begun w m) { connected = some true; response_time = some w.elapsed },
    )
    else unreached w m "connection_failed"

unfoldable pub observe_port_monitoring : World → Monitoring → Observed
unfolding with_port port_address unreached tcp_address
observe_port_monitoring w m = with_port m (
    if leb_ℤ m.port (pos 0)
    then unreached w m "invalid_port"
    else port_address w m (tcp_address w.parsers m.target m.port))
