-- ===== src/Runner/Http/Perform.antt =====
-- performHTTPRequest of internal/adapters/runner/runner.go as a whole, and what it lets net/http follow.
use webguard_instance.Base.{ℕ, leb, String, none, List, [], if◌then◌else◌}
use webguard_instance.Base.Result.{Result, ok, err}
use webguard_instance.Monitor.Types.{Monitoring}
use webguard_instance.Target.{Url, Ip, Parsers, EgressPolicy, http_url, validate_host}
use webguard_instance.Runner.Http.{
  Formats, normalize_headers, normalize_body, http_method, http_request, too_long, too_many,
}
use webguard_instance.Runner.Http.Variants.{http_target_variants}
use webguard_instance.Runner.Http.Rounds.{Network, Entry, HttpCheckResult, check_variants}

abbrev pub fixed_http_max_redirects : ℕ
fixed_http_max_redirects = 5

-- CheckRedirect of the client: what net/http asks before it follows a redirect to a URL, after some requests.
-- The network answers for the whole chain, so this decides what the network may do.
unfoldable pub check_redirect :
    Parsers → EgressPolicy → Result String (List Ip) → Url → ℕ → Result String (Unit {0})
unfolding validate_host
check_redirect p policy answer u via =
    if leb fixed_http_max_redirects via
    then err "stopped after 5 redirects"
    else validate_host p answer (p.hostname u) policy

unfoldable pub requested :
    Parsers → Formats → Network → Monitoring → Url → List Entry × Result String HttpCheckResult
unfolding check_variants http_request http_target_variants normalize_headers normalize_body too_long
    too_many http_method
requested p f network m u =
    let method = http_method m.http_method in
    let headers = normalize_headers f m.http_headers in
    let body = normalize_body f m.http_body in
    if too_long body
    then ([], err "monitoring request body exceeds 1048576 bytes")
    else if too_many headers
    then ([], err "monitoring request headers exceed configured limits")
    else check_variants (http_request m method headers body) network none ""
        (http_target_variants p f u)

unfoldable pub after_target :
    Parsers
    → Formats
    → Network
    → Monitoring
    → Result String Url
    → List Entry × Result String HttpCheckResult
unfolding requested
after_target p f network m (err e) = ([], err e)
after_target p f network m (ok u) = requested p f network m u

unfoldable pub perform_http_request :
    Parsers
    → Formats
    → EgressPolicy
    → Result String (List Ip)
    → Network
    → Monitoring
    → List Entry × Result String HttpCheckResult
unfolding after_target http_url
perform_http_request p f policy answer network m =
    after_target p f network m (http_url p answer m.target policy)
