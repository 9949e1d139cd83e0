-- ===== src/Runner/Checks/Crawls.antt =====
-- crawlMonitoringSSL and crawlDomainExpiration of internal/adapters/runner/runner.go.
use webguard_instance.Base.{
  ℤ, pos, ltb_ℤ, ◌+ℤ◌, String, Bool, true, false, not, ◌&&◌, ◌||◌, Option, none, some, List, [],
  ◌∷◌, str_eq, if◌then◌else◌,
}
use webguard_instance.Base.Result.{Result, ok, err}
use webguard_instance.Monitor.Types.{
  Monitoring, Instant, is_zero, SslResultPayload, DomainResultPayload, status_up, status_down,
  status_unknown,
}
use webguard_instance.Target.{ssl_address_and_server_name}
use webguard_instance.Runner.Checks.{World, Certificate, DomainResult, dials}

-- The certificate that a connection shows first, if it is valid now and for the name.
unfoldable pub valid_certificate : World → String → Certificate → Bool
valid_certificate w name c =
    not (ltb_ℤ w.now c.not_before || ltb_ℤ c.not_after w.now) && c.has_name name

issuer_of : Certificate → Option String
issuer_of c =
    let name = if str_eq c.common_name "" then c.issuer else c.common_name in
    if str_eq name "" then none else some name

unfoldable pub no_ssl : Monitoring → SslResultPayload
no_ssl m = record {
  monitoring_id = m.id;
  idempotency_key = "";
  is_valid = false;
  expires_at = none;
  issuer = none;
  issued_at = none;
}

unfoldable pub first_certificate :
    World → Monitoring → String → Option (List Certificate) → SslResultPayload
unfolding valid_certificate issuer_of no_ssl
first_certificate w m name none = no_ssl m
first_certificate w m name (some []) = no_ssl m
first_certificate w m name (some (c ∷ cs)) =
    if valid_certificate w name c
    then record {
      monitoring_id = m.id;
      idempotency_key = "";
      is_valid = true;
      expires_at = some c.not_after;
      issuer = issuer_of c;
      issued_at = some c.not_before;
    }
    else no_ssl m

unfoldable pub ssl_address : World → Monitoring → Result String (String × String) → SslResultPayload
unfolding first_certificate no_ssl dials
ssl_address w m (err e) = no_ssl m
ssl_address w m (ok (address, name)) =
    if dials w address then first_certificate w m name (w.handshake name) else no_ssl m

unfoldable pub crawl_monitoring_ssl : World → Monitoring → SslResultPayload
unfolding ssl_address ssl_address_and_server_name
crawl_monitoring_ssl w m = ssl_address w m (ssl_address_and_server_name w.parsers m.target)

-- 30 * 24 hours
abbrev thirty_days : ℤ
thirty_days = pos 2592000000000000

expires_late : Option Instant → Instant → Bool
expires_late none checked_at = false
expires_late (some t) checked_at = ltb_ℤ (checked_at +ℤ thirty_days) t

valid_domain : DomainResult → Instant → Bool
unfolding expires_late
valid_domain r checked_at = r.registered && expires_late r.expires_at checked_at

-- `err true` is a temporary error.
domain_result : World → Monitoring → Result Bool DomainResult → String × Option DomainResultPayload
unfolding valid_domain
domain_result w m (err true) = (status_unknown, none)
domain_result w m (err false) = (
  status_down,
  some (record {
    monitoring_id = m.id;
    idempotency_key = "";
    is_valid = false;
    expires_at = none;
    registrar = none;
    checked_at = w.now;
  }),
)
domain_result w m (ok r) =
    let checked_at = if is_zero r.checked_at then w.now else r.checked_at in
    (
      if valid_domain r checked_at then status_up else status_down,
      some (record {
        monitoring_id = m.id;
        idempotency_key = "";
        is_valid = valid_domain r checked_at;
        expires_at = r.expires_at;
        registrar = r.registrar;
        checked_at = checked_at;
      }),
    )

unfoldable pub crawl_domain_expiration : World → Monitoring → String × Option DomainResultPayload
unfolding domain_result
crawl_domain_expiration w m = domain_result w m (w.domain_lookup m.target)
