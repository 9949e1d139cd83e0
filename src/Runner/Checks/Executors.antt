-- ===== src/Runner/Checks/Executors.antt =====
-- The bodies of the executors in internal/adapters/runner/executor_registry.go.
use webguard_instance.Base.{String, Option, none, some}
use webguard_instance.Monitor.Types.{Monitoring, RawObservation, Float64, DomainResultPayload}
use webguard_instance.Runner.Dns.{Texts, Lookup, ParsedIp, four, sixteen}
use webguard_instance.Runner.Dns
use webguard_instance.Runner.Execution.{
  Execution, response_execution, response_execution_with_observation,
}
use webguard_instance.Runner.Registry.{Checks}
use webguard_instance.Runner.Checks.{World, Observed}
use webguard_instance.Runner.Checks.Responses.{
  observe_http_monitoring, observe_keyword_monitoring, observe_ping_monitoring,
  observe_port_monitoring,
}
use webguard_instance.Runner.Checks.Crawls.{crawl_monitoring_ssl, crawl_domain_expiration}

observed : Monitoring → Observed → Execution
unfolding response_execution_with_observation
observed m (status, time, code, o) =
    response_execution_with_observation m.id status time code (some o)

dns_execution : Monitoring → String × Option Float64 × RawObservation → Execution
unfolding response_execution_with_observation
dns_execution m (status, time, o) =
    response_execution_with_observation m.id status time none (some o)

domain_execution : Monitoring → String × Option DomainResultPayload → Execution
unfolding response_execution
domain_execution m (status, payload) = record (response_execution m.id status none none) {
  domain = payload;
}

dns_lookup : World → Lookup
dns_lookup w = record { start = w.start; elapsed = w.elapsed; resolve = w.resolve }

-- The bodies of the executors.
unfoldable pub system_checks : World → Checks
unfolding observed dns_execution dns_lookup domain_execution observe_http_monitoring
    observe_keyword_monitoring observe_ping_monitoring observe_port_monitoring crawl_monitoring_ssl
    crawl_domain_expiration Dns.observe
system_checks w = record {
  http = λ m. observed m (observe_http_monitoring w m);
  ping = λ m. observed m (observe_ping_monitoring w m);
  keyword = λ m. observed m (observe_keyword_monitoring w m);
  port = λ m. observed m (observe_port_monitoring w m);
  dns_record = λ m. dns_execution m (Dns.observe w.texts (dns_lookup w) m);
  ssl = λ m. record { response = none; ssl = some (crawl_monitoring_ssl w m); domain = none };
  domain_expiration = λ m. domain_execution m (crawl_domain_expiration w m);
}
