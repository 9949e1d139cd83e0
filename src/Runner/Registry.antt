-- ===== src/Runner/Registry.antt =====
-- internal/adapters/runner/executor_registry.go: the registered executors and the choice among them.
-- The checks behind the executors are fields of `Checks`, as they are function values in the source.
pub mod Laws
use webguard_instance.Base.{
  ℤ, pos, ltb_ℤ, String, Bool, true, false, ◌&&◌, Option, none, some, List, [], ◌∷◌, ◌++◌, str_eq,
  contains, is_some, if◌then◌else◌,
}
use webguard_instance.Monitor.Types.{
  Monitoring, MonitoringResponsePayload, type_http, type_ping, type_keyword, type_port,
  type_dns_record, type_domain_expiration,
}
use webguard_instance.Runner.Execution.{
  Execution, no_execution, phase_response, phase_ssl, phase_domain_expiration,
}

-- functionExecutor
pub record Executor : Type 0 where
  pub name : String
  pub phase : String
  pub monitoring_types : List String
  pub execute : Monitoring → Execution

unfoldable pub find : List Executor → String → String → Option Executor
find [] phase type = none
find (e ∷ es) phase type =
    if str_eq e.phase phase && contains e.monitoring_types type then some e else find es phase type

unfoldable pub supports : List Executor → String → String → Bool
supports executors phase type = is_some (find executors phase type)

-- The inner loop of Types: `seen` holds what `types` holds.
add_types : List String → List String → List String
add_types types [] = types
add_types types (t ∷ ts) = add_types (if contains types t then types else types ++ t ∷ []) ts

types_from : List String → List Executor → String → List String
types_from types [] phase = types
types_from types (e ∷ es) phase =
    types_from (if str_eq e.phase phase then add_types types e.monitoring_types else types) es phase

unfoldable pub types : List Executor → String → List String
unfolding types_from add_types
types executors phase = types_from [] executors phase

unfoldable pub bounded_monitoring_timeout : ℤ → ℤ
bounded_monitoring_timeout timeout =
    if ltb_ℤ timeout (pos 0) then pos 0 else if ltb_ℤ (pos 60) timeout then pos 60 else timeout

set_interval : ℤ → MonitoringResponsePayload → MonitoringResponsePayload
set_interval interval p = record p { check_interval_seconds = some interval }

-- The response's interval is set if there is a response and the interval is positive.
report_interval : Monitoring → Option MonitoringResponsePayload → Option MonitoringResponsePayload
unfolding set_interval
report_interval m none = none
report_interval m (some p) =
    if ltb_ℤ (pos 0) m.check_interval_seconds
    then some (set_interval m.check_interval_seconds p)
    else some p

run_executor : Executor → Monitoring → Execution
unfolding report_interval bounded_monitoring_timeout
run_executor e m =
    let bounded = record m { timeout = bounded_monitoring_timeout m.timeout } in
    let execution = e.execute bounded in
    record execution { response = report_interval bounded execution.response }

unfoldable pub execute : List Executor → String → Monitoring → Execution × Bool
unfolding find run_executor
execute executors phase m = elim (find executors phase m.type) [
  | none ↦ (no_execution, false)
  | some e ↦ (run_executor e m, true)
]

-- The methods executeHTTP to executeDomainExpiration of the service.
pub record Checks : Type 0 where
  pub http : Monitoring → Execution
  pub ping : Monitoring → Execution
  pub keyword : Monitoring → Execution
  pub port : Monitoring → Execution
  pub dns_record : Monitoring → Execution
  pub ssl : Monitoring → Execution
  pub domain_expiration : Monitoring → Execution

unfoldable pub new_executor_registry : Checks → List Executor
new_executor_registry checks =
    record {
      name = "http";
      phase = phase_response;
      monitoring_types = type_http ∷ [];
      execute = checks.http;
    }
    ∷ record {
      name = "ping";
      phase = phase_response;
      monitoring_types = type_ping ∷ [];
      execute = checks.ping;
    }
    ∷ record {
      name = "keyword";
      phase = phase_response;
      monitoring_types = type_keyword ∷ [];
      execute = checks.keyword;
    }
    ∷ record {
      name = "tcp-port";
      phase = phase_response;
      monitoring_types = type_port ∷ [];
      execute = checks.port;
    }
    ∷ record {
      name = "dns-record";
      phase = phase_response;
      monitoring_types = type_dns_record ∷ [];
      execute = checks.dns_record;
    }
    ∷ record {
      name = "tls-certificate";
      phase = phase_ssl;
      monitoring_types = type_http ∷ type_keyword ∷ type_port ∷ [];
      execute = checks.ssl;
    }
    ∷ record {
      name = "domain-expiration";
      phase = phase_domain_expiration;
      monitoring_types = type_domain_expiration ∷ [];
      execute = checks.domain_expiration;
    }
    ∷ []
