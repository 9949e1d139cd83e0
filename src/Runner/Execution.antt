-- ===== src/Runner/Execution.antt =====
-- The Execution of internal/adapters/runner/executor_registry.go, and its small helpers there and in
-- job_leases.go. A pointer to a payload is an `Option`.
use webguard_instance.Base.{ℤ, String, Bool, Option, none, some, str_eq, if◌then◌else◌, ◌+s◌}
use webguard_instance.Monitor.Types.{
  Float64, RawObservation, MonitoringResponsePayload, SslResultPayload, DomainResultPayload,
  JobResult, status_unknown,
}

abbrev pub phase_response : String
phase_response = "response"

abbrev pub phase_ssl : String
phase_ssl = "ssl"

abbrev pub phase_domain_expiration : String
phase_domain_expiration = "domain_expiration"

pub record Execution : Type 0 where
  pub response : Option MonitoringResponsePayload
  pub ssl : Option SslResultPayload
  pub domain : Option DomainResultPayload

abbrev pub no_execution : Execution
no_execution = record { response = none; ssl = none; domain = none }

unfoldable pub response_execution_with_observation :
    String → String → Option Float64 → Option ℤ → Option RawObservation → Execution
response_execution_with_observation id status response_time code observation = record {
  response = some (record {
    monitoring_id = id;
    idempotency_key = "";
    status = status;
    response_time = response_time;
    http_status_code = code;
    check_interval_seconds = none;
    observation = observation;
  });
  ssl = none;
  domain = none;
}

unfoldable pub response_execution : String → String → Option Float64 → Option ℤ → Execution
unfolding response_execution_with_observation
response_execution id status response_time code =
    response_execution_with_observation id status response_time code none

unfoldable pub maintenance_execution : String → String → Execution
unfolding response_execution
maintenance_execution phase id =
    if str_eq phase phase_ssl then no_execution else response_execution id status_unknown none none

valid_outcome : Bool → String
valid_outcome is_valid = if is_valid then "up" else "down"

-- executionOutcome
outcome_of :
    Option MonitoringResponsePayload → Option SslResultPayload → Option DomainResultPayload → String
unfolding valid_outcome
outcome_of (some r) ssl domain = r.status
outcome_of none (some s) domain = valid_outcome s.is_valid
outcome_of none none (some d) = valid_outcome d.is_valid
outcome_of none none none = "unknown"

unfoldable pub execution_outcome : Execution → String
unfolding outcome_of
execution_outcome e = outcome_of e.response e.ssl e.domain

unfoldable pub job_result : Execution → JobResult
job_result e = record { response = e.response; ssl = e.ssl; domain = e.domain }

set_response_key : String → MonitoringResponsePayload → MonitoringResponsePayload
set_response_key key p = record p { idempotency_key = key }

set_ssl_key : String → SslResultPayload → SslResultPayload
set_ssl_key key p = record p { idempotency_key = key }

set_domain_key : String → DomainResultPayload → DomainResultPayload
set_domain_key key p = record p { idempotency_key = key }

over {ℓ} : {A : Type ℓ} → (A → A) → Option A → Option A
over f none = none
over f (some a) = some (f a)

unfoldable pub set_execution_idempotency_key : Execution → String → Execution
unfolding over set_response_key set_ssl_key set_domain_key
set_execution_idempotency_key e key = record {
  response = over (set_response_key key) e.response;
  ssl = over (set_ssl_key key) e.ssl;
  domain = over (set_domain_key key) e.domain;
}

-- Execution.String: what fmt makes of a number under %v is a parameter; a nil pointer is "<nil>".
pub record Shows : Type 0 where
  pub float : Float64 → String
  pub int : ℤ → String

shown : {A : Type 0} → (A → String) → Option A → String
shown show none = "<nil>"
shown show (some a) = show a

response_string : Shows → MonitoringResponsePayload → String
unfolding shown
response_string f r =
    "status="
    +s r.status
    +s " response_time="
    +s shown f.float r.response_time
    +s " http_status_code="
    +s shown f.int r.http_status_code

ssl_string : Option SslResultPayload → String
ssl_string none = "no result"
ssl_string (some s) = if s.is_valid then "ssl_valid=true" else "ssl_valid=false"

unfoldable pub execution_string : Shows → Execution → String
unfolding response_string ssl_string
execution_string f e = elim e.response [ none ↦ ssl_string e.ssl | some r ↦ response_string f r ]
