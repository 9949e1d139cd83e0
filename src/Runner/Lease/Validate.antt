-- ===== src/Runner/Lease/Validate.antt =====
-- isLeasePhase, leaseMetricPhase and validateClaimedJob of internal/adapters/runner/job_leases.go.
pub mod Laws
use webguard_instance.Base.{
  ℤ, pos, ltb_ℤ, ◌≤ℤ◌, String, Bool, true, false, ◌&&◌, ◌||◌, not, List, [], ◌∷◌, str_eq, eq_iff,
  trim_space, if◌then◌else◌, ◌≡◌, ◌≢◌, ◌↔◌, refl, arith, ◌⊎◌,
}
use webguard_instance.Monitor.Types.{Monitoring, ClaimedJob, is_zero, type_port, type_dns_record}
use webguard_instance.Runner.Execution.{phase_response, phase_ssl, phase_domain_expiration}
use webguard_instance.Runner.Idempotency.{is_uuid_v4}

abbrev pub is_lease_phase : String → Bool
is_lease_phase phase =
    str_eq phase phase_response || str_eq phase phase_ssl || str_eq phase phase_domain_expiration

unfoldable pub lease_metric_phase : String → String
lease_metric_phase phase =
    if str_eq (trim_space phase) phase_response
    then phase_response
    else if str_eq (trim_space phase) phase_ssl
    then phase_ssl
    else if str_eq (trim_space phase) phase_domain_expiration
    then phase_domain_expiration
    else "unknown"

abbrev pub is_blank : String → Bool
is_blank s = str_eq (trim_space s) ""

is_empty : List String → Bool
is_empty [] = true
is_empty (x ∷ xs) = false

unfoldable pub bad_port : Monitoring → Bool
bad_port m = str_eq m.type type_port && (ltb_ℤ m.port (pos 1) || ltb_ℤ (pos 65535) m.port)

unfoldable pub bad_dns : Monitoring → Bool
unfolding is_empty
bad_dns m =
    str_eq m.type type_dns_record && (is_blank m.dns_record_type || is_empty m.dns_expected_values)

-- The cases of the switch, in order; the empty reason means that the job is valid.
unfoldable pub validate_claimed_job : ClaimedJob → String
validate_claimed_job job =
    if is_blank job.id
    then "job ID is empty"
    else if is_blank job.monitoring.id
    then "monitoring ID is empty"
    else if is_zero job.lease_expires_at
    then "lease expiration is missing"
    else if ltb_ℤ job.attempt (pos 1)
    then "job attempt must be positive"
    else if not (is_uuid_v4 (trim_space job.idempotency_key))
    then "job idempotency key is invalid"
    else if is_blank job.monitoring.target
    then "monitoring target is empty"
    else if ltb_ℤ job.monitoring.timeout (pos 0)
    then "monitoring timeout must not be negative"
    else if bad_port job.monitoring
    then "monitoring port is invalid"
    else if bad_dns job.monitoring
    then "DNS monitoring configuration is incomplete"
    else ""
