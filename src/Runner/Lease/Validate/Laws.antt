-- ===== src/Runner/Lease/Validate/Laws.antt =====
-- Which claimed jobs are valid.
use webguard_instance.Base.{
  pos, ltb_ℤ, ◌≤ℤ◌, String, Bool, true, false, not, [], str_eq, eq_iff, trim_space, if◌then◌else◌,
  ◌≡◌, ◌≢◌, ◌↔◌, refl, arith, ltb_ℤ_false,
}
use webguard_instance.Monitor.Types.{Monitoring, ClaimedJob, is_zero, type_port, type_dns_record}
use webguard_instance.Runner.Idempotency.{is_uuid_v4}
use webguard_instance.Runner.Lease.Validate.{is_blank, bad_port, bad_dns, validate_claimed_job}

-- What a job must satisfy to be run.
pub record IsValidJob (job : ClaimedJob) : Type 0 where
  pub id_given : is_blank job.id ≡ false
  pub monitoring_id_given : is_blank job.monitoring.id ≡ false
  pub lease_given : is_zero job.lease_expires_at ≡ false
  pub attempt_positive : pos 1 ≤ℤ job.attempt
  pub key_valid : is_uuid_v4 (trim_space job.idempotency_key) ≡ true
  pub target_given : is_blank job.monitoring.target ≡ false
  pub timeout_valid : pos 0 ≤ℤ job.monitoring.timeout
  pub port_valid :
      job.monitoring.type ≡ type_port
      → (pos 1 ≤ℤ job.monitoring.port) × (job.monitoring.port ≤ℤ pos 65535)
  pub dns_valid :
      job.monitoring.type ≡ type_dns_record
      → (is_blank job.monitoring.dns_record_type ≡ false)
        × (job.monitoring.dns_expected_values ≢ [])

bad_port_lem :
    (m : Monitoring)
    → (bad_port m ≡ false) ↔ (m.type ≡ type_port → (pos 1 ≤ℤ m.port) × (m.port ≤ℤ pos 65535))
unfolding bad_port
bad_port_lem m = ground (arith, eq_iff m.type type_port)

bad_dns_lem :
    (m : Monitoring)
    → (bad_dns m ≡ false) ↔ (
        m.type ≡ type_dns_record
        → (is_blank m.dns_record_type ≡ false) × (m.dns_expected_values ≢ []))
unfolding bad_dns
bad_dns_lem m = ground (arith, eq_iff m.type type_dns_record)

-- One case of the switch: a reason that is not empty.
case_lem :
    (b : Bool) (reason rest : String)
    → str_eq reason "" ≡ false
    → ((if b then reason else rest) ≡ "") ↔ ((b ≡ false) × (rest ≡ ""))
case_lem true reason rest h = ((λ e. ground (arith, eq_iff reason "")), λ p. cc (p.0))
case_lem false reason rest h = ((λ e. (refl, e)), λ p. p.1)

of_not-false : (b : Bool) → not b ≡ false → b ≡ true
of_not-false true h = refl
of_not-false false h = cc

validate-IsValidJob : (job : ClaimedJob) → validate_claimed_job job ≡ "" → IsValidJob job
unfolding validate_claimed_job
validate-IsValidJob job h =
    let c1 = (case_lem _ _ _ refl).0 h in
    let c2 = (case_lem _ _ _ refl).0 c1.1 in
    let c3 = (case_lem _ _ _ refl).0 c2.1 in
    let c4 = (case_lem _ _ _ refl).0 c3.1 in
    let c5 = (case_lem _ _ _ refl).0 c4.1 in
    let c6 = (case_lem _ _ _ refl).0 c5.1 in
    let c7 = (case_lem _ _ _ refl).0 c6.1 in
    let c8 = (case_lem _ _ _ refl).0 c7.1 in
    let c9 = (case_lem _ _ _ refl).0 c8.1 in
    record {
      id_given = c1.0;
      monitoring_id_given = c2.0;
      lease_given = c3.0;
      attempt_positive = ltb_ℤ_false job.attempt (pos 1) c4.0;
      key_valid = of_not-false (is_uuid_v4 (trim_space job.idempotency_key)) c5.0;
      target_given = c6.0;
      timeout_valid = ltb_ℤ_false job.monitoring.timeout (pos 0) c7.0;
      port_valid = (bad_port_lem job.monitoring).0 c8.0;
      dns_valid = (bad_dns_lem job.monitoring).0 c9.0;
    }

IsValidJob-validate : (job : ClaimedJob) → IsValidJob job → validate_claimed_job job ≡ ""
unfolding validate_claimed_job
IsValidJob-validate job v = rw (
  v.id_given,
  v.monitoring_id_given,
  v.lease_given,
  attempt_ok,
  v.key_valid,
  v.target_given,
  timeout_ok,
  (bad_port_lem job.monitoring).1 v.port_valid,
  (bad_dns_lem job.monitoring).1 v.dns_valid,
)
  where
    attempt_ok : ltb_ℤ job.attempt (pos 1) ≡ false
    attempt_ok = ground (arith, v.attempt_positive)

    timeout_ok : ltb_ℤ job.monitoring.timeout (pos 0) ≡ false
    timeout_ok = ground (arith, v.timeout_valid)

pub validate_claimed_job-IsValidJob :
    (job : ClaimedJob) → (validate_claimed_job job ≡ "") ↔ IsValidJob job
validate_claimed_job-IsValidJob job = (validate-IsValidJob job, IsValidJob-validate job)
