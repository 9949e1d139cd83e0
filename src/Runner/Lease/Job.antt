-- ===== src/Runner/Lease/Job.antt =====
-- runClaimedJob of internal/adapters/runner/job_leases.go. `Env` holds what the environment decides
-- in one run: clock readings, whether an execution slot was got, cancellation, Core's answers. The
-- renewal goroutine runs beside the execution; its effects stand where the worker waits for it.
pub mod Settlement
pub mod Lifecycle
pub mod Life
use webguard_instance.Base.{
  ℤ, pos, ltb_ℤ, String, Bool, true, false, not, ◌&&◌, ◌||◌, Option, none, some, List, [], ◌∷◌,
  ◌++◌, str_eq, trim_space, if◌then◌else◌,
}
use webguard_instance.Monitor.Types.{Instant, Monitoring, ClaimedJob}
use webguard_instance.Application.Telemetry.{Op, starts, finishes, drops, moves, waits}
use webguard_instance.Runner.Idempotency.{Bytes16}
use webguard_instance.Runner.Execution.{Execution, maintenance_execution, execution_outcome}
use webguard_instance.Runner.Registry.{Executor, supports, execute}
use webguard_instance.Runner.Trace.{Effect, tel, Traced, pure, emit, note, ◌>>=◌, ◌>>◌}
use webguard_instance.Runner.Lease.Validate.{
  is_lease_phase, lease_metric_phase, validate_claimed_job,
}
use webguard_instance.Runner.Lease.Renewal.{Round, Renewal, renew, stop}
use webguard_instance.Runner.Lease.Publish.{complete_claimed_job, release_claimed_job}

pub record Env : Type 0 where
  pub dual_write : Bool
  pub executors : List Executor
  -- the clock at the check of the lease, and the durations that are measured
  pub checked_at : Instant
  pub waited : ℤ
  pub elapsed : ℤ
  pub random : Option Bytes16
  pub complete_accepted : Bool
  pub release_accepted : Bool
  pub rounds : List Round
  pub last_look : Instant
  pub stopped_at : Instant
  pub slot_acquired : Bool
  pub parent_canceled : Bool

-- The refusals before the job starts.
refuse : Env → ClaimedJob → String → String → String → Traced (Unit {0})
refuse env job phase outcome reason = do
  note (drops phase outcome)
  note (moves "queued" outcome)
  _ ← release_claimed_job env.release_accepted job reason
  pure tt

-- A job that has started ends in a state, with an outcome.
finish : Env → String → String → String → Traced (Unit {0})
finish env phase state outcome = do
  note (moves "running" state)
  note (finishes phase outcome env.elapsed)

complete : Env → ClaimedJob → Execution → Traced Bool
complete env job e = complete_claimed_job env.dual_write env.random env.complete_accepted job e

end_completion : Env → String → Bool → String → Traced (Unit {0})
end_completion env phase completed outcome =
    if completed
    then finish env phase "completed" outcome
    else finish env phase "completion_failed" "completion_failed"

in_maintenance : Env → ClaimedJob → String → Traced (Unit {0})
in_maintenance env job phase = do
  completed ← complete env job (maintenance_execution phase job.monitoring.id)
  end_completion env phase completed "maintenance"

release_running : Env → ClaimedJob → String → String → Traced (Unit {0})
release_running env job phase reason = do
  _ ← release_claimed_job env.release_accepted job reason
  finish env phase "released" "canceled"

-- After the execution: `lost` is what stopRenewal returned.
settle : Env → ClaimedJob → String → Bool → Execution → Traced (Unit {0})
settle env job phase lost execution =
    if env.parent_canceled || lost
    then release_running env job phase
        (if lost then "lease renewal failed" else "execution canceled")
    else do
      completed ← complete env job execution
      end_completion env phase completed (execution_outcome execution)

expired_note : Bool → Traced (Unit {0})
expired_note lost = if lost then note (Op.leases "expired") else pure tt

after_renewal : Env → ClaimedJob → String → Bool → Traced (Unit {0})
after_renewal env job phase lost =
    if env.slot_acquired
    then settle env job phase lost (execute env.executors phase job.monitoring).0
    else do release_running env job phase "execution canceled before start"; expired_note lost

lease_renewal : Env → ClaimedJob → Renewal
lease_renewal env job = renew job job.lease_expires_at env.rounds env.last_look

lease_lost : Env → ClaimedJob → Bool
lease_lost env job = stop (lease_renewal env job) env.stopped_at

run_leased : Env → ClaimedJob → String → Traced (Unit {0})
run_leased env job phase = do
  (tt, (lease_renewal env job).effects)
  after_renewal env job phase (lease_lost env job)

choose : Env → ClaimedJob → String → Traced (Unit {0})
choose env job phase =
    if job.monitoring.maintenance_active
    then in_maintenance env job phase
    else run_leased env job phase

start : Env → ClaimedJob → String → Traced (Unit {0})
start env job phase = do
  note (waits env.waited)
  note starts
  note (moves "queued" "running")
  choose env job phase

pub run_claimed_job : Env → ClaimedJob → Traced (Unit {0})
run_claimed_job env job =
    let phase = trim_space job.phase in
    let reason = validate_claimed_job job in
    if not (is_lease_phase phase) || not (supports env.executors phase job.monitoring.type)
    then refuse env job (lease_metric_phase job.phase) "released" "unsupported monitoring job"
    else if not (str_eq reason "")
    then refuse env job phase "invalid" reason
    else if not (ltb_ℤ env.checked_at job.lease_expires_at)
    then refuse env job phase "released" "lease expired before execution"
    else start env job phase
