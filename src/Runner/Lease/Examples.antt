-- ===== src/Runner/Lease/Examples.antt =====
-- The theorems on leases at concrete inputs.
use webguard_instance.Base.{
  str_eq, if◌then◌else◌, pos, ◌<ℤ◌, String, true, false, some, List, [], ◌∷◌, ◌++◌, ◌≡◌, All, refl,
  arith, trim_space, ◌-ℤ◌, half_ℤ, min_ℤ, max_ℤ,
}
use webguard_instance.Base.Time.{sub_time}
use webguard_instance.Monitor.Types.{ClaimedJob, Instant}
use webguard_instance.Application.Telemetry.{Telemetry, Op, new_telemetry, apply_all}
use webguard_instance.Application.Telemetry.Life.{finished, next, Interleaving}
use webguard_instance.Runner.Idempotency.{is_uuid_v4}
use webguard_instance.Runner.Execution.{Execution, maintenance_execution, phase_response}
use webguard_instance.Runner.Trace.{Effect, tel, ops}
use webguard_instance.Runner.Samples.{
  sample_key, sample_job, nameless_job, sample_env, sample_bytes,
}
use webguard_instance.Runner.Lease.Renewal.{Renewal, renew, stop}
use webguard_instance.Runner.Lease.Renewal.Laws.{
  IsHonest, renew-IsHonest, losses, extensions, IsInForce, stop_kept,
}
use webguard_instance.Runner.Lease.Publish.{complete_claimed_job}
use webguard_instance.Runner.Lease.Publish.Laws.{IsPost, completion, complete_claimed_job_lem}
use webguard_instance.Runner.Lease.Job.{Env, run_claimed_job}
use webguard_instance.Runner.Lease.Job.Lifecycle.{accept, waiting, ended, accept-run_claimed_job}
use webguard_instance.Runner.Lease.Batch.{unique_jobs}
use webguard_instance.Runner.Lease.Batch.Gauges.{gauges-batch}

accept-run_claimed_job_example :
    accept (some waiting) (ops (run_claimed_job sample_env nameless_job).1) ≡ some ended
accept-run_claimed_job_example = accept-run_claimed_job sample_env nameless_job

abbrev sample_renewal : Renewal
sample_renewal = renew sample_job sample_job.lease_expires_at sample_env.rounds sample_env.last_look

renew-IsHonest_example : IsHonest sample_job sample_renewal
renew-IsHonest_example =
    renew-IsHonest sample_job sample_job.lease_expires_at sample_env.rounds sample_env.last_look

stop_kept_example :
    (deadline : Instant) × IsInForce sample_job.lease_expires_at sample_env.rounds
      (extensions sample_renewal.effects)
      deadline
    × (pos 93000000000 <ℤ deadline)
    × (losses sample_renewal.effects ≡ 0)
unfolding renew stop sub_time half_ℤ min_ℤ max_ℤ ◌-ℤ◌
stop_kept_example =
    stop_kept sample_job sample_job.lease_expires_at sample_env.rounds sample_env.last_look
      (pos 93000000000) refl

abbrev sample_execution : Execution
sample_execution = maintenance_execution phase_response "m-1"

complete_claimed_job_lem_example :
    (before : List Effect) × All (IsPost sample_key) before
    × (false ≡ false → before ≡ [])
    × (complete_claimed_job false (some sample_bytes) true sample_job sample_execution ≡ (
      true,
      before
          ++ completion sample_job sample_key sample_execution ∷ tel (Op.leases "completed") ∷ [],
    ))
unfolding is_uuid_v4 trim_space
complete_claimed_job_lem_example =
    complete_claimed_job_lem false (some sample_bytes) true sample_job sample_execution refl

-- Core sends one job twice, and one without an ID.
abbrev claimed : List ClaimedJob
claimed = sample_job ∷ sample_job ∷ nameless_job ∷ []

alone : (history : List Op) → Interleaving (history ∷ []) history
alone [] = finished ([] ∷ []) (refl, tt)
alone (op ∷ history) = next [] op history [] refl (alone history)

abbrev batch_runs : List (Env × ClaimedJob)
batch_runs = (sample_env, sample_job) ∷ []

abbrev before_batch : Telemetry
before_batch = new_telemetry

abbrev after_batch : Telemetry
after_batch =
    apply_all (apply_all before_batch (unique_jobs [] (sample_job ∷ sample_job ∷ [])).1)
      (ops (run_claimed_job sample_env sample_job).1)

gauges-batch_example : (after_batch.jobs_queued ≡ pos 0) × (after_batch.jobs_active ≡ pos 0)
unfolding unique_jobs new_telemetry trim_space
gauges-batch_example =
    gauges-batch before_batch 0 0 (sample_job ∷ sample_job ∷ []) batch_runs
      (ops (run_claimed_job sample_env sample_job).1) refl refl (omega arith) (omega arith) refl
      (alone (ops (run_claimed_job sample_env sample_job).1))

abbrev sample_environment : String → String
sample_environment name = if str_eq name "QUEUE_DEFAULT_WORKERS" then "500" else ""
