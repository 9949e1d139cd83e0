-- ===== src/Runner/Lease/Batch.antt =====
-- runClaimedJobs of internal/adapters/runner/job_leases.go, and workerLimit of runner.go: one claim,
-- the duplicates taken out, and the jobs queued. The workers then run the queue; each takes one job
-- at a time, so what they do together is an interleaving of the traces of the jobs.
pub mod Unique
pub mod Gauges
pub mod Claim
use webguard_instance.Base.{
  ℤ, pos, ltb_ℤ, min_ℤ, max_ℤ, String, Bool, true, false, not, ◌&&◌, Option, none, some, List, [],
  ◌∷◌, ◌++◌, contains, str_eq, trim_space, if◌then◌else◌,
}
use webguard_instance.Config.{Config}
use webguard_instance.Monitor.Types.{ClaimedJob, ClaimMonitoringJobsRequest}
use webguard_instance.Application.Telemetry.{Op, queues, moves}
use webguard_instance.Runner.Execution.{phase_response, phase_ssl, phase_domain_expiration}

unfoldable pub worker_limit : Config → ℤ
unfolding min_ℤ max_ℤ
worker_limit cfg =
    let workers = max_ℤ (pos 1) cfg.queue_default_workers in
    if ltb_ℤ (pos 0) cfg.run_max_concurrency then min_ℤ workers cfg.run_max_concurrency else workers

abbrev pub lease_capabilities : List String
lease_capabilities = phase_response ∷ phase_ssl ∷ phase_domain_expiration ∷ []

unfoldable pub claim_request : Config → ClaimMonitoringJobsRequest
unfolding worker_limit
claim_request cfg = record {
  location = cfg.location;
  instance_id = cfg.instance_id;
  capabilities = lease_capabilities;
  capacity = worker_limit cfg;
  max_batch_size = max_ℤ (pos 1) (min_ℤ (max_ℤ (pos 1) cfg.job_lease_max_batch) (worker_limit cfg));
}

-- The telemetry of a job that is queued.
queued_ops : ClaimedJob → List Op
queued_ops job =
    if ltb_ℤ (pos 1) job.attempt
    then Op.leases "retry" ∷ moves "claimed" "retry" ∷ moves "retry" "queued" ∷ queues ∷ []
    else moves "claimed" "queued" ∷ queues ∷ []

claimed_ops : List Op
claimed_ops = Op.leases "claimed" ∷ moves "received" "claimed" ∷ []

duplicate_ops : List Op
duplicate_ops = Op.leases "duplicate" ∷ moves "claimed" "duplicate" ∷ []

-- The loop over the claimed jobs: the jobs to run, and the telemetry. A job without an ID is no
-- duplicate of another.
unfoldable pub unique_jobs : List String → List ClaimedJob → List ClaimedJob × List Op
unfolding queued_ops claimed_ops duplicate_ops
unique_jobs seen [] = ([], [])
unique_jobs seen (job ∷ jobs) =
    let id = trim_space job.id in
    let rest = unique_jobs seen jobs in
    let named = unique_jobs (id ∷ seen) jobs in
    if str_eq id ""
    then (job ∷ rest.0, claimed_ops ++ (queued_ops job ++ rest.1))
    else if contains seen id
    then (rest.0, claimed_ops ++ (duplicate_ops ++ rest.1))
    else (job ∷ named.0, claimed_ops ++ (queued_ops job ++ named.1))

-- The answer of ClaimMonitoringJobs is a list of jobs, or `none` for an error, which is returned.
unfoldable pub dispatch : Option (List ClaimedJob) → Option (List ClaimedJob × List Op)
unfolding unique_jobs
dispatch none = none
dispatch (some jobs) = some (unique_jobs [] jobs)
