-- ===== src/Runner/Gateway/Leased.antt =====
-- What a run with job leases gives its workers.
use mathlib.Core.Option.{get_or}
use webguard_instance.Base.{
  trim_space, ◌∙◌, ◌≤◌, String, pos, ◌≤ℤ◌, List, [], ◌∷◌, ◌≡◌, ap, length, IsDistinct, contains,
  arith, subst, sym,
}
use webguard_instance.Config.{from_env}
use webguard_instance.Monitor.Types.{ClaimedJob}
use webguard_instance.Runner.Registry.{Executor}
use webguard_instance.Runner.Lease.Batch.{unique_jobs, claim_request, dispatch}
use webguard_instance.Runner.Lease.Batch.Claim.{claim_request-from_env}
use webguard_instance.Runner.Lease.Batch.Unique.{ids, unique_jobs_lem}
use webguard_instance.Runner.Service.{
  Reply, answers, answer, Given, jobs, phases, new_with_telemetry, run_claimed_jobs,
}
use webguard_instance.Runner.Gateway.{Gateway, ClaimsFew, run_leased}

-- The jobs that a run hands to its workers.
abbrev pub leased : Given → List ClaimedJob
leased (jobs queued) = queued.0
leased (phases ran) = []

unique_jobs_fewer :
    (seen : List String) (claimed : List ClaimedJob)
    → length (unique_jobs seen claimed).0 ≤ length claimed
unfolding unique_jobs
unique_jobs_fewer seen [] = omega arith
unique_jobs_fewer seen (job ∷ rest) =
    ground (arith, unique_jobs_fewer seen rest, unique_jobs_fewer (trim_space job.id ∷ seen) rest)

module _ (g : Gateway) (getenv : String → String) (executors : List Executor) where
  abbrev service_given : Given
  service_given = (run_leased g (new_with_telemetry (from_env getenv) executors)).given

  leased_lem :
      (claimed : List ClaimedJob)
      → g.claim_monitoring_jobs (claim_request (from_env getenv)) ≡ answers claimed
      → leased service_given ≡ (unique_jobs [] claimed).0
  unfolding run_leased run_claimed_jobs new_with_telemetry dispatch
  leased_lem claimed e =
      ap (λ (reply : Reply (List ClaimedJob)). (get_or (dispatch (answer reply)) ([], [])).0) e

  -- For a gateway that gives a claim no more jobs than it asked for.
  pub run_leased_bounded :
      (claimed : List ClaimedJob)
      → ClaimsFew g
      → g.claim_monitoring_jobs (claim_request (from_env getenv)) ≡ answers claimed
      → (pos (length (leased service_given)) ≤ℤ (from_env getenv).job_lease_max_batch)
        × (pos (length (leased service_given)) ≤ℤ (from_env getenv).queue_default_workers)
        × (pos (length (leased service_given)) ≤ℤ pos 64)
        × IsDistinct (ids (leased service_given))
        × ((id : String) → contains (ids (leased service_given)) id ≡ contains (ids claimed) id)
  run_leased_bounded claimed few_given e =
      let same = leased_lem claimed e in
      let once = unique_jobs_lem claimed in
      let few = few_given (claim_request (from_env getenv)) claimed e in
      let modest = claim_request-from_env getenv in
      let fewer = unique_jobs_fewer [] claimed in
      let shorter : length (leased service_given) ≤ length claimed =
        subst (λ (js : List ClaimedJob). length js ≤ length claimed) (sym same) fewer in
      (
        omega (arith, few, shorter, modest.batch_limit),
        omega (arith, few, shorter, modest.batch_high, modest.capacity_workers),
        omega (arith, few, shorter, modest.batch_high, modest.capacity_high),
        subst (λ (js : List ClaimedJob). IsDistinct (ids js)) (sym same) once.1,
        λ id. ap (λ (js : List ClaimedJob). contains (ids js) id) same ∙ once.0 id,
      )
