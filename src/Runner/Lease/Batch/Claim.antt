-- ===== src/Runner/Lease/Batch/Claim.antt =====
-- What the instance asks Core for.
use webguard_instance.Base.{pos, ◌≤ℤ◌, min_ℤ, max_ℤ, String, arith}
use webguard_instance.Config.{Config, from_env}
use webguard_instance.Config.Bounds.{IsBounded, from_env-IsBounded}
use webguard_instance.Runner.Lease.Batch.{worker_limit, claim_request}

-- A request for work: at least one job, not more jobs than workers, and not more than 64 workers.
pub record IsModest (c : Config) : Type 0 where
  pub batch_low : pos 1 ≤ℤ (claim_request c).max_batch_size
  pub batch_high : (claim_request c).max_batch_size ≤ℤ (claim_request c).capacity
  pub batch_limit : (claim_request c).max_batch_size ≤ℤ c.job_lease_max_batch
  pub capacity_high : (claim_request c).capacity ≤ℤ pos 64
  pub capacity_concurrency : (claim_request c).capacity ≤ℤ c.run_max_concurrency
  pub capacity_workers : (claim_request c).capacity ≤ℤ c.queue_default_workers

claim_request-IsModest : (c : Config) → IsBounded c → IsModest c
unfolding claim_request worker_limit min_ℤ max_ℤ
claim_request-IsModest c b = record {
  batch_low = ground arith;
  batch_high = ground arith;
  batch_limit = ground arith;
  capacity_high = ground arith;
  capacity_concurrency = ground arith;
  capacity_workers = ground arith;
}

-- Whatever the environment variables hold, an instance configured from them claims at least one job at
-- a time, never more than the configured batch or than it has workers for, and reports no more workers
-- than the configured number, the configured concurrency, and 64.
pub claim_request-from_env : (getenv : String → String) → IsModest (from_env getenv)
claim_request-from_env getenv = claim_request-IsModest (from_env getenv) (from_env-IsBounded getenv)
