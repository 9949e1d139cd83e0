-- ===== src/Config/Bounds.antt =====
-- The limits that a configuration from the environment keeps.
use webguard_instance.Base.{ℤ, pos, ◌≤ℤ◌, String, arith}
use webguard_instance.Config.{Config, clamp, from_env, env_int}

pub record IsBounded (c : Config) : Type 0 where
  pub workers_low : pos 1 ≤ℤ c.queue_default_workers
  pub workers_high : c.queue_default_workers ≤ℤ pos 64
  pub concurrency_low : pos 1 ≤ℤ c.run_max_concurrency
  pub concurrency_high : c.run_max_concurrency ≤ℤ pos 64
  pub batch_low : pos 1 ≤ℤ c.job_lease_max_batch
  pub batch_high : c.job_lease_max_batch ≤ℤ pos 256

clamp_bounds :
    (value low high : ℤ)
    → low ≤ℤ high
    → (low ≤ℤ clamp value low high) × (clamp value low high ≤ℤ high)
unfolding clamp
clamp_bounds value low high h = ground arith

-- Whatever the environment variables hold, the configuration has from 1 to 64 workers, a run concurrency
-- from 1 to 64, and a lease batch from 1 to 256.
pub from_env-IsBounded : (getenv : String → String) → IsBounded (from_env getenv)
unfolding from_env
from_env-IsBounded getenv =
    let workers =
      clamp_bounds (env_int getenv "QUEUE_DEFAULT_WORKERS" (pos 3)) (pos 1) (pos 64)
        (omega arith) in
    let w = (from_env getenv).queue_default_workers in
    let runs =
      clamp_bounds (env_int getenv "RUN_MAX_CONCURRENCY" w) (pos 1) (pos 64) (omega arith) in
    let batch =
      clamp_bounds (env_int getenv "WEBGUARD_JOB_LEASE_MAX_BATCH" w) (pos 1) (pos 256)
        (omega arith) in
    record {
      workers_low = workers.0;
      workers_high = workers.1;
      concurrency_low = runs.0;
      concurrency_high = runs.1;
      batch_low = batch.0;
      batch_high = batch.1;
    }
