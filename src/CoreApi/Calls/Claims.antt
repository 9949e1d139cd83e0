-- ===== src/CoreApi/Calls/Claims.antt =====
-- What ClaimMonitoringJobs of internal/adapters/coreapi/client.go lets through.
use webguard_instance.Base.{
  pos, ltb_ℤ, ◌≤ℤ◌, String, Bool, true, false, List, [], length, str_eq, trim_space, if◌then◌else◌,
  ◌≡◌, refl, arith, subst,
}
use webguard_instance.Base.Result.{Result, ok, err, ok_inj}
use webguard_instance.Config.{from_env}
use webguard_instance.Monitor.Types.{ClaimedJob, ClaimMonitoringJobsRequest}
use webguard_instance.Runner.Lease.Batch.{claim_request}
use webguard_instance.Runner.Lease.Batch.Claim.{claim_request-from_env}
use webguard_instance.CoreApi.{Client, Library, message, Failure, Sending, Exchange}
use webguard_instance.CoreApi.Calls.{Answer, within_batch, claim_monitoring_jobs}

-- A request that the client is willing to send.
pub record IsClaim (p : ClaimMonitoringJobsRequest) : Type 0 where
  pub location_given : str_eq (trim_space p.location) "" ≡ false
  pub instance_given : str_eq (trim_space p.instance_id) "" ≡ false
  pub capacity_positive : pos 1 ≤ℤ p.capacity
  pub batch_positive : pos 1 ≤ℤ p.max_batch_size
  pub batch_high : p.max_batch_size ≤ℤ pos 256

stop_inv :
    {A : Type 0} (test : Bool) (e : Failure) (m : Sending A) (a : A)
    → (if test then ([], err e) else m).1 ≡ ok a
    → (test ≡ false) × (m.1 ≡ ok a)
stop_inv true e m a h = grind arith
stop_inv false e m a h = (refl, h)

within_limit :
    (P : List ClaimedJob → Type 0) (over : Bool) (es : List Exchange) (found jobs : List ClaimedJob)
    (e : Failure)
    → (if◌then◌else◌ {A = Sending (List ClaimedJob)} over (es, err e) (es, ok found)).1 ≡ ok jobs
    → (over ≡ false → P found)
    → ◌≡◌ {A = Result Failure (List ClaimedJob)} (ok found) (ok jobs) × P jobs
within_limit P true es found jobs e h fits = grind arith
within_limit P false es found jobs e h fits = (h, subst P (ok_inj h) (fits refl))

within_batch-ok :
    (lib : Library) (c : Client) (p : ClaimMonitoringJobsRequest) (m : Sending (List ClaimedJob))
    (jobs : List ClaimedJob)
    → (within_batch lib c p m).1 ≡ ok jobs
    → (m.1 ≡ ok jobs) × (pos (length jobs) ≤ℤ p.max_batch_size)
unfolding within_batch
within_batch-ok lib c p (es, err e) jobs h = grind arith
within_batch-ok lib c p (es, ok found) jobs h =
    within_limit (λ js. pos (length js) ≤ℤ p.max_batch_size)
      (ltb_ℤ p.max_batch_size (pos (length found))) es found jobs _ h (λ e. ground arith)

-- A claim that gives jobs was allowed to be sent, and gives no more jobs than it asked for.
pub claim_monitoring_jobs-IsClaim :
    (lib : Library) (c : Client) (decode : String → Result String (List ClaimedJob)) (a : Answer)
    (p : ClaimMonitoringJobsRequest) (jobs : List ClaimedJob)
    → (claim_monitoring_jobs lib c decode a p).1 ≡ ok jobs
    → IsClaim p × (pos (length jobs) ≤ℤ p.max_batch_size)
unfolding claim_monitoring_jobs
claim_monitoring_jobs-IsClaim lib c decode a p jobs h =
    let (location, h1) =
      stop_inv (str_eq (trim_space p.location) "") (message "claim location is empty") _ jobs h in
    let (instance_id, h2) =
      stop_inv (str_eq (trim_space p.instance_id) "") (message "WEBGUARD_INSTANCE_ID is empty") _
        jobs h1 in
    let (capacity, h3) =
      stop_inv (ltb_ℤ p.capacity (pos 1)) (message "claim capacity must be positive") _ jobs h2 in
    let (low, h4) =
      stop_inv (ltb_ℤ p.max_batch_size (pos 1)) (message "claim max batch size must be positive") _
        jobs h3 in
    let (high, h5) =
      stop_inv (ltb_ℤ (pos 256) p.max_batch_size) (message "claim max batch size exceeds 256") _
        jobs h4 in
    let fits = (within_batch-ok lib c p _ jobs h5).1 in
    (
      record {
        location_given = location;
        instance_given = instance_id;
        capacity_positive = ground arith;
        batch_positive = ground arith;
        batch_high = ground arith;
      },
      fits,
    )

-- Whatever the environment variables hold, the claim of an instance configured from them is one that the
-- client sends if the location and the instance ID are given.
pub claim_request-IsClaim :
    (getenv : String → String)
    → str_eq (trim_space (from_env getenv).location) "" ≡ false
    → str_eq (trim_space (from_env getenv).instance_id) "" ≡ false
    → IsClaim (claim_request (from_env getenv))
unfolding claim_request
claim_request-IsClaim getenv l i =
    let modest = claim_request-from_env getenv in
    record {
      location_given = l;
      instance_given = i;
      capacity_positive = ground (arith, modest);
      batch_positive = modest.batch_low;
      batch_high = ground arith;
    }
