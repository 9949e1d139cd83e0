-- ===== src/Runner/Lease/Batch/Unique.antt =====
-- Which of the claimed jobs are run.
use webguard_instance.Base.{
  String, true, false, ◌||◌, List, [], ◌∷◌, contains, str_eq, eq_iff, trim_space, if◌then◌else◌,
  ◌≡◌, refl, arith, eq_refl,
}
use webguard_instance.Monitor.Types.{ClaimedJob}
use webguard_instance.Base.{IsDistinct}
use webguard_instance.Runner.Lease.Batch.{unique_jobs}

-- The IDs of the jobs that have one.
abbrev pub ids : List ClaimedJob → List String
ids [] = []
ids (job ∷ jobs) = if str_eq (trim_space job.id) "" then ids jobs else trim_space job.id ∷ ids jobs

contains-ids-unique_jobs :
    (seen : List String) (jobs : List ClaimedJob) (id : String)
    → (contains (ids (unique_jobs seen jobs).0) id || contains seen id)
      ≡ (contains (ids jobs) id || contains seen id)
unfolding unique_jobs
contains-ids-unique_jobs seen [] id = refl
contains-ids-unique_jobs seen (job ∷ jobs) id = ground (
  arith,
  eq_iff (trim_space job.id) "",
  eq_iff (trim_space job.id) id,
  contains-ids-unique_jobs seen jobs id,
  contains-ids-unique_jobs (trim_space job.id ∷ seen) jobs id,
)

unseen :
    (seen : List String) (jobs : List ClaimedJob) (id : String)
    → contains seen id ≡ true
    → contains (ids (unique_jobs seen jobs).0) id ≡ false
unfolding unique_jobs
unseen seen [] id h = refl
unseen seen (job ∷ jobs) id h = ground (
  arith,
  eq_iff (trim_space job.id) id,
  unseen seen jobs id,
  unseen (trim_space job.id ∷ seen) jobs id,
)

IsDistinct-ids :
    (seen : List String) (jobs : List ClaimedJob) → IsDistinct (ids (unique_jobs seen jobs).0)
unfolding unique_jobs
IsDistinct-ids seen [] = tt
IsDistinct-ids seen (job ∷ jobs) = ground (
  arith,
  eq_refl (trim_space job.id),
  IsDistinct-ids seen jobs,
  IsDistinct-ids (trim_space job.id ∷ seen) jobs,
  unseen (trim_space job.id ∷ seen) jobs (trim_space job.id),
)

-- Of the claimed jobs with an ID, each ID is run exactly once: the jobs that are run have the IDs that
-- were claimed, and no two of them the same.
pub unique_jobs_lem :
    (jobs : List ClaimedJob)
    → ((id : String) → contains (ids (unique_jobs [] jobs).0) id ≡ contains (ids jobs) id)
      × IsDistinct (ids (unique_jobs [] jobs).0)
unique_jobs_lem jobs =
    ((λ id. ground (arith, contains-ids-unique_jobs [] jobs id)), IsDistinct-ids [] jobs)
