-- ===== src/Runner/Lease/Batch/Gauges.antt =====
-- A whole batch, seen from the gauges of queued and active jobs.
use webguard_instance.Base.{
  ℕ, suc, ◌+◌, ◌<◌, pos, ltb_ℤ, String, List, [], ◌∷◌, ◌++◌, map, contains, str_eq, trim_space,
  if_elim, ◌≡◌, refl, arith, ◌∙◌, ap, subst, sym, length, All,
}
use webguard_instance.Monitor.Types.{ClaimedJob}
use webguard_instance.Application.Telemetry.{Telemetry, Op, increase, apply, apply_all}
use webguard_instance.Application.Telemetry.Life.{
  IsLife, queued_jobs, active_jobs, Interleaving, Shows, increase_lem,
}
use webguard_instance.Application.Telemetry.Gauges.{Interleaving-Shows}
use webguard_instance.Runner.Trace.{ops}
use webguard_instance.Runner.Lease.Job.{Env, run_claimed_job}
use webguard_instance.Runner.Lease.Job.Life.{run_claimed_job-IsLife}
use webguard_instance.Runner.Lease.Batch.{queued_ops, claimed_ops, duplicate_ops, unique_jobs}

apply_all-append :
    (t : Telemetry) (xs ys : List Op) → apply_all t (xs ++ ys) ≡ apply_all (apply_all t xs) ys
unfolding apply_all
apply_all-append t [] ys = refl
apply_all-append t (x ∷ xs) ys = apply_all-append (apply t x) xs ys

Shows-claimed : (t : Telemetry) (q a : ℕ) → Shows t q a → Shows (apply_all t claimed_ops) q a
unfolding apply_all apply claimed_ops
Shows-claimed t q a s = record { queued_shown = s.queued_shown; active_shown = s.active_shown }

Shows-duplicate : (t : Telemetry) (q a : ℕ) → Shows t q a → Shows (apply_all t duplicate_ops) q a
unfolding apply_all apply duplicate_ops
Shows-duplicate t q a s = record { queued_shown = s.queued_shown; active_shown = s.active_shown }

Shows-queued :
    (t : Telemetry) (q a : ℕ) (job : ClaimedJob)
    → suc q < 9223372036854775808
    → Shows t q a
    → Shows (apply_all t (queued_ops job)) (suc q) a
unfolding apply_all apply queued_ops
Shows-queued t q a job h s =
    if_elim (λ (os : List Op). Shows (apply_all t os) (suc q) a) (ltb_ℤ (pos 1) job.attempt) _ _
      (λ _. record {
        queued_shown = ap increase s.queued_shown ∙ increase_lem q h;
        active_shown = s.active_shown;
      })
      λ _. record {
        queued_shown = ap increase s.queued_shown ∙ increase_lem q h;
        active_shown = s.active_shown;
      }

abbrev Dispatches : ℕ → ℕ → Telemetry → List ClaimedJob × List Op → Type 0
Dispatches q a t d =
    q + length d.0 < 9223372036854775808 → Shows (apply_all t d.1) (q + length d.0) a

-- A queued job in front.
Dispatches-queued :
    (q a : ℕ) (t : Telemetry) (job : ClaimedJob) (d : List ClaimedJob × List Op)
    → Shows t q a
    → ((t' : Telemetry) → Shows t' (suc q) a → Dispatches (suc q) a t' d)
    → Dispatches q a t (job ∷ d.0, claimed_ops ++ (queued_ops job ++ d.1))
Dispatches-queued q a t job d s rest h =
    rw (apply_all-append t claimed_ops, apply_all-append (apply_all t claimed_ops) (queued_ops job))
      (subst (λ n. Shows (apply_all (apply_all (apply_all t claimed_ops) (queued_ops job)) d.1) n a)
        (omega arith)
        (rest (apply_all (apply_all t claimed_ops) (queued_ops job))
          (Shows-queued (apply_all t claimed_ops) q a job (omega arith) (Shows-claimed t q a s))
          (omega arith)))

unique_jobs-Dispatches :
    (q a : ℕ) (seen : List String) (jobs : List ClaimedJob) (t : Telemetry)
    → Shows t q a
    → Dispatches q a t (unique_jobs seen jobs)
unfolding unique_jobs apply_all
unique_jobs-Dispatches q a seen [] t s = λ h. record {
  queued_shown = s.queued_shown ∙ ap pos (omega arith);
  active_shown = s.active_shown;
}
unique_jobs-Dispatches q a seen (job ∷ jobs) t s =
    if_elim (Dispatches q a t) (str_eq (trim_space job.id) "") _ _
      (λ _.
        Dispatches-queued q a t job (unique_jobs seen jobs) s
          (λ t' s'. unique_jobs-Dispatches (suc q) a seen jobs t' s'))
      λ _.
        if_elim (Dispatches q a t) (contains seen (trim_space job.id)) _ _
          (λ _ h.
            rw
              (
                apply_all-append t claimed_ops,
                apply_all-append (apply_all t claimed_ops) duplicate_ops,
              )
              (unique_jobs-Dispatches q a seen jobs
                (apply_all (apply_all t claimed_ops) duplicate_ops)
                (Shows-duplicate (apply_all t claimed_ops) q a (Shows-claimed t q a s)) h))
          λ _.
            Dispatches-queued q a t job (unique_jobs (trim_space job.id ∷ seen) jobs) s
              (λ t' s'. unique_jobs-Dispatches (suc q) a (trim_space job.id ∷ seen) jobs t' s')

-- The traces of the jobs, each with what the environment decides for it.
abbrev pub traces : List (Env × ClaimedJob) → List (List Op)
traces [] = []
traces ((env, job) ∷ runs) = ops (run_claimed_job env job).1 ∷ traces runs

traces-IsLife : (runs : List (Env × ClaimedJob)) → All IsLife (traces runs)
traces-IsLife [] = tt
traces-IsLife ((env, job) ∷ runs) = ((run_claimed_job-IsLife env job).1, traces-IsLife runs)

traces-queued :
    (runs : List (Env × ClaimedJob))
    → (queued_jobs (traces runs) ≡ length runs) × (active_jobs (traces runs) ≡ 0)
unfolding queued_jobs active_jobs
traces-queued [] = (refl, refl)
traces-queued ((env, job) ∷ runs) =
    let (q, a) = traces-queued runs in
    rw (run_claimed_job-IsLife env job).0 (omega arith, omega arith)

length-map : (runs : List (Env × ClaimedJob)) → length (map (λ r. r.1) runs) ≡ length runs
length-map [] = refl
length-map (r ∷ runs) = ap suc (length-map runs)

length-traces : (runs : List (Env × ClaimedJob)) → length (traces runs) ≡ length runs
length-traces [] = refl
length-traces ((env, job) ∷ runs) = ap suc (length-traces runs)

-- After a batch both gauges show what they showed before the claim, whatever Core claimed, whatever
-- became of each job, and however the workers' calls interleaved, if the gauges, which count other
-- work, are not negative and cannot reach 2^63 with the jobs that are run.
pub gauges-batch :
    (t : Telemetry) (q a : ℕ) (jobs : List ClaimedJob) (runs : List (Env × ClaimedJob))
    (history : List Op)
    → t.jobs_queued ≡ pos q
    → t.jobs_active ≡ pos a
    → q + length runs < 9223372036854775808
    → a + length runs < 9223372036854775808
    → map (λ r. r.1) runs ≡ (unique_jobs [] jobs).0
    → Interleaving (traces runs) history
    → let after = apply_all (apply_all t (unique_jobs [] jobs).1) history in
      (after.jobs_queued ≡ pos q) × (after.jobs_active ≡ pos a)
gauges-batch t q a jobs runs history eq ea hq ha same h = (end.queued_shown, end.active_shown)
  where
    size : length (unique_jobs [] jobs).0 ≡ length runs
    size = ap length (sym same) ∙ length-map runs

    begun : Shows (apply_all t (unique_jobs [] jobs).1) (q + length (unique_jobs [] jobs).0) a
    begun =
        unique_jobs-Dispatches q a [] jobs t (record { queued_shown = eq; active_shown = ea })
          (omega (arith, size))

    counts : (queued_jobs (traces runs) ≡ length runs) × (active_jobs (traces runs) ≡ 0)
    counts = traces-queued runs

    end : Shows (apply_all (apply_all t (unique_jobs [] jobs).1) history) q a
    end =
        Interleaving-Shows (apply_all t (unique_jobs [] jobs).1) q a h (traces-IsLife runs)
          (omega (arith, length-traces runs)) (omega (arith, length-traces runs))
          (record {
            queued_shown = begun.queued_shown ∙ ap pos (omega (arith, size, counts.0));
            active_shown = begun.active_shown ∙ ap pos (omega (arith, counts.1));
          })
