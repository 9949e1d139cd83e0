-- ===== src/Runner/Lease/Job/Lifecycle.antt =====
-- The telemetry of a claimed job: the life of the job, and its path through the job states.
use webguard_instance.Base.{
  ltb_ℤ, String, Bool, true, false, not, ◌||◌, List, [], ◌∷◌, ◌++◌, str_eq, eq_iff, trim_space,
  if◌then◌else◌, ◌≡◌, refl, arith, if_elim, All, Option, none, some, ap, ◌&&◌,
}
use webguard_instance.Monitor.Types.{ClaimedJob}
use webguard_instance.Application.Telemetry.{Op, starts, finishes, drops, moves, waits}
use webguard_instance.Runner.Execution.{Execution}
use webguard_instance.Runner.Registry.{supports}
use webguard_instance.Runner.Trace.{ops-append, Effect, tel, extends, Traced, ◌>>=◌, ops}
use webguard_instance.Runner.Lease.Validate.Laws.{validate_claimed_job-IsValidJob}
use webguard_instance.Runner.Lease.Validate.{is_lease_phase, validate_claimed_job}
use webguard_instance.Runner.Lease.Renewal.Laws.{IsRenewalOf, renew-IsHonest}
use webguard_instance.Runner.Lease.Publish.Laws.{complete_claimed_job_lem, ops-posts}
use webguard_instance.Runner.Idempotency.{is_uuid_v4}
use webguard_instance.Runner.Lease.Publish.{release_claimed_job}
use webguard_instance.Runner.Lease.Job.{
  Env, refuse, finish, complete, end_completion, in_maintenance, release_running, settle,
  expired_note, after_renewal, lease_renewal, lease_lost, run_leased, choose, start,
  run_claimed_job,
}

-- The states of a job as its telemetry reports them. `dropped`, `started` and `leaving` stand between
-- the two calls that report one step.
pub data Stage : Type 0 where
  waiting dropped started running leaving ended : Stage

is_refusal : String → Bool
is_refusal state = str_eq state "released" || str_eq state "invalid"

is_end : String → Bool
is_end state =
    str_eq state "completed" || str_eq state "completion_failed" || str_eq state "released"

abbrev only : Bool → Stage → Option Stage
only b stage = if b then some stage else none

-- The next stage; `none` if the call has no place there.
unfoldable pub next : Stage → Op → Option Stage
unfolding is_refusal is_end
next stage (Op.leases event) = some stage
next stage (waits d) = some stage
next waiting (drops phase outcome) = some dropped
next dropped (moves from to) = only (str_eq from "queued" && is_refusal to) ended
next waiting starts = some started
next started (moves from to) = only (str_eq from "queued" && str_eq to "running") running
next running (moves from to) = only (str_eq from "running" && is_end to) leaving
next leaving (finishes phase outcome d) = some ended
next stage op = none

unfoldable pub advance : Option Stage → Op → Option Stage
unfolding next
advance none op = none
advance (some stage) op = next stage op

unfoldable pub accept : Option Stage → List Op → Option Stage
unfolding advance
accept stage [] = stage
accept stage (op ∷ ops) = accept (advance stage op) ops

accept-append :
    (stage : Option Stage) (xs ys : List Op) → accept stage (xs ++ ys) ≡ accept (accept stage xs) ys
unfolding accept
accept-append stage [] ys = refl
accept-append stage (x ∷ xs) ys = accept-append (advance stage x) xs ys

-- A trace that leads from one stage to another.
abbrev Leads : Stage → Stage → List Effect → Type 0
Leads s t es = accept (some s) (ops es) ≡ some t

Leads-append :
    (s t u : Stage) (xs ys : List Effect) → Leads s t xs → Leads t u ys → Leads s u (xs ++ ys)
Leads-append s t u xs ys hx hy =
    rw (ops-append xs ys, accept-append (some s) (ops xs) (ops ys), hx) hy

Leads-renewal :
    (stage : Stage) (job : ClaimedJob) (es : List Effect)
    → All (IsRenewalOf job) es
    → Leads stage stage es
unfolding accept
Leads-renewal stage job [] a = refl
Leads-renewal stage job (tel (Op.leases event) ∷ es) a = Leads-renewal stage job es a.1
Leads-renewal stage job (extends id r t ∷ es) a = Leads-renewal stage job es a.1
Leads-renewal stage job (e ∷ es) a = absurd a.0

Leads-release :
    (stage : Stage) (accepted : Bool) (job : ClaimedJob) (reason : String)
    → Leads stage stage (release_claimed_job accepted job reason).1
unfolding release_claimed_job accept
Leads-release stage accepted job reason = ground arith

Leads-complete :
    (stage : Stage) (env : Env) (job : ClaimedJob) (e : Execution)
    → is_uuid_v4 (trim_space job.idempotency_key) ≡ true
    → Leads stage stage (complete env job e).1
unfolding complete accept
Leads-complete stage env job e valid =
    let (before, posts, n, eq) =
      complete_claimed_job_lem env.dual_write env.random env.complete_accepted job e valid in
    rw (eq, ops-append before, ops-posts (trim_space job.idempotency_key) before posts)
      (ground arith)

abbrev EndsRun : Traced (Unit {0}) → Type 0
EndsRun m = Leads running ended m.1

abbrev Ends : Traced (Unit {0}) → Type 0
Ends m = Leads waiting ended m.1

module _ (env : Env) (job : ClaimedJob) where
  Leads-refuse :
      (phase outcome reason : String)
      → is_refusal outcome ≡ true
      → Leads waiting ended (refuse env job phase outcome reason).1
  unfolding refuse accept
  Leads-refuse phase outcome reason h =
      Leads-append waiting ended ended
        (tel (drops phase outcome) ∷ tel (moves "queued" outcome) ∷ [])
        ((release_claimed_job env.release_accepted job reason).1 ++ []) (ap (λ b. only b ended) h)
        (Leads-append ended ended ended (release_claimed_job env.release_accepted job reason).1 []
          (Leads-release ended env.release_accepted job reason) refl)

  Leads-finish :
      (phase state outcome : String)
      → is_end state ≡ true
      → Leads running ended (finish env phase state outcome).1
  unfolding finish accept
  Leads-finish phase state outcome h = ground arith

  Leads-end_completion :
      (phase : String) (completed : Bool) (outcome : String)
      → Leads running ended (end_completion env phase completed outcome).1
  unfolding end_completion is_end
  Leads-end_completion phase true outcome = Leads-finish phase "completed" outcome refl
  Leads-end_completion phase false outcome =
      Leads-finish phase "completion_failed" "completion_failed" refl

  Leads-release_running :
      (phase reason : String) → Leads running ended (release_running env job phase reason).1
  unfolding release_running is_end
  Leads-release_running phase reason =
      Leads-append running running ended (release_claimed_job env.release_accepted job reason).1 _
        (Leads-release running env.release_accepted job reason)
        (Leads-finish phase "released" "canceled" refl)

  module _ (valid : is_uuid_v4 (trim_space job.idempotency_key) ≡ true) where
    Leads-completing :
        (phase outcome : String) (e : Execution)
        → Leads running ended
            (do completed ← complete env job e; end_completion env phase completed outcome).1
    Leads-completing phase outcome e =
        Leads-append running running ended (complete env job e).1 _
          (Leads-complete running env job e valid)
          (Leads-end_completion phase (complete env job e).0 outcome)

    Leads-settle :
        (phase : String) (lost : Bool) (e : Execution)
        → Leads running ended (settle env job phase lost e).1
    unfolding settle
    Leads-settle phase lost e =
        if_elim EndsRun (env.parent_canceled || lost) _ _ (λ _. Leads-release_running phase _)
          (λ _. Leads-completing phase _ e)

    Leads-after_renewal :
        (phase : String) (lost : Bool) → Leads running ended (after_renewal env job phase lost).1
    unfolding after_renewal expired_note accept
    Leads-after_renewal phase lost =
        if_elim EndsRun env.slot_acquired _ _ (λ _. Leads-settle phase lost _)
          λ _.
            Leads-append running ended ended
              (release_running env job phase "execution canceled before start").1 _
              (Leads-release_running phase "execution canceled before start") (ground arith)

    Leads-run_leased : (phase : String) → Leads running ended (run_leased env job phase).1
    unfolding run_leased lease_renewal
    Leads-run_leased phase =
        Leads-append running running ended (lease_renewal env job).effects _
          (Leads-renewal running job (lease_renewal env job).effects
            (renew-IsHonest job job.lease_expires_at env.rounds env.last_look).renewals)
          (Leads-after_renewal phase (lease_lost env job))

    Leads-choose : (phase : String) → Leads running ended (choose env job phase).1
    unfolding choose in_maintenance
    Leads-choose phase =
        if_elim EndsRun job.monitoring.maintenance_active _ _
          (λ _. Leads-completing phase "maintenance" _) (λ _. Leads-run_leased phase)

    Leads-start : (phase : String) → Leads waiting ended (start env job phase).1
    unfolding start accept
    Leads-start phase = Leads-choose phase

-- On every path the telemetry of a claimed job tells one story: the job leaves the queue either for
-- the state released or invalid, or for running, and from there for completed, completion_failed or
-- released, with one call for the gauges at each of these steps.
pub accept-run_claimed_job :
    (env : Env) (job : ClaimedJob)
    → accept (some waiting) (ops (run_claimed_job env job).1) ≡ some ended
unfolding run_claimed_job is_refusal
accept-run_claimed_job env job =
    if_elim Ends
      (not (is_lease_phase phase) || not (supports env.executors phase job.monitoring.type)) _ _
      (λ _. Leads-refuse env job _ "released" _ refl)
      λ _.
        if_elim Ends (not (str_eq (validate_claimed_job job) "")) _ _
          (λ _. Leads-refuse env job _ "invalid" _ refl)
          λ valid.
            if_elim Ends (not (ltb_ℤ env.checked_at job.lease_expires_at)) _ _
              (λ _. Leads-refuse env job _ "released" _ refl)
              λ _. Leads-start env job (key valid) phase
  where
    phase : String
    phase = trim_space job.phase

    key :
        not (str_eq (validate_claimed_job job) "") ≡ false
        → is_uuid_v4 (trim_space job.idempotency_key) ≡ true
    key valid =
        ((validate_claimed_job-IsValidJob job).0
          (ground (arith, eq_iff (validate_claimed_job job) ""))).key_valid
