-- ===== src/Runner/Lease/Job/Life.antt =====
-- The life of a claimed job among the gauges, from its path through the stages.
use webguard_instance.Base.{
  List, [], ◌∷◌, ◌≡◌, refl, arith, ◌∙◌, sym, subst, none, some, Option-cases, inl, inr,
}
use mathlib.Core.Option.{none-ne-some}
use webguard_instance.Monitor.Types.{ClaimedJob}
use webguard_instance.Application.Telemetry.{Op, starts}
use webguard_instance.Application.Telemetry.Life.{idle, queued, active, Life, life, IsLife}
use webguard_instance.Runner.Trace.{ops}
use webguard_instance.Runner.Lease.Job.{Env, run_claimed_job}
use webguard_instance.Runner.Lease.Job.Lifecycle.{
  Stage, waiting, dropped, ended, next, accept, accept-run_claimed_job,
}

-- The place among the gauges that goes with a stage.
abbrev life_of : Stage → Life
life_of waiting = queued
life_of dropped = idle
life_of ended = idle
life_of _ = active

accept-none : (os : List Op) → accept none os ≡ none
unfolding accept
accept-none [] = refl
accept-none (op ∷ os) = accept-none os

life-next :
    (stage s : Stage) (op : Op) (os : List Op)
    → next stage op ≡ some s
    → life os ≡ life_of s
    → IsLife os
    → (life (op ∷ os) ≡ life_of stage) × IsLife (op ∷ os)
unfolding next
life-next stage s (Op.leases event) os n l w = ground arith
life-next waiting s starts os n l w = ground arith
life-next _ s op os n l w = ground arith

-- Such a story is the life of a job.
accept-IsLife :
    (stage : Stage) (os : List Op)
    → accept (some stage) os ≡ some ended
    → (life os ≡ life_of stage) × IsLife os
unfolding accept
accept-IsLife stage [] h = ground arith
accept-IsLife stage (op ∷ os) h = elim (Option-cases (next stage op)) [
  | inl e ↦
      absurd (none-ne-some ended (sym (accept-none os) ∙ subst (λ o. accept o os ≡ some ended) e h))
  | inr (s, e) ↦
      let rest = accept-IsLife s os (subst (λ o. accept o os ≡ some ended) e h) in
      life-next stage s op os e rest.0 rest.1
]

-- From the queue on, a claimed job has the life of a job among the gauges.
pub run_claimed_job-IsLife :
    (env : Env) (job : ClaimedJob)
    → (life (ops (run_claimed_job env job).1) ≡ queued) × IsLife (ops (run_claimed_job env job).1)
run_claimed_job-IsLife env job = accept-IsLife waiting _ (accept-run_claimed_job env job)
