-- ===== src/Application/Telemetry/Gauges.antt =====
-- The gauges of queued and active jobs under every interleaving of the jobs' calls.
use webguard_instance.Base.{
  ℕ, suc, ◌+◌, ◌<◌, pos, List, [], ◌∷◌, ◌++◌, ◌≡◌, refl, arith, ap, ◌∙◌, subst, sym, length, All,
  length-append,
}
use webguard_instance.Application.Telemetry.{
  Telemetry, Op, queues, starts, finishes, drops, apply, apply_all,
}
use webguard_instance.Application.Telemetry.Life.{
  finished, idle, next, life, IsLife, is_queued, is_active, queued_jobs, active_jobs, Interleaving,
  queued_jobs-append, active_jobs-append, queued_jobs-le, active_jobs-le, Shows, apply-Shows,
}

IsLife-tail : (op : Op) (rest : List Op) → IsLife (op ∷ rest) → IsLife rest
IsLife-tail queues rest w = w.1
IsLife-tail starts rest w = w.1
IsLife-tail (drops p o) rest w = w.1
IsLife-tail (finishes p o d) rest w = w.1
IsLife-tail _ rest w = w

IsLife-head :
    (before : List (List Op)) (t : List Op) (after : List (List Op))
    → All IsLife (before ++ t ∷ after)
    → IsLife t
IsLife-head [] t after w = w.0
IsLife-head (b ∷ before) t after w = IsLife-head before t after w.1

IsLife-rest :
    (before : List (List Op)) (op : Op) (rest : List Op) (after : List (List Op))
    → All IsLife (before ++ (op ∷ rest) ∷ after)
    → All IsLife (before ++ rest ∷ after)
IsLife-rest [] op rest after w = (IsLife-tail op rest w.0, w.1)
IsLife-rest (b ∷ before) op rest after w = (w.0, IsLife-rest before op rest after w.1)

nothing_left :
    (jobs : List (List Op))
    → All (λ t. t ≡ []) jobs
    → (queued_jobs jobs ≡ 0) × (active_jobs jobs ≡ 0)
unfolding queued_jobs active_jobs
nothing_left [] e = (refl, refl)
nothing_left (t ∷ jobs) e = let (q, a) = nothing_left jobs e.1 in rw e.0 (omega arith, omega arith)

-- One call of one job among many.
next-Shows :
    (t : Telemetry) (q a : ℕ) (before : List (List Op)) (op : Op) (rest : List Op)
    (after : List (List Op))
    → IsLife (op ∷ rest)
    → q + length (before ++ (op ∷ rest) ∷ after) < 9223372036854775808
    → a + length (before ++ (op ∷ rest) ∷ after) < 9223372036854775808
    → Shows t
        (q + queued_jobs (before ++ (op ∷ rest) ∷ after))
        (a + active_jobs (before ++ (op ∷ rest) ∷ after))
    → Shows
        (apply t op)
        (q + queued_jobs (before ++ rest ∷ after))
        (a + active_jobs (before ++ rest ∷ after))
unfolding queued_jobs active_jobs
next-Shows t q a before op rest after w hq ha s = record {
  queued_shown =
      moved.queued_shown ∙ ap pos (omega (arith, queued_jobs-append before (rest ∷ after)));
  active_shown =
      moved.active_shown ∙ ap pos (omega (arith, active_jobs-append before (rest ∷ after)));
}
  where
    others_queued : ℕ
    others_queued = q + queued_jobs before + queued_jobs after

    others_active : ℕ
    others_active = a + active_jobs before + active_jobs after

    size : length before + suc (length after) ≡ length (before ++ (op ∷ rest) ∷ after)
    size = sym (length-append before ((op ∷ rest) ∷ after))

    now :
        Shows t
          (others_queued + is_queued (life (op ∷ rest)))
          (others_active + is_active (life (op ∷ rest)))
    now = record {
      queued_shown =
          s.queued_shown ∙ ap pos (omega (arith, queued_jobs-append before ((op ∷ rest) ∷ after)));
      active_shown =
          s.active_shown ∙ ap pos (omega (arith, active_jobs-append before ((op ∷ rest) ∷ after)));
    }

    moved :
        Shows
          (apply t op)
          (others_queued + is_queued (life rest))
          (others_active + is_active (life rest))
    moved =
        apply-Shows t op rest others_queued others_active
          (omega (arith, size, queued_jobs-le before, queued_jobs-le after))
          (omega (arith, size, active_jobs-le before, active_jobs-le after)) w now

pub Interleaving-Shows :
    (t : Telemetry) (q a : ℕ) {jobs : List (List Op)} {history : List Op}
    → Interleaving jobs history
    → All IsLife jobs
    → q + length jobs < 9223372036854775808
    → a + length jobs < 9223372036854775808
    → Shows t (q + queued_jobs jobs) (a + active_jobs jobs)
    → Shows (apply_all t history) q a
unfolding apply_all
Interleaving-Shows t q a (finished jobs e) w hq ha s =
    let (nq, na) = nothing_left jobs e in
    record {
      queued_shown = s.queued_shown ∙ ap pos (omega arith);
      active_shown = s.active_shown ∙ ap pos (omega arith);
    }
Interleaving-Shows t q a (next before op rest after e h) w hq ha s =
    Interleaving-Shows (apply t op) q a h (IsLife-rest before op rest after w')
      (omega (arith, same, hq')) (omega (arith, same, ha'))
      (next-Shows t q a before op rest after (IsLife-head before (op ∷ rest) after w') hq' ha'
        (subst (λ js. Shows t (q + queued_jobs js) (a + active_jobs js)) e s))
  where
    w' : All IsLife (before ++ (op ∷ rest) ∷ after)
    w' = subst (All IsLife) e w

    hq' : q + length (before ++ (op ∷ rest) ∷ after) < 9223372036854775808
    hq' = subst (λ js. q + length js < 9223372036854775808) e hq

    ha' : a + length (before ++ (op ∷ rest) ∷ after) < 9223372036854775808
    ha' = subst (λ js. a + length js < 9223372036854775808) e ha

    same : length (before ++ rest ∷ after) ≡ length (before ++ (op ∷ rest) ∷ after)
    same = length-append before (rest ∷ after) ∙ sym (length-append before ((op ∷ rest) ∷ after))

-- Jobs that have not begun stand nowhere.
no_jobs_yet :
    (jobs : List (List Op))
    → All (λ t. life t ≡ idle) jobs
    → (queued_jobs jobs ≡ 0) × (active_jobs jobs ≡ 0)
unfolding queued_jobs active_jobs
no_jobs_yet [] i = (refl, refl)
no_jobs_yet (t ∷ jobs) i = let (q, a) = no_jobs_yet jobs i.1 in rw i.0 (omega arith, omega arith)

-- However the calls of the jobs interleave, both gauges end where they began, if each job has the
-- life of a job and is idle at first, and the gauges, which count other work, are not negative and
-- cannot reach 2^63 with these jobs.
pub gauges-Interleaving :
    (t : Telemetry) (q a : ℕ) (jobs : List (List Op)) (history : List Op)
    → t.jobs_queued ≡ pos q
    → t.jobs_active ≡ pos a
    → q + length jobs < 9223372036854775808
    → a + length jobs < 9223372036854775808
    → All IsLife jobs
    → All (λ ops. life ops ≡ idle) jobs
    → Interleaving jobs history
    → ((apply_all t history).jobs_queued ≡ pos q) × ((apply_all t history).jobs_active ≡ pos a)
gauges-Interleaving t q a jobs history eq ea hq ha w i h =
    let (nq, na) = no_jobs_yet jobs i in
    let end = Interleaving-Shows t q a h w hq ha (record {
      queued_shown = eq ∙ ap pos (omega arith);
      active_shown = ea ∙ ap pos (omega arith);
    }) in
    (end.queued_shown, end.active_shown)
