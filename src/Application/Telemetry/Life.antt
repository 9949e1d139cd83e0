-- ===== src/Application/Telemetry/Life.antt =====
-- Where the jobs stand whose calls the gauges of internal/application/telemetry.go count.
use webguard_instance.Base.{
  ℕ, suc, ◌+◌, ◌<◌, ◌≤◌, pos, ◌+ℤ◌, ◌-ℤ◌, wrap64, List, [], ◌∷◌, ◌++◌, ◌≡◌, arith, length, All,
}
use webguard_instance.Application.Telemetry.{
  Telemetry, Op, queues, starts, finishes, drops, increase, decrease, apply,
}

-- Where a job stands, by what it still has to do.
pub data Life : Type 0 where
  idle queued active : Life

abbrev pub life : List Op → Life
life [] = idle
life (queues ∷ ops) = idle
life (starts ∷ ops) = queued
life (drops phase outcome ∷ ops) = queued
life (finishes phase outcome duration ∷ ops) = active
life (op ∷ ops) = life ops

-- A job is queued, then dropped, or started and then finished.
abbrev pub IsLife : List Op → Type 0
IsLife [] = Unit
IsLife (queues ∷ ops) = (life ops ≡ queued) × IsLife ops
IsLife (starts ∷ ops) = (life ops ≡ active) × IsLife ops
IsLife (drops phase outcome ∷ ops) = (life ops ≡ idle) × IsLife ops
IsLife (finishes phase outcome duration ∷ ops) = (life ops ≡ idle) × IsLife ops
IsLife (op ∷ ops) = IsLife ops

abbrev pub is_queued : Life → ℕ
is_queued queued = 1
is_queued _ = 0

abbrev pub is_active : Life → ℕ
is_active active = 1
is_active _ = 0

unfoldable pub queued_jobs : List (List Op) → ℕ
queued_jobs [] = 0
queued_jobs (t ∷ ts) = is_queued (life t) + queued_jobs ts

unfoldable pub active_jobs : List (List Op) → ℕ
active_jobs [] = 0
active_jobs (t ∷ ts) = is_active (life t) + active_jobs ts

-- A history of calls in which each job's calls stand in the job's order.
pub data Interleaving : List (List Op) → List Op → Type 0 where
  finished : (jobs : List (List Op)) → All (λ t. t ≡ []) jobs → Interleaving jobs []
  next :
      {jobs : List (List Op)} {history : List Op} (before : List (List Op)) (op : Op)
      (rest : List Op) (after : List (List Op))
      → jobs ≡ before ++ (op ∷ rest) ∷ after
      → Interleaving (before ++ rest ∷ after) history
      → Interleaving jobs (op ∷ history)

pub increase_lem : (n : ℕ) → suc n < 9223372036854775808 → increase (pos n) ≡ pos (suc n)
unfolding increase ◌+ℤ◌ wrap64
increase_lem n h = ground arith

decrease_lem : (n : ℕ) → decrease (pos (suc n)) ≡ pos n
unfolding decrease ◌-ℤ◌
decrease_lem n = ground arith

pub queued_jobs-append :
    (xs ys : List (List Op)) → queued_jobs (xs ++ ys) ≡ queued_jobs xs + queued_jobs ys
unfolding queued_jobs
queued_jobs-append [] ys = omega arith
queued_jobs-append (x ∷ xs) ys = omega (arith, queued_jobs-append xs ys)

pub active_jobs-append :
    (xs ys : List (List Op)) → active_jobs (xs ++ ys) ≡ active_jobs xs + active_jobs ys
unfolding active_jobs
active_jobs-append [] ys = omega arith
active_jobs-append (x ∷ xs) ys = omega (arith, active_jobs-append xs ys)

pub queued_jobs-le : (xs : List (List Op)) → queued_jobs xs ≤ length xs
unfolding queued_jobs
queued_jobs-le [] = omega arith
queued_jobs-le (x ∷ xs) = ground (arith, queued_jobs-le xs)

pub active_jobs-le : (xs : List (List Op)) → active_jobs xs ≤ length xs
unfolding active_jobs
active_jobs-le [] = omega arith
active_jobs-le (x ∷ xs) = ground (arith, active_jobs-le xs)

-- The gauges, as the jobs that stand in each place plus what other work contributes.
pub record Shows (t : Telemetry) (q a : ℕ) : Type 0 where
  pub queued_shown : t.jobs_queued ≡ pos q
  pub active_shown : t.jobs_active ≡ pos a

-- One call moves the gauges as it moves its job.
pub apply-Shows :
    (t : Telemetry) (op : Op) (rest : List Op) (q a : ℕ)
    → suc q < 9223372036854775808
    → suc a < 9223372036854775808
    → IsLife (op ∷ rest)
    → Shows t (q + is_queued (life (op ∷ rest))) (a + is_active (life (op ∷ rest)))
    → Shows (apply t op) (q + is_queued (life rest)) (a + is_active (life rest))
unfolding apply
apply-Shows t queues rest q a hq ha w s = ground (arith, increase_lem q)
apply-Shows t starts rest q a hq ha w s = ground (arith, decrease_lem q, increase_lem a)
apply-Shows t (drops p o) rest q a hq ha w s = ground (arith, decrease_lem q)
apply-Shows t (finishes p o d) rest q a hq ha w s = ground (arith, decrease_lem a)
apply-Shows t _ rest q a hq ha w s = record {
  queued_shown = s.queued_shown;
  active_shown = s.active_shown;
}
