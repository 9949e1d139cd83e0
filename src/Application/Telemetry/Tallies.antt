-- ===== src/Application/Telemetry/Tallies.antt =====
-- Telemetry as a history: what each counter shows after any calls of the methods.
use mathlib.Core.Option.{get_or}
use mathlib.Core.Option
use webguard_instance.Base.{
  ℕ, ◌+◌, ◌==◌, ◌≤◌, ◌<◌, u64, String, Bool, true, false, Option, none, some, List, [], ◌∷◌, ◌≡◌,
  refl, arith, str_eq, eq_iff, if◌then◌else◌, ◌+s◌, ap,
}
use webguard_instance.Base.Dict.{Dict, get, get-put, get-empty}
use webguard_instance.Application.Telemetry.{
  Telemetry, DurationMetric, RequestMetric, Op, queues, finishes, drops, moves, schedules, requests,
  bump, observe, count_request, apply, apply_all, new_telemetry, no_durations, no_requests,
}

-- How many calls of a history a test marks.
unfoldable pub calls : (Op → Bool) → List Op → ℕ
calls test [] = 0
calls test (op ∷ ops) = (if test op then 1 else 0) + calls test ops

-- What a counter shows that n calls have reached: nothing for none, and else n in 64 bits.
abbrev pub tally : ℕ → Option ℕ
tally n = if n == 0 then none else some (u64 n)

-- The calls that a key of a map counts.
abbrev pub runs_as : String → Op → Bool
runs_as k (Op.runs duration outcome) = str_eq outcome k
runs_as k _ = false

abbrev pub ends_as : String → Op → Bool
ends_as k (finishes phase outcome duration) = str_eq (phase +s "/" +s outcome) k
ends_as k (drops phase outcome) = str_eq (phase +s "/" +s outcome) k
ends_as k _ = false

abbrev pub finishes_in : String → Op → Bool
finishes_in k (finishes phase outcome duration) = str_eq phase k
finishes_in k _ = false

abbrev pub moves_along : String → Op → Bool
moves_along k (moves from to) =
    str_eq ((if str_eq from "" then "received" else from) +s "->" +s to) k
moves_along k _ = false

abbrev pub schedules_as : String → Op → Bool
schedules_as k (schedules delay duration outcome) = str_eq outcome k
schedules_as k _ = false

abbrev pub requests_for : String → Op → Bool
requests_for k (requests operation duration failed) = str_eq operation k
requests_for k _ = false

abbrev pub fails_for : String → Op → Bool
fails_for k (requests operation duration true) = str_eq operation k
fails_for k _ = false

abbrev pub leases_as : String → Op → Bool
leases_as k (Op.leases event) = str_eq event k
leases_as k _ = false

-- Each marked call creates what is read of the telemetry, or raises it by one if it also raises.
abbrev Counts : (Telemetry → Option ℕ) → (Op → Bool) → (Op → Bool) → Type 0
Counts reading marked raised =
    (t : Telemetry) (op : Op)
    → reading (apply t op) ≡ (
        if marked op
        then some (if raised op then u64 (get_or (reading t) 0 + 1) else get_or (reading t) 0)
        else reading t)

module _ (reading : Telemetry → Option ℕ) (marked raised : Op → Bool)
    (law : Counts reading marked raised)
    (only : (op : Op) → raised op ≡ true → marked op ≡ true) where
  calls_fewer : (ops : List Op) → calls raised ops ≤ calls marked ops
  unfolding calls
  calls_fewer [] = omega arith
  calls_fewer (op ∷ ops) = ground (arith, only op, calls_fewer ops)

  reading-apply_all :
      (t : Telemetry) (ops : List Op)
      → get_or (reading t) 0 < 18446744073709551616
      → reading (apply_all t ops) ≡ (
          if calls marked ops == 0
          then reading t
          else some (u64 (get_or (reading t) 0 + calls raised ops)))
  unfolding apply_all calls
  reading-apply_all t [] small = refl
  reading-apply_all t (op ∷ ops) small =
      ground (arith, reading-apply_all (apply t op) ops, law t op, only op, calls_fewer ops)

  -- From a telemetry in which the reading is not there.
  tally_lem :
      (t : Telemetry) (ops : List Op)
      → reading t ≡ none
      → reading (apply_all t ops)
        ≡ (if calls marked ops == 0 then none else some (u64 (calls raised ops)))
  tally_lem t ops e = ground (arith, reading-apply_all t ops)

get_law :
    (key k : String) (d : Dict ℕ)
    → get (bump d key) k ≡ (
        if str_eq key k
        then some (if str_eq key k then u64 (get_or (get d k) 0 + 1) else get_or (get d k) 0)
        else get d k)
unfolding bump
get_law key k d = ground (arith, eq_iff key k, get-put d key k (u64 (get_or (get d key) 0 + 1)))

runs_law : (k : String) → Counts (λ t. get t.runs k) (runs_as k) (runs_as k)
unfolding apply
runs_law k t (Op.runs duration outcome) = get_law outcome k t.runs
runs_law k t queues = refl
runs_law k t _ = refl

executors_law : (k : String) → Counts (λ t. get t.executors k) (ends_as k) (ends_as k)
unfolding apply
executors_law k t (finishes phase outcome duration) =
    get_law (phase +s "/" +s outcome) k t.executors
executors_law k t (drops phase outcome) = get_law (phase +s "/" +s outcome) k t.executors
executors_law k t queues = refl
executors_law k t _ = refl

transitions_law : (k : String) → Counts (λ t. get t.transitions k) (moves_along k) (moves_along k)
unfolding apply
transitions_law k t (moves from to) =
    get_law ((if str_eq from "" then "received" else from) +s "->" +s to) k t.transitions
transitions_law k t queues = refl
transitions_law k t _ = refl

scheduler_runs_law :
    (k : String) → Counts (λ t. get t.scheduler_runs k) (schedules_as k) (schedules_as k)
unfolding apply
scheduler_runs_law k t (schedules delay duration outcome) = get_law outcome k t.scheduler_runs
scheduler_runs_law k t queues = refl
scheduler_runs_law k t _ = refl

leases_law : (k : String) → Counts (λ t. get t.leases k) (leases_as k) (leases_as k)
unfolding apply
leases_law k t (Op.leases event) = get_law event k t.leases
leases_law k t queues = refl
leases_law k t _ = refl

abbrev count_of : Option DurationMetric → Option ℕ
count_of = Option.map (λ (m : DurationMetric). m.count)

abbrev requests_of : Option RequestMetric → Option ℕ
requests_of = Option.map (λ (m : RequestMetric). m.count)

abbrev errors_of : Option RequestMetric → Option ℕ
errors_of = Option.map (λ (m : RequestMetric). m.errors)

job_duration_law :
    (k : String) → Counts (λ t. count_of (get t.job_duration k)) (finishes_in k) (finishes_in k)
unfolding apply observe
job_duration_law k t (finishes phase outcome duration) = ground (
  arith,
  eq_iff phase k,
  get-put t.job_duration phase k
      (observe (get_or (get t.job_duration phase) no_durations) duration),
)
job_duration_law k t queues = refl
job_duration_law k t _ = refl

core_law : (k : String) → Counts (λ t. requests_of (get t.core k)) (requests_for k) (requests_for k)
unfolding apply count_request
core_law k t (requests operation duration failed) = ground (
  arith,
  eq_iff operation k,
  get-put t.core operation k
      (count_request (get_or (get t.core operation) no_requests) duration failed),
)
core_law k t queues = refl
core_law k t _ = refl

errors_law : (k : String) → Counts (λ t. errors_of (get t.core k)) (requests_for k) (fails_for k)
unfolding apply count_request
errors_law k t (requests operation duration true) = ground (
  arith,
  eq_iff operation k,
  get-put t.core operation k
      (count_request (get_or (get t.core operation) no_requests) duration true),
)
errors_law k t (requests operation duration false) = ground (
  arith,
  eq_iff operation k,
  get-put t.core operation k
      (count_request (get_or (get t.core operation) no_requests) duration false),
)
errors_law k t queues = refl
errors_law k t _ = refl

abbrev pub tally_of : ℕ → ℕ → Option ℕ
tally_of seen n = if seen == 0 then none else some (u64 n)

-- What the telemetry shows of a history of calls. The field `failed` is on the operations that were
-- called at all.
pub record Tallies (t : Telemetry) (history : List Op) : Type 0 where
  pub runs : (k : String) → get t.runs k ≡ tally (calls (runs_as k) history)
  pub executors : (k : String) → get t.executors k ≡ tally (calls (ends_as k) history)
  pub transitions : (k : String) → get t.transitions k ≡ tally (calls (moves_along k) history)
  pub scheduler_runs :
      (k : String) → get t.scheduler_runs k ≡ tally (calls (schedules_as k) history)
  pub leases : (k : String) → get t.leases k ≡ tally (calls (leases_as k) history)
  pub job_duration :
      (k : String) → count_of (get t.job_duration k) ≡ tally (calls (finishes_in k) history)
  pub core : (k : String) → requests_of (get t.core k) ≡ tally (calls (requests_for k) history)
  pub failed :
      (k : String)
      → errors_of (get t.core k)
        ≡ tally_of (calls (requests_for k) history) (calls (fails_for k) history)

only_fails : (k : String) (op : Op) → fails_for k op ≡ true → requests_for k op ≡ true
only_fails k (requests operation duration true) h = h
only_fails k (requests operation duration false) h = ground arith
only_fails k queues h = ground arith
only_fails k _ h = ground arith

-- After any calls on a new telemetry each counter shows how many of them it counts, modulo 2^64, and is
-- absent if there are none: runs, ends and drops of jobs, transitions, scheduled runs, lease events,
-- the checks of a phase, and the requests of an operation with those that failed.
pub apply_all-Tallies : (history : List Op) → Tallies (apply_all new_telemetry history) history
unfolding new_telemetry
apply_all-Tallies history = record {
  runs = λ k.
      tally_lem (λ t. get t.runs k) (runs_as k) (runs_as k) (runs_law k) (λ op h. h) new_telemetry
        history (get-empty k);
  executors = λ k.
      tally_lem (λ t. get t.executors k) (ends_as k) (ends_as k) (executors_law k) (λ op h. h)
        new_telemetry history (get-empty k);
  transitions = λ k.
      tally_lem (λ t. get t.transitions k) (moves_along k) (moves_along k) (transitions_law k)
        (λ op h. h) new_telemetry history (get-empty k);
  scheduler_runs = λ k.
      tally_lem (λ t. get t.scheduler_runs k) (schedules_as k) (schedules_as k)
        (scheduler_runs_law k) (λ op h. h) new_telemetry history (get-empty k);
  leases = λ k.
      tally_lem (λ t. get t.leases k) (leases_as k) (leases_as k) (leases_law k) (λ op h. h)
        new_telemetry history (get-empty k);
  job_duration = λ k.
      tally_lem (λ t. count_of (get t.job_duration k)) (finishes_in k) (finishes_in k)
        (job_duration_law k) (λ op h. h) new_telemetry history (ap count_of (get-empty k));
  core = λ k.
      tally_lem (λ t. requests_of (get t.core k)) (requests_for k) (requests_for k) (core_law k)
        (λ op h. h) new_telemetry history (ap requests_of (get-empty k));
  failed = λ k.
      tally_lem (λ t. errors_of (get t.core k)) (requests_for k) (fails_for k) (errors_law k)
        (only_fails k) new_telemetry history (ap errors_of (get-empty k));
}
