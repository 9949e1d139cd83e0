-- ===== src/Application/Telemetry.antt =====
-- internal/application/telemetry.go. Each method holds the mutex for its whole body, so it is one
-- step from a state to the next; `Op` names the methods with their arguments. Counters are uint64,
-- gauges int64, durations int64 nanoseconds. The check for a nil receiver is `on_receiver`.
pub mod Life
pub mod Gauges
pub mod Snapshot
pub mod Tallies
use mathlib.Core.Option.{get_or}
use mathlib.Core.Option
use webguard_instance.Base.{
  ℕ, ◌+◌, ℤ, pos, ◌+ℤ◌, ◌-ℤ◌, wrap64, u64, String, Bool, Option, List, [], ◌∷◌, ltb_ℤ, str_eq,
  if◌then◌else◌, ◌+s◌,
}
use webguard_instance.Base.Dict
use webguard_instance.Base.Dict.{Dict, get, put}

pub record DurationMetric : Type 0 where
  pub count : ℕ
  pub sum : ℤ

pub record RequestMetric : Type 0 where
  pub count : ℕ
  pub errors : ℕ
  pub duration : ℤ

pub record Telemetry : Type 0 where
  pub runs : Dict ℕ
  pub run_duration : DurationMetric
  pub jobs_active : ℤ
  pub jobs_queued : ℤ
  pub executors : Dict ℕ
  pub job_duration : Dict DurationMetric
  pub transitions : Dict ℕ
  pub scheduler_runs : Dict ℕ
  pub scheduler_delay : DurationMetric
  pub scheduler_duration : DurationMetric
  pub lease_wait : DurationMetric
  pub core : Dict RequestMetric
  pub leases : Dict ℕ

abbrev pub no_durations : DurationMetric
no_durations = record { count = 0; sum = pos 0 }

abbrev pub no_requests : RequestMetric
no_requests = record { count = 0; errors = 0; duration = pos 0 }

unfoldable pub new_telemetry : Telemetry
new_telemetry = record {
  runs = Dict.empty;
  run_duration = no_durations;
  jobs_active = pos 0;
  jobs_queued = pos 0;
  executors = Dict.empty;
  job_duration = Dict.empty;
  transitions = Dict.empty;
  scheduler_runs = Dict.empty;
  scheduler_delay = no_durations;
  scheduler_duration = no_durations;
  lease_wait = no_durations;
  core = Dict.empty;
  leases = Dict.empty;
}

-- m[key]++
unfoldable pub bump : Dict ℕ → String → Dict ℕ
bump d key = put d key (u64 (get_or (get d key) 0 + 1))

unfoldable pub observe : DurationMetric → ℤ → DurationMetric
observe m duration = record { count = u64 (m.count + 1); sum = wrap64 (m.sum +ℤ duration) }

-- x++ and `if x > 0 { x-- }` on an int64
unfoldable pub increase : ℤ → ℤ
increase x = wrap64 (x +ℤ pos 1)

unfoldable pub decrease : ℤ → ℤ
decrease x = if ltb_ℤ (pos 0) x then x -ℤ pos 1 else x

record_run : Telemetry → ℤ → String → Telemetry
unfolding bump observe
record_run t duration outcome = record t {
  runs = bump t.runs outcome;
  run_duration = observe t.run_duration duration;
}

queue_job : Telemetry → Telemetry
queue_job t = record t { jobs_queued = increase t.jobs_queued }

start_job : Telemetry → Telemetry
start_job t = record t {
  jobs_queued = decrease t.jobs_queued;
  jobs_active = increase t.jobs_active;
}

finish_job_with_duration : Telemetry → String → String → ℤ → Telemetry
finish_job_with_duration t phase outcome duration = record t {
  jobs_active = decrease t.jobs_active;
  executors = bump t.executors (phase +s "/" +s outcome);
  job_duration =
      put t.job_duration phase (observe (get_or (get t.job_duration phase) no_durations) duration);
}

drop_queued_job : Telemetry → String → String → Telemetry
drop_queued_job t phase outcome = record t {
  jobs_queued = decrease t.jobs_queued;
  executors = bump t.executors (phase +s "/" +s outcome);
}

record_job_transition : Telemetry → String → String → Telemetry
record_job_transition t from to = record t {
  transitions = bump t.transitions ((if str_eq from "" then "received" else from) +s "->" +s to);
}

record_scheduler_run : Telemetry → ℤ → ℤ → String → Telemetry
record_scheduler_run t delay duration outcome = record t {
  scheduler_runs = bump t.scheduler_runs outcome;
  scheduler_delay = observe t.scheduler_delay delay;
  scheduler_duration = observe t.scheduler_duration duration;
}

record_lease_wait : Telemetry → ℤ → Telemetry
record_lease_wait t duration = record t { lease_wait = observe t.lease_wait duration }

count_request : RequestMetric → ℤ → Bool → RequestMetric
count_request m duration failed = record {
  count = u64 (m.count + 1);
  errors = if failed then u64 (m.errors + 1) else m.errors;
  duration = wrap64 (m.duration +ℤ duration);
}

record_core_request : Telemetry → String → ℤ → Bool → Telemetry
unfolding count_request
record_core_request t operation duration failed = record t {
  core =
      put t.core operation
        (count_request (get_or (get t.core operation) no_requests) duration failed);
}

record_lease : Telemetry → String → Telemetry
record_lease t event = record t { leases = bump t.leases event }

-- A call of a method. FinishJob is `finishes` with the duration 0.
pub data Op : Type 0 where
  runs : ℤ → String → Op
  queues starts : Op
  finishes : String → String → ℤ → Op
  drops : String → String → Op
  moves : String → String → Op
  schedules : ℤ → ℤ → String → Op
  waits : ℤ → Op
  requests : String → ℤ → Bool → Op
  leases : String → Op

unfoldable pub apply : Telemetry → Op → Telemetry
unfolding record_run queue_job start_job finish_job_with_duration drop_queued_job
    record_job_transition record_scheduler_run record_lease_wait record_core_request record_lease
apply t (Op.runs duration outcome) = record_run t duration outcome
apply t queues = queue_job t
apply t starts = start_job t
apply t (finishes phase outcome duration) = finish_job_with_duration t phase outcome duration
apply t (drops phase outcome) = drop_queued_job t phase outcome
apply t (moves from to) = record_job_transition t from to
apply t (schedules delay duration outcome) = record_scheduler_run t delay duration outcome
apply t (waits duration) = record_lease_wait t duration
apply t (requests operation duration failed) = record_core_request t operation duration failed
apply t (Op.leases event) = record_lease t event

unfoldable pub apply_all : Telemetry → List Op → Telemetry
apply_all t [] = t
apply_all t (op ∷ ops) = apply_all (apply t op) ops

-- `if t == nil { return }` in front of every method
unfoldable pub on_receiver : Option Telemetry → Op → Option Telemetry
unfolding apply
on_receiver t op = Option.map (λ s. apply s op) t
