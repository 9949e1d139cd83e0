-- ===== src/Application/Telemetry/Snapshot.antt =====
-- Telemetry.Snapshot of internal/application/telemetry.go, with the functions that clone maps. The
-- orders in which their loops visit keys are in `Ranges`, what the Go runtime reports in `Memory`.
use webguard_instance.Base.{ℕ, ℤ, pos, String, Option, none, some, List, ◌≡◌, refl}
use webguard_instance.Base.Dict
use webguard_instance.Base.Dict.{Dict}
use webguard_instance.Base.Range.{copy_into, copy_into-SameMap, Visits, SameMap}
use webguard_instance.Application.Telemetry.{Telemetry, DurationMetric, RequestMetric, no_durations}

-- The runtime's numbers: goroutines and bytes.
pub record Memory : Type 0 where
  pub goroutines : ℤ
  pub heap_alloc_bytes : ℕ
  pub heap_in_use_bytes : ℕ
  pub sys_bytes : ℕ

pub record TelemetrySnapshot : Type 0 where
  pub runs : Dict ℕ
  pub run_duration : DurationMetric
  pub jobs_active : ℤ
  pub jobs_queued : ℤ
  pub executors : Dict ℕ
  pub job_duration : Dict DurationMetric
  pub transitions : Dict ℕ
  pub scheduler_runs : Dict ℕ
  pub scheduler_delay : DurationMetric
  pub scheduler_duration : DurationMetric
  pub lease_wait : DurationMetric
  pub core : Dict RequestMetric
  pub leases : Dict ℕ
  pub memory : Memory

-- The order of a range loop over each of the maps.
pub record Ranges : Type 0 where
  pub runs : List String
  pub executors : List String
  pub job_duration : List String
  pub transitions : List String
  pub scheduler_runs : List String
  pub core : List String
  pub leases : List String

unfoldable pub clone_map : Dict ℕ → List String → Dict ℕ
unfolding copy_into
clone_map source order = copy_into source Dict.empty order

unfoldable pub clone_requests : Dict RequestMetric → List String → Dict RequestMetric
unfolding copy_into
clone_requests source order = copy_into source Dict.empty order

unfoldable pub clone_durations : Dict DurationMetric → List String → Dict DurationMetric
unfolding copy_into
clone_durations source order = copy_into source Dict.empty order

abbrev pub no_memory : Memory
no_memory = record {
  goroutines = pos 0;
  heap_alloc_bytes = 0;
  heap_in_use_bytes = 0;
  sys_bytes = 0;
}

-- TelemetrySnapshot{}
abbrev pub empty_snapshot : TelemetrySnapshot
empty_snapshot = record {
  runs = Dict.empty;
  run_duration = no_durations;
  jobs_active = pos 0;
  jobs_queued = pos 0;
  executors = Dict.empty;
  job_duration = Dict.empty;
  transitions = Dict.empty;
  scheduler_runs = Dict.empty;
  scheduler_delay = no_durations;
  scheduler_duration = no_durations;
  lease_wait = no_durations;
  core = Dict.empty;
  leases = Dict.empty;
  memory = no_memory;
}

unfoldable pub snapshot : Option Telemetry → Ranges → Memory → TelemetrySnapshot
unfolding clone_map clone_requests clone_durations
snapshot none order memory = empty_snapshot
snapshot (some t) order memory = record {
  runs = clone_map t.runs order.runs;
  run_duration = t.run_duration;
  jobs_active = t.jobs_active;
  jobs_queued = t.jobs_queued;
  executors = clone_map t.executors order.executors;
  job_duration = clone_durations t.job_duration order.job_duration;
  transitions = clone_map t.transitions order.transitions;
  scheduler_runs = clone_map t.scheduler_runs order.scheduler_runs;
  scheduler_delay = t.scheduler_delay;
  scheduler_duration = t.scheduler_duration;
  lease_wait = t.lease_wait;
  core = clone_requests t.core order.core;
  leases = clone_map t.leases order.leases;
  memory = memory;
}

-- The state that a snapshot shows, with the maps themselves.
abbrev pub view : Telemetry → Memory → TelemetrySnapshot
view t memory = record {
  runs = t.runs;
  run_duration = t.run_duration;
  jobs_active = t.jobs_active;
  jobs_queued = t.jobs_queued;
  executors = t.executors;
  job_duration = t.job_duration;
  transitions = t.transitions;
  scheduler_runs = t.scheduler_runs;
  scheduler_delay = t.scheduler_delay;
  scheduler_duration = t.scheduler_duration;
  lease_wait = t.lease_wait;
  core = t.core;
  leases = t.leases;
  memory = memory;
}

-- Orders in which loops over the maps of a snapshot may run.
pub record RangesOver (s : TelemetrySnapshot) (r : Ranges) : Type 0 where
  pub runs_visits : Visits s.runs r.runs
  pub executors_visits : Visits s.executors r.executors
  pub job_duration_visits : Visits s.job_duration r.job_duration
  pub transitions_visits : Visits s.transitions r.transitions
  pub scheduler_runs_visits : Visits s.scheduler_runs r.scheduler_runs
  pub core_visits : Visits s.core r.core
  pub leases_visits : Visits s.leases r.leases

-- The same numbers, and maps with the same values under the same keys.
pub record SameMetrics (s t : TelemetrySnapshot) : Type 0 where
  pub runs_same : SameMap s.runs t.runs
  pub run_duration_same : s.run_duration ≡ t.run_duration
  pub jobs_active_same : s.jobs_active ≡ t.jobs_active
  pub jobs_queued_same : s.jobs_queued ≡ t.jobs_queued
  pub executors_same : SameMap s.executors t.executors
  pub job_duration_same : SameMap s.job_duration t.job_duration
  pub transitions_same : SameMap s.transitions t.transitions
  pub scheduler_runs_same : SameMap s.scheduler_runs t.scheduler_runs
  pub scheduler_delay_same : s.scheduler_delay ≡ t.scheduler_delay
  pub scheduler_duration_same : s.scheduler_duration ≡ t.scheduler_duration
  pub lease_wait_same : s.lease_wait ≡ t.lease_wait
  pub core_same : SameMap s.core t.core
  pub leases_same : SameMap s.leases t.leases
  pub memory_same : s.memory ≡ t.memory

-- A snapshot shows the state, whatever the orders of its loops.
pub snapshot-SameMetrics :
    (t : Telemetry) (r : Ranges) (memory : Memory)
    → RangesOver (view t memory) r
    → SameMetrics (snapshot (some t) r memory) (view t memory)
unfolding snapshot
snapshot-SameMetrics t r memory over = record {
  runs_same = copy_into-SameMap t.runs r.runs over.runs_visits;
  run_duration_same = refl;
  jobs_active_same = refl;
  jobs_queued_same = refl;
  executors_same = copy_into-SameMap t.executors r.executors over.executors_visits;
  job_duration_same = copy_into-SameMap t.job_duration r.job_duration over.job_duration_visits;
  transitions_same = copy_into-SameMap t.transitions r.transitions over.transitions_visits;
  scheduler_runs_same =
      copy_into-SameMap t.scheduler_runs r.scheduler_runs over.scheduler_runs_visits;
  scheduler_delay_same = refl;
  scheduler_duration_same = refl;
  lease_wait_same = refl;
  core_same = copy_into-SameMap t.core r.core over.core_visits;
  leases_same = copy_into-SameMap t.leases r.leases over.leases_visits;
  memory_same = refl;
}
