-- ===== src/Health/Metrics.antt =====
-- RenderMetrics of internal/adapters/health/operations.go with the functions that it writes by. A
-- strings.Builder is the list of the texts written to it. What fmt makes of %q and of %.6f is `Verbs`;
-- a Ranges gives the order in which the loops that collect keys visit each map.

pub mod Order
pub mod Lines
pub mod Labels
use mathlib.Core.Option.{get_or}
use webguard_instance.Base.{ℕ, ℤ, pos, String, Option, none, some, List, [], ◌∷◌, ◌++◌, ◌+s◌}
use webguard_instance.Base.Dict.{Dict}
use webguard_instance.Base.Cut.{cut}
use webguard_instance.Base.Range.{each_sorted}
use webguard_instance.Monitor.Numbers.{format_int}
use webguard_instance.Application.Telemetry.{
  DurationMetric, RequestMetric, no_durations, no_requests,
}
use webguard_instance.Application.Telemetry.Snapshot.{Memory, TelemetrySnapshot, Ranges}

pub record Verbs : Type 0 where
  pub quote : String → String
  pub seconds : ℤ → String

-- "# HELP name text\n# TYPE name kind\n"
abbrev help : String → String → String → String
help name text kind = "# HELP " +s name +s " " +s text +s "\n# TYPE " +s name +s " " +s kind +s "\n"

-- "name value\n"
abbrev pub sample : String → String → String
sample name value = name +s " " +s value +s "\n"

abbrev pub counter_value : ℕ → String
counter_value n = format_int (pos n)

-- "name_count %d\nname_sum %.6f\n"
abbrev summary : Verbs → String → DurationMetric → String
summary v name m =
    sample (name +s "_count") (counter_value m.count) +s sample (name +s "_sum") (v.seconds m.sum)

abbrev pub label : Verbs → String → String → String
label v key value = key +s "=" +s v.quote value

unfoldable pub labeled_line : Verbs → String → String → String → Option ℕ → List String
labeled_line v name key_label key value =
    sample (name +s "{" +s label v key_label key +s "}") (counter_value (get_or value 0)) ∷ []

unfoldable pub write_labeled_counter : Verbs → String → String → Dict ℕ → List String → List String
unfolding labeled_line each_sorted
write_labeled_counter v name key_label values order =
    each_sorted (labeled_line v name key_label) values order

-- A line for a key of two parts, and none for any other key.
unfoldable pub split_line :
    Verbs → String → String → String → String → String → Option ℕ → List String
unfolding cut
split_line v name sep first second key value = elim (cut sep key) [
  | none ↦ []
  | some (before, after) ↦
      sample (name +s "{" +s label v first before +s "," +s label v second after +s "}")
        (counter_value (get_or value 0))
      ∷ []
]

unfoldable pub write_split_counter :
    Verbs → String → Dict ℕ → List String → String → String → List String
unfolding split_line each_sorted
write_split_counter v name values order first second =
    each_sorted (split_line v name "/" first second) values order

unfoldable pub write_transition_counter : Verbs → String → Dict ℕ → List String → List String
unfolding split_line each_sorted
write_transition_counter v name values order =
    each_sorted (split_line v name "->" "from" "to") values order

unfoldable pub request_lines : Verbs → String → Option RequestMetric → List String
request_lines v key value =
    let m = get_or value no_requests in
    let at = λ (name : String). name +s "{" +s label v "operation" key +s "}" in
    sample (at "webguard_instance_core_requests_total") (counter_value m.count)
    ∷ sample (at "webguard_instance_core_request_errors_total") (counter_value m.errors)
    ∷ sample (at "webguard_instance_core_request_duration_seconds_count") (counter_value m.count)
    ∷ sample (at "webguard_instance_core_request_duration_seconds_sum") (v.seconds m.duration)
    ∷ []

unfoldable pub write_request_metrics : Verbs → Dict RequestMetric → List String → List String
unfolding request_lines each_sorted
write_request_metrics v values order =
    help "webguard_instance_core_request_duration_seconds"
      "Time spent making Core API requests by bounded operation." "summary"
    ∷ each_sorted (request_lines v) values order

unfoldable pub duration_lines :
    Verbs → String → String → String → Option DurationMetric → List String
duration_lines v name key_label key value =
    let m = get_or value no_durations in
    let at = "{" +s label v key_label key +s "}" in
    sample (name +s "_count" +s at) (counter_value m.count)
    ∷ sample (name +s "_sum" +s at) (v.seconds m.sum)
    ∷ []

unfoldable pub write_duration_metrics :
    Verbs → String → Dict DurationMetric → List String → String → List String
unfolding duration_lines each_sorted
write_duration_metrics v name values order key_label =
    each_sorted (duration_lines v name key_label) values order

-- The parts of RenderMetrics, each on one group of counters.
unfoldable pub render_runs : Verbs → TelemetrySnapshot → Ranges → List String
unfolding write_labeled_counter
render_runs v s order =
    help "webguard_instance_runs_total" "Monitoring runs by terminal outcome." "counter"
      ∷ write_labeled_counter v "webguard_instance_runs_total" "outcome" s.runs order.runs
    ++ help "webguard_instance_run_duration_seconds" "Total duration of completed monitoring runs."
        "summary"
      ∷ summary v "webguard_instance_run_duration_seconds" s.run_duration
      ∷ []

unfoldable pub render_jobs : Verbs → TelemetrySnapshot → Ranges → List String
unfolding write_split_counter write_duration_metrics write_transition_counter
render_jobs v s order =
    (sample "webguard_instance_jobs_active" (format_int s.jobs_active)
        +s sample "webguard_instance_jobs_queued" (format_int s.jobs_queued))
      ∷ help "webguard_instance_executor_outcomes_total"
          "Executor outcomes by bounded phase and outcome." "counter"
      ∷ write_split_counter v "webguard_instance_executor_outcomes_total" s.executors
          order.executors "phase" "outcome"
    ++ help "webguard_instance_job_duration_seconds"
        "Duration of individual monitoring checks by phase." "summary"
      ∷ write_duration_metrics v "webguard_instance_job_duration_seconds" s.job_duration
          order.job_duration "phase"
    ++ help "webguard_instance_job_transitions_total" "Monitoring job state transitions." "counter"
      ∷ write_transition_counter v "webguard_instance_job_transitions_total" s.transitions
          order.transitions

unfoldable pub render_scheduler : Verbs → TelemetrySnapshot → Ranges → List String
unfolding write_labeled_counter
render_scheduler v s order =
    help "webguard_instance_scheduler_runs_total" "Scheduled run outcomes." "counter"
      ∷ write_labeled_counter v "webguard_instance_scheduler_runs_total" "outcome" s.scheduler_runs
          order.scheduler_runs
    ++ help "webguard_instance_scheduler_delay_seconds"
        "Delay between the scheduled boundary and run start." "summary"
      ∷ summary v "webguard_instance_scheduler_delay_seconds" s.scheduler_delay
      ∷ help "webguard_instance_scheduler_run_duration_seconds" "Duration of scheduled work."
          "summary"
      ∷ summary v "webguard_instance_scheduler_run_duration_seconds" s.scheduler_duration
      ∷ []

unfoldable pub render_core : Verbs → TelemetrySnapshot → Ranges → List String
unfolding write_request_metrics
render_core v s order =
    help "webguard_instance_core_requests_total" "Core API requests by bounded operation." "counter"
    ∷ write_request_metrics v s.core order.core

unfoldable pub render_leases : Verbs → TelemetrySnapshot → Ranges → List String
unfolding write_labeled_counter
render_leases v s order =
    help "webguard_instance_lease_events_total" "Lease lifecycle events." "counter"
      ∷ write_labeled_counter v "webguard_instance_lease_events_total" "event" s.leases order.leases
    ++ help "webguard_instance_lease_wait_seconds" "Time from job claim to worker start." "summary"
      ∷ summary v "webguard_instance_lease_wait_seconds" s.lease_wait
      ∷ []

abbrev gauge : String → String → ℤ → List String
gauge name text value = help name text "gauge" ∷ sample name (format_int value) ∷ []

unfoldable pub render_process : Memory → List String
render_process m =
    gauge "webguard_instance_process_goroutines" "Current number of process goroutines."
      m.goroutines
    ++ gauge "webguard_instance_process_heap_alloc_bytes" "Current allocated heap bytes."
        (pos m.heap_alloc_bytes)
    ++ gauge "webguard_instance_process_heap_inuse_bytes" "Current in-use heap bytes."
        (pos m.heap_in_use_bytes)
    ++ gauge "webguard_instance_process_sys_bytes"
        "Current Go runtime memory obtained from the operating system." (pos m.sys_bytes)

-- metrics.String()
unfoldable pub concat_texts : List String → String
concat_texts [] = ""
concat_texts (s ∷ ss) = s +s concat_texts ss

unfoldable pub render_metrics : Verbs → TelemetrySnapshot → Ranges → String
render_metrics v s order = concat_texts (
    render_runs v s order
    ++ render_jobs v s order
    ++ render_scheduler v s order
    ++ render_core v s order
    ++ render_leases v s order
    ++ render_process s.memory)
