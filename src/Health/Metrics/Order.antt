-- ===== src/Health/Metrics/Order.antt =====
-- The rendered metrics do not depend on the order in which Go visits the entries of a map.
use webguard_instance.Base.{String, ◌≡◌}
use webguard_instance.Base.Range.{each_sorted-Visits, Visits-SameMap}
use webguard_instance.Application.Telemetry.Snapshot.{
  TelemetrySnapshot, Ranges, RangesOver, SameMetrics,
}
use webguard_instance.Health.Metrics.{
  Verbs, labeled_line, write_labeled_counter, split_line, write_split_counter,
  write_transition_counter, request_lines, write_request_metrics, duration_lines,
  write_duration_metrics, render_runs, render_jobs, render_scheduler, render_core, render_leases,
  render_metrics,
}

pub RangesOver-SameMetrics :
    (s t : TelemetrySnapshot) (q : Ranges) → SameMetrics s t → RangesOver t q → RangesOver s q
RangesOver-SameMetrics s t q same over = record {
  runs_visits = Visits-SameMap s.runs t.runs q.runs same.runs_same over.runs_visits;
  executors_visits =
      Visits-SameMap s.executors t.executors q.executors same.executors_same over.executors_visits;
  job_duration_visits =
      Visits-SameMap s.job_duration t.job_duration q.job_duration same.job_duration_same
        over.job_duration_visits;
  transitions_visits =
      Visits-SameMap s.transitions t.transitions q.transitions same.transitions_same
        over.transitions_visits;
  scheduler_runs_visits =
      Visits-SameMap s.scheduler_runs t.scheduler_runs q.scheduler_runs same.scheduler_runs_same
        over.scheduler_runs_visits;
  core_visits = Visits-SameMap s.core t.core q.core same.core_same over.core_visits;
  leases_visits = Visits-SameMap s.leases t.leases q.leases same.leases_same over.leases_visits;
}

module _ (v : Verbs) (s t : TelemetrySnapshot) (q r : Ranges) (same : SameMetrics s t)
    (over_s : RangesOver s q) (over_t : RangesOver t r) where
  labeled_runs :
      (name key_label : String)
      → write_labeled_counter v name key_label s.runs q.runs
        ≡ write_labeled_counter v name key_label t.runs r.runs
  unfolding write_labeled_counter
  labeled_runs name key_label =
      each_sorted-Visits (labeled_line v name key_label) s.runs t.runs q.runs r.runs same.runs_same
        over_s.runs_visits over_t.runs_visits

  labeled_scheduler_runs :
      (name key_label : String)
      → write_labeled_counter v name key_label s.scheduler_runs q.scheduler_runs
        ≡ write_labeled_counter v name key_label t.scheduler_runs r.scheduler_runs
  unfolding write_labeled_counter
  labeled_scheduler_runs name key_label =
      each_sorted-Visits (labeled_line v name key_label) s.scheduler_runs t.scheduler_runs
        q.scheduler_runs r.scheduler_runs same.scheduler_runs_same over_s.scheduler_runs_visits
        over_t.scheduler_runs_visits

  labeled_leases :
      (name key_label : String)
      → write_labeled_counter v name key_label s.leases q.leases
        ≡ write_labeled_counter v name key_label t.leases r.leases
  unfolding write_labeled_counter
  labeled_leases name key_label =
      each_sorted-Visits (labeled_line v name key_label) s.leases t.leases q.leases r.leases
        same.leases_same over_s.leases_visits over_t.leases_visits

  split_executors :
      (name first second : String)
      → write_split_counter v name s.executors q.executors first second
        ≡ write_split_counter v name t.executors r.executors first second
  unfolding write_split_counter
  split_executors name first second =
      each_sorted-Visits (split_line v name "/" first second) s.executors t.executors q.executors
        r.executors same.executors_same over_s.executors_visits over_t.executors_visits

  split_transitions :
      (name : String)
      → write_transition_counter v name s.transitions q.transitions
        ≡ write_transition_counter v name t.transitions r.transitions
  unfolding write_transition_counter
  split_transitions name =
      each_sorted-Visits (split_line v name "->" "from" "to") s.transitions t.transitions
        q.transitions r.transitions same.transitions_same over_s.transitions_visits
        over_t.transitions_visits

  durations :
      (name key_label : String)
      → write_duration_metrics v name s.job_duration q.job_duration key_label
        ≡ write_duration_metrics v name t.job_duration r.job_duration key_label
  unfolding write_duration_metrics
  durations name key_label =
      each_sorted-Visits (duration_lines v name key_label) s.job_duration t.job_duration
        q.job_duration r.job_duration same.job_duration_same over_s.job_duration_visits
        over_t.job_duration_visits

  requests : write_request_metrics v s.core q.core ≡ write_request_metrics v t.core r.core
  unfolding write_request_metrics
  requests = rw (
      each_sorted-Visits (request_lines v) s.core t.core q.core r.core same.core_same
        over_s.core_visits over_t.core_visits)

  runs_alike : render_runs v s q ≡ render_runs v t r
  unfolding render_runs
  runs_alike = simp (labeled_runs "webguard_instance_runs_total" "outcome", same.run_duration_same)

  jobs_alike : render_jobs v s q ≡ render_jobs v t r
  unfolding render_jobs
  jobs_alike = simp (
    split_executors "webguard_instance_executor_outcomes_total" "phase" "outcome",
    durations "webguard_instance_job_duration_seconds" "phase",
    split_transitions "webguard_instance_job_transitions_total",
    same.jobs_active_same,
    same.jobs_queued_same,
  )

  scheduler_alike : render_scheduler v s q ≡ render_scheduler v t r
  unfolding render_scheduler
  scheduler_alike = simp (
    labeled_scheduler_runs "webguard_instance_scheduler_runs_total" "outcome",
    same.scheduler_delay_same,
    same.scheduler_duration_same,
  )

  core_alike : render_core v s q ≡ render_core v t r
  unfolding render_core
  core_alike = simp requests

  leases_alike : render_leases v s q ≡ render_leases v t r
  unfolding render_leases
  leases_alike =
      simp (labeled_leases "webguard_instance_lease_events_total" "event", same.lease_wait_same)

  -- Snapshots with the same metrics have the same text.
  pub render_metrics-SameMetrics : render_metrics v s q ≡ render_metrics v t r
  unfolding render_metrics
  render_metrics-SameMetrics =
      simp (runs_alike, jobs_alike, scheduler_alike, core_alike, leases_alike, same.memory_same)
