-- ===== src/Scheduler.antt =====
-- internal/adapters/scheduler/scheduler.go.
pub mod Examples
pub mod Boundary
use webguard_instance.Base.{
  ℤ, pos, ◌+ℤ◌, ltb_ℤ, max_ℤ, String, Bool, true, false, not, Option, none, some, List, [], ◌∷◌,
  if◌then◌else◌,
}
use webguard_instance.Base.Time.{minute, truncate_time, sub_time}
use webguard_instance.Application.Telemetry.{Op, schedules}

unfoldable pub next_minute_boundary : ℤ → ℤ
unfolding truncate_time
next_minute_boundary now =
    let boundary = truncate_time now 60000000000 in
    if not (ltb_ℤ now boundary) then boundary +ℤ minute else boundary

-- One firing of the timer: the clock when the task starts and when it has ended, the clock at the
-- two later readings, and the task's error.
pub record Firing : Type 0 where
  pub started_at : ℤ
  pub finished_at : ℤ
  pub rescheduled_at : ℤ
  pub err : Option String

abbrev outcome : Option String → String
outcome none = "success"
outcome (some e) = "error"

-- A run of the task: the boundary that it was scheduled for, and its firing.
pub record ScheduledRun : Type 0 where
  pub boundary : ℤ
  pub firing : Firing

unfoldable pub scheduler_op : ScheduledRun → Op
unfolding sub_time max_ℤ
scheduler_op run =
    schedules (max_ℤ (pos 0) (sub_time run.firing.started_at run.boundary))
      (sub_time run.firing.finished_at run.firing.started_at) (outcome run.firing.err)

-- The loop, until the context ends after the last firing.
unfoldable pub loop : ℤ → List Firing → List ScheduledRun
unfolding next_minute_boundary
loop next_run [] = []
loop next_run (f ∷ fs) =
    record { boundary = next_run; firing = f } ∷ loop (next_minute_boundary f.rescheduled_at) fs

-- The runs of RunEveryMinuteWithTelemetry, called at `now`.
unfoldable pub run_every_minute : ℤ → List Firing → List ScheduledRun
unfolding loop next_minute_boundary
run_every_minute now firings = loop (next_minute_boundary now) firings
