-- ===== src/Scheduler/Examples.antt =====
-- The theorems on the scheduler at concrete inputs.
use webguard_instance.Base.{pos, ◌+ℤ◌, none, List, [], ◌∷◌, ◌-ℤ◌, arith}
use webguard_instance.Base.Time.{truncate_time}
use webguard_instance.Scheduler.{Firing, next_minute_boundary, run_every_minute}
use webguard_instance.Scheduler.Boundary.{AfterEach, run_every_minute-AfterEach}

-- A run that takes longer than a minute, and the next one.
abbrev sample_firings : List Firing
sample_firings =
    record {
      started_at = pos 120000000001;
      finished_at = pos 190000000000;
      rescheduled_at = pos 190000000001;
      err = none;
    }
    ∷ record {
      started_at = pos 240000000000;
      finished_at = pos 241000000000;
      rescheduled_at = pos 241000000000;
      err = none;
    }
    ∷ []

run_every_minute-AfterEach_example :
    AfterEach (pos 61000000000) (run_every_minute (pos 61000000000) sample_firings)
unfolding next_minute_boundary truncate_time ◌+ℤ◌ ◌-ℤ◌
run_every_minute-AfterEach_example =
    run_every_minute-AfterEach (pos 61000000000) sample_firings
      (omega arith, omega arith, omega arith, (omega arith, omega arith, omega arith, tt))
