-- ===== src/Scheduler/Boundary.antt =====
-- The minutes that the scheduler runs at.
use webguard_instance.Base.{ℤ, pos, negsuc, ◌+ℤ◌, ◌-ℤ◌, ◌<ℤ◌, ◌≤ℤ◌, List, [], ◌∷◌, ◌≡◌, arith}
use webguard_instance.Base.Time.{minute, truncate_time, remainder}
use webguard_instance.Scheduler.{Firing, ScheduledRun, loop, run_every_minute, next_minute_boundary}

-- The next boundary is a whole minute, lies after the given moment, and at most one minute after it.
pub next_minute_boundary_lem :
    (now : ℤ)
    → (now <ℤ next_minute_boundary now)
      × (next_minute_boundary now ≤ℤ (now +ℤ minute))
      × (remainder (next_minute_boundary now) 60000000000 ≡ 0)
unfolding next_minute_boundary truncate_time ◌+ℤ◌ ◌-ℤ◌
next_minute_boundary_lem (pos n) = (ground arith, ground arith, ground arith)
next_minute_boundary_lem (negsuc n) = (ground arith, ground arith, ground arith)

-- The clock that the firings read never goes back, and each timer fires at its boundary or later.
abbrev pub OnTime : ℤ → List Firing → Type 0
OnTime next_run [] = Unit
OnTime next_run (f ∷ fs) =
    (next_run ≤ℤ f.started_at)
    × (f.started_at ≤ℤ f.finished_at)
    × (f.finished_at ≤ℤ f.rescheduled_at)
    × OnTime (next_minute_boundary f.rescheduled_at) fs

-- Every run is scheduled for a whole minute, later than the end of all the runs before it.
abbrev pub AfterEach : ℤ → List ScheduledRun → Type 0
AfterEach last [] = Unit
AfterEach last (run ∷ runs) =
    (last <ℤ run.boundary)
    × (remainder run.boundary 60000000000 ≡ 0)
    × (run.boundary ≤ℤ run.firing.started_at)
    × AfterEach run.firing.finished_at runs

loop-AfterEach :
    (last now : ℤ) (firings : List Firing)
    → last ≤ℤ now
    → OnTime (next_minute_boundary now) firings
    → AfterEach last (loop (next_minute_boundary now) firings)
unfolding loop
loop-AfterEach last now [] h o = tt
loop-AfterEach last now (f ∷ fs) h (due, started, finished, o) =
    let (later, near, whole) = next_minute_boundary_lem now in
    (omega arith, whole, due, loop-AfterEach f.finished_at f.rescheduled_at fs finished o)

-- If the clock never goes back and no timer fires early, each run is scheduled for a whole minute,
-- begins at it or later, and is scheduled later than the call and than the end of the run before
-- it: no minute is run twice and no two runs overlap.
pub run_every_minute-AfterEach :
    (now : ℤ) (firings : List Firing)
    → OnTime (next_minute_boundary now) firings
    → AfterEach now (run_every_minute now firings)
unfolding run_every_minute
run_every_minute-AfterEach now firings o = loop-AfterEach now now firings (omega arith) o
