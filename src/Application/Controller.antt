-- ===== src/Application/Controller.antt =====
-- internal/application/execution_controller.go. Any number of goroutines may be inside RunMonitoring
-- at once, so a call is a program counter (`Place`) that `advance` moves by one critical section,
-- one channel operation or one return of the runner; `Step` lets any call move next, a new call
-- begin, and BeginDrain run. Channels are numbered in the order in which they are made; `closed`
-- holds the numbers of the closed ones, and `panicked` is set by a second close of one channel.
pub mod Exclusion
pub mod Drain
pub mod Progress
use webguard_instance.Base.{
  ℕ, suc, ◌+◌, ◌==◌, ℤ, pos, ltb_ℤ, u64, String, Bool, true, false, ◌||◌, Option, none, some, List,
  [], ◌∷◌, ◌++◌, ◌≡◌, if◌then◌else◌,
}
use webguard_instance.Base.Time.{sub_time}
use webguard_instance.Application.Telemetry.{Telemetry, Op, apply}

pub record RunSummary : Type 0 where
  pub started_at : ℤ
  pub finished_at : ℤ
  pub skipped : Bool
  pub err : Option String

pub record ExecutionController : Type 0 where
  pub max_concurrency : ℤ
  pub telemetry : Telemetry
  pub locked : Bool
  pub last_summary : RunSummary
  pub draining : Bool
  pub active : Bool
  pub idle : ℕ
  pub closed : List ℕ
  pub panicked : Bool
  pub run_sequence : ℕ

abbrev pub is_closed : List ℕ → ℕ → Bool
is_closed [] n = false
is_closed (c ∷ cs) n = c == n || is_closed cs n

-- NewExecutionControllerWithTelemetry, with a telemetry that is there
unfoldable pub new_execution_controller : ℤ → Telemetry → ExecutionController
new_execution_controller max_concurrency telemetry = record {
  max_concurrency = if ltb_ℤ max_concurrency (pos 1) then pos 1 else max_concurrency;
  telemetry = telemetry;
  locked = false;
  last_summary = record { started_at = pos 0; finished_at = pos 0; skipped = false; err = none };
  draining = false;
  active = false;
  idle = 0;
  closed = 0 ∷ [];
  panicked = false;
  run_sequence = 0;
}

-- Where a call of RunMonitoring stands; the Bool of a skip says whether the call holds `mu`.
pub data Place : Type 0 where
  called checked entered activated : Place
  running : ℤ → ℕ → Place
  summed : ℤ → Option String → Place
  recorded left returned : Option String → Place
  skipping skip_summed : Bool → Place

-- What the clock and the runner say at a step.
pub record Tick : Type 0 where
  pub now : ℤ
  pub err : Option String

abbrev pub outcome : Option String → String
outcome none = "success"
outcome (some e) = "error"

unfoldable pub advance : Tick → ExecutionController → Place → ExecutionController × Place
advance tick c called = if c.draining then (c, skipping false) else (c, checked)
advance tick c checked =
    if c.locked then (c, skipping false) else (record c { locked = true }, entered)
advance tick c entered =
    if c.draining
    then (c, skipping true)
    else (record c { active = true; idle = suc c.idle }, activated)
advance tick c activated =
    let id = u64 (c.run_sequence + 1) in (record c { run_sequence = id }, running tick.now id)
advance tick c (running started_at id) = (
  record c {
    last_summary = record {
      started_at = started_at;
      finished_at = tick.now;
      skipped = false;
      err = tick.err;
    };
  },
  summed (sub_time tick.now started_at) tick.err,
)
advance tick c (summed duration err) =
    (record c { telemetry = apply c.telemetry (Op.runs duration (outcome err)) }, recorded err)
advance tick c (recorded err) = (
  record c {
    active = false;
    closed = c.idle ∷ c.closed;
    panicked = is_closed c.closed c.idle || c.panicked;
  },
  left err,
)
advance tick c (left err) = (record c { locked = false }, returned err)
advance tick c (skipping held) = (
  record c {
    last_summary = record {
      started_at = tick.now;
      finished_at = tick.now;
      skipped = true;
      err = none;
    };
  },
  skip_summed held,
)
advance tick c (skip_summed held) = (
  record c { telemetry = apply c.telemetry (Op.runs (pos 0) "skipped") },
  if held then left none else returned none,
)
advance tick c (returned err) = (c, returned err)

unfoldable pub begin_drain : ExecutionController → ExecutionController
begin_drain c = record c { draining = true }

-- WaitForIdle takes the channel that is current when it is called; it returns true only once that
-- channel is closed.
unfoldable pub wait_for_idle : ExecutionController → ℕ
wait_for_idle c = c.idle

-- One move of the controller with its calls.
pub data Step : ExecutionController → List Place → ExecutionController → List Place → Type 0 where
  calls : (c : ExecutionController) (places : List Place) → Step c places c (called ∷ places)
  drains : (c : ExecutionController) (places : List Place) → Step c places (begin_drain c) places
  advances :
      (c : ExecutionController) (tick : Tick) (before : List Place) (place : Place)
      (after : List Place)
      → Step c
          (before ++ place ∷ after)
          (advance tick c place).0
          (before ++ (advance tick c place).1 ∷ after)

pub data Steps : ExecutionController → List Place → ExecutionController → List Place → Type 0 where
  stop : (c : ExecutionController) (places : List Place) → Steps c places c places
  step :
      {c d e : ExecutionController} {ps qs rs : List Place}
      → Steps c ps d qs
      → Step d qs e rs
      → Steps c ps e rs
