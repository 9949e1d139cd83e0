-- ===== src/Application/Context.antt =====
-- The values that internal/application/execution_controller.go keeps in a context: the limiter of a run
-- and its ID; and the methods of the controller that only read, or write its summary.
use webguard_instance.Base.{ℕ, pos, String, Bool, Option, none, some, ◌≡◌, refl, ◌+s◌}
use mathlib.Core.Option.{get_or}
use webguard_instance.Monitor.Numbers.{format_int}
use webguard_instance.Application.Telemetry.{Telemetry}
use webguard_instance.Application.Controller.{ExecutionController, RunSummary}
use webguard_instance.Application.Limiter.{Limiter, Slot, acquire_execution_slot}

pub record Context : Type 0 where
  pub limiter : Option Limiter
  pub run_id : Option String

abbrev pub background : Context
background = record { limiter = none; run_id = none }

unfoldable pub with_execution_limiter : Context → Limiter → Context
with_execution_limiter ctx limiter = record ctx { limiter = some limiter }

unfoldable pub with_run_id : Context → String → Context
with_run_id ctx run_id = record ctx { run_id = some run_id }

-- RunID: the empty text where no ID was set
unfoldable pub run_id : Context → String
run_id ctx = get_or ctx.run_id ""

-- fmt.Sprintf("run-%d", n)
unfoldable pub format_run_id : ℕ → String
unfolding format_int
format_run_id n = "run-" +s format_int (pos n)

-- AcquireExecutionSlot where the context may have no limiter: then the slot is granted at once, and the
-- function that gives it back does nothing.
pub data Grant : Type 0 where
  unlimited : Grant
  limited : Slot → Grant

unfoldable pub acquire_in : Context → Bool → Bool → Grant
unfolding acquire_execution_slot
acquire_in ctx done prefers_done = elim ctx.limiter [
  | none ↦ unlimited
  | some l ↦ limited (acquire_execution_slot done prefers_done l)
]

unfoldable pub last_summary : ExecutionController → RunSummary
last_summary c = c.last_summary

unfoldable pub store_summary : ExecutionController → RunSummary → ExecutionController
store_summary c summary = record c { last_summary = summary }

unfoldable pub is_draining : ExecutionController → Bool
is_draining c = c.draining

unfoldable pub is_active : ExecutionController → Bool
is_active c = c.active

unfoldable pub controller_telemetry : ExecutionController → Telemetry
controller_telemetry c = c.telemetry

-- The context that a run is given.
unfoldable pub run_context : Context → Limiter → ℕ → Context
unfolding with_execution_limiter with_run_id format_run_id
run_context ctx limiter n = with_execution_limiter (with_run_id ctx (format_run_id n)) limiter

-- A run finds its ID and its limiter in the context, whatever the caller's context held.
pub run_context_lem :
    (ctx : Context) (limiter : Limiter) (n : ℕ) (done prefers_done : Bool)
    → (run_id (run_context ctx limiter n) ≡ format_run_id n)
      × (acquire_in (run_context ctx limiter n) done prefers_done
          ≡ limited (acquire_execution_slot done prefers_done limiter))
unfolding run_context run_id acquire_in
run_context_lem ctx limiter n done prefers_done = (refl, refl)
