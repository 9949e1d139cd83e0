-- ===== src/Command.antt =====
-- cmd/webguard-instance/main.go: `run`, which picks the command, and runServe, in which the scheduler,
-- the goroutine that shuts down on a signal, and the health server run at once; the server ends as
-- StartWithHandler of internal/adapters/health/health.go does. `Move` is one move of one of them, or
-- a signal. The calls of RunMonitoring are the places of Application.Controller, the last one first.
pub mod Main
pub mod Orderly
pub mod Plain
pub mod Shutdown
pub mod Deadline
pub mod Examples
use webguard_instance.Base.{
  ℕ, ℤ, pos, String, Bool, true, false, not, ◌&&◌, Option, none, some, List, [], ◌∷◌, ◌≡◌, str_eq,
  if◌then◌else◌, ◌+s◌,
}
use webguard_instance.Application.Controller.{
  ExecutionController, Place, Tick, called, returned, advance, begin_drain, wait_for_idle,
  is_closed,
}

-- What a command does besides its exit code.
pub data Action : Type 0 where
  serves runs_monitoring : Action
  writes : String → Action

pub record Exit : Type 0 where
  pub code : ℤ
  pub actions : List Action

abbrev usage : List Action
usage =
    writes "Usage:\n"
    ∷ writes "  webguard-instance serve\n"
    ∷ writes "  webguard-instance monitoring\n"
    ∷ []

abbrev first_argument : List String → String
first_argument [] = "serve"
first_argument (arg ∷ args) = arg

-- `served` is the exit code of `serve`, `err` the error of service.RunMonitoring.
unfoldable pub run : List String → ℤ → Option String → Exit
run args served err =
    let command = first_argument args in
    if str_eq command "serve"
    then record { code = served; actions = serves ∷ [] }
    else if str_eq command "monitoring"
    then (record {
      code = elim err [ none ↦ pos 0 | some e ↦ pos 1 ];
      actions = runs_monitoring ∷ [];
    })
    else record {
      code = pos 1;
      actions = writes ("unknown command: " +s command +s "\n\n") ∷ usage;
    }

-- Where the goroutine that shuts down stands. `stops_health` and `over` say whether WaitForIdle
-- returned true.
pub data Stage : Type 0 where
  awaits_signal begins_drain stops_dispatch asks_idle : Stage
  waits : ℕ → Stage
  stops_health over : Bool → Stage

-- The goroutine of RunEveryMinuteWithTelemetry.
pub data Scheduling : Type 0 where
  resting calling stopped : Scheduling

-- The contexts are done once they are canceled; `exited` is the exit code of runServe.
pub record Server : Type 0 where
  pub controller : ExecutionController
  pub places : List Place
  pub scheduling : Scheduling
  pub stage : Stage
  pub signaled : Bool
  pub dispatch_done : Bool
  pub health_done : Bool
  pub exited : Option ℤ

unfoldable pub new_server : ExecutionController → Server
new_server c = record {
  controller = c;
  places = [];
  scheduling = resting;
  stage = awaits_signal;
  signaled = false;
  dispatch_done = false;
  health_done = false;
  exited = none;
}

-- The readiness that /readyz asks for.
unfoldable pub readiness : Bool → Server → Bool
readiness config_ready s = config_ready && not s.controller.draining

-- The next move of the goroutine that shuts down, or `none` while it waits. `timeout` says whether
-- ShutdownDrainTimeout is over, and `prefers_timeout` which case Go takes where both are ready.
unfoldable pub shutdown_at : Bool → Bool → Stage → Server → Option Server
unfolding begin_drain wait_for_idle
shutdown_at timeout prefers_timeout awaits_signal s =
    if s.signaled then some (record s { stage = begins_drain }) else none
shutdown_at timeout prefers_timeout begins_drain s =
    some (record s { controller = begin_drain s.controller; stage = stops_dispatch })
shutdown_at timeout prefers_timeout stops_dispatch s =
    some (record s { dispatch_done = true; stage = asks_idle })
shutdown_at timeout prefers_timeout asks_idle s =
    some (record s { stage = waits (wait_for_idle s.controller) })
shutdown_at timeout prefers_timeout (waits idle) s =
    if is_closed s.controller.closed idle && not (timeout && prefers_timeout)
    then some (record s { stage = stops_health true })
    else if timeout
    then some (record s { stage = stops_health false })
    else none
shutdown_at timeout prefers_timeout (stops_health idle) s =
    some (record s { health_done = true; stage = over idle })
shutdown_at timeout prefers_timeout (over idle) s = none

unfoldable pub shutdown : Bool → Bool → Server → Option Server
unfolding shutdown_at
shutdown timeout prefers_timeout s = shutdown_at timeout prefers_timeout s.stage s

-- runServe's result, by the error of StartWithHandler
unfoldable pub exit_code : Option String → ℤ
exit_code none = pos 0
exit_code (some e) = pos 1

-- How ListenAndServe ends: as the server is closed by Shutdown, or by another error.
pub data Ending : Type 0 where
  server_closed : Ending
  failed : String → Ending

unfoldable pub start_with_handler : Ending → Option String
start_with_handler server_closed = none
start_with_handler (failed e) = some e

pub data Move : Server → Server → Type 0 where
  signals : (s : Server) → Move s (record s { signaled = true })
  shuts_down :
      (s t : Server) (timeout prefers_timeout : Bool)
      → shutdown timeout prefers_timeout s ≡ some t
      → Move s t
  -- The timer of the scheduler fires; its select may take this case also after dispatch is done.
  dispatches :
      (s : Server)
      → s.scheduling ≡ resting
      → Move s (record s { scheduling = calling; places = called ∷ s.places })
  monitors :
      (s : Server) (tick : Tick) (place : Place) (older : List Place)
      → s.places ≡ place ∷ older
      → Move s (record s {
        controller = (advance tick s.controller place).0;
        places = (advance tick s.controller place).1 ∷ older;
      })
  returns :
      (s : Server) (err : Option String) (older : List Place)
      → s.scheduling ≡ calling
      → s.places ≡ returned err ∷ older
      → Move s (record s { scheduling = resting })
  stops :
      (s : Server)
      → s.scheduling ≡ resting
      → s.dispatch_done ≡ true
      → Move s (record s { scheduling = stopped })
  -- Shutdown closes the server only when the health context is done.
  exits :
      (s : Server) (ending : Ending)
      → (ending ≡ server_closed → s.health_done ≡ true)
      → Move s (record s { exited = some (exit_code (start_with_handler ending)) })

-- The moves until runServe returns.
pub data Moves (s : Server) : Server → Type 0 where
  starts : Moves s s
  moves : {t u : Server} → Moves s t → t.exited ≡ none → Move t u → Moves s u
