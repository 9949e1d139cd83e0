-- ===== src/Command/Orderly.antt =====
-- The state of runServe at each stage of its shutdown.
pub mod Stages
pub mod Kept
use webguard_instance.Base.{
  ℕ, ℤ, pos, Bool, true, false, not, ◌&&◌, none, some, List, [], ◌∷◌, ◌≡◌, refl, sym, subst, ◌∙◌,
  arith, ◌⊎◌, inl, inr, if◌then◌else◌,
}
use webguard_instance.Application.Telemetry.{Telemetry}
use webguard_instance.Application.Controller.{
  ExecutionController, Place, Tick, Steps, called, calls, drains, advances, stop, step, is_closed,
  advance, begin_drain, wait_for_idle, new_execution_controller,
}
use webguard_instance.Application.Controller.Exclusion.{runners, holders, Steps-Agrees, new-Agrees}
use webguard_instance.Application.Controller.Drain.{Drained, Steps-Drained, Steps-append}
use webguard_instance.Health.{ready_response}
use webguard_instance.Command.{
  Server, Stage, Scheduling, Move, Moves, Ending, awaits_signal, begins_drain, stops_dispatch,
  asks_idle, waits, stops_health, over, resting, calling, stopped, server_closed, failed, signals,
  shuts_down, dispatches, monitors, returns, stops, exits, starts, moves, new_server, readiness,
  shutdown, shutdown_at, exit_code, start_with_handler,
}

-- How far a shutdown has come: the signal, the drain, the stop of the dispatch and of the health server.
abbrev pub saw_signal : Stage → Bool
saw_signal awaits_signal = false
saw_signal _ = true

abbrev pub drain_begun : Stage → Bool
drain_begun awaits_signal = false
drain_begun begins_drain = false
drain_begun _ = true

abbrev pub dispatch_stopped : Stage → Bool
dispatch_stopped asks_idle = true
dispatch_stopped (waits idle) = true
dispatch_stopped (stops_health idle) = true
dispatch_stopped (over idle) = true
dispatch_stopped _ = false

abbrev pub health_stopped : Stage → Bool
health_stopped (over idle) = true
health_stopped _ = false

-- WaitForIdle has returned true.
abbrev pub saw_idle : Stage → Bool
saw_idle (stops_health idle) = idle
saw_idle (over idle) = idle
saw_idle _ = false

abbrev pub WaitsFor : Stage → ℕ → Type 0
WaitsFor (waits idle) current = idle ≡ current
WaitsFor _ current = Unit {0}

-- The state at a stage of the shutdown.
pub record OrderlyAt (start : ExecutionController) (g : Stage) (s : Server) : Type 0 where
  pub reached : Steps start [] s.controller s.places
  pub signal : saw_signal g ≡ true → s.signaled ≡ true
  pub drain : s.controller.draining ≡ drain_begun g
  pub dispatch : s.dispatch_done ≡ dispatch_stopped g
  pub health : s.health_done ≡ health_stopped g
  pub idle : WaitsFor g s.controller.idle
  pub quiet : saw_idle g ≡ true → runners s.places ≡ 0
  pub clean : s.exited ≡ some (pos 0) → s.health_done ≡ true

abbrev pub Orderly : ExecutionController → Server → Type 0
Orderly start s = OrderlyAt start s.stage s

pub saw_idle-drain_begun : (g : Stage) → saw_idle g ≡ true → drain_begun g ≡ true
saw_idle-drain_begun g h = ground arith

pub advance-draining :
    (tick : Tick) (c : ExecutionController) (p : Place) → (advance tick c p).0.draining ≡ c.draining
unfolding advance
advance-draining tick c p = ground arith

pub WaitsFor-drain :
    (g : Stage) (m n : ℕ) → (drain_begun g ≡ true → n ≡ m) → WaitsFor g m → WaitsFor g n
WaitsFor-drain (waits idle) m n h w = ground (arith, h refl)
WaitsFor-drain awaits_signal m n h w = tt
WaitsFor-drain _ m n h w = tt
