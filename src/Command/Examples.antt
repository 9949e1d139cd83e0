-- ===== src/Command/Examples.antt =====
-- The command at concrete inputs: a signal while nothing runs.
use webguard_instance.Base.{
  not, ◌&&◌, ◌⊎◌, if◌then◌else◌, pos, true, false, none, some, [], ◌∷◌, ◌≡◌, refl,
}
use webguard_instance.Application.Telemetry.{new_telemetry}
use webguard_instance.Application.Controller.{new_execution_controller, begin_drain, wait_for_idle}
use webguard_instance.Application.Controller.Exclusion.{runners}
use webguard_instance.Health.{ready_response}
use webguard_instance.Command.{
  Server, Moves, serves, runs_monitoring, run, over, begins_drain, signals, shuts_down, exits,
  starts, moves, new_server, readiness, shutdown, server_closed, exit_code, start_with_handler,
}
use webguard_instance.Command.Orderly.{drain_begun}
use webguard_instance.Command.Shutdown.{run_serve_orderly}

abbrev sample_server : Server
sample_server = new_server (new_execution_controller (pos 2) new_telemetry)

abbrev signaled_server : Server
signaled_server = record sample_server { signaled = true }

signal_came : Moves sample_server signaled_server
unfolding new_server
signal_came = moves starts refl (signals sample_server)

-- The state after the shutdown, in which WaitForIdle returned at once.
abbrev ended_server : Server
ended_server = record sample_server {
  controller = begin_drain sample_server.controller;
  signaled = true;
  stage = over true;
  dispatch_done = true;
  health_done = true;
  exited = some (pos 0);
}

shut_down_cleanly : Moves sample_server ended_server
unfolding new_server shutdown new_execution_controller exit_code start_with_handler begin_drain
    wait_for_idle
shut_down_cleanly =
    moves
      (moves
        (moves
          (moves
            (moves
              (moves
                (moves signal_came refl (
                  shuts_down signaled_server (record signaled_server { stage = begins_drain }) false
                    false refl))
                refl (shuts_down _ _ false false refl))
              refl (shuts_down _ _ false false refl))
            refl (shuts_down _ _ false false refl))
          refl (shuts_down _ _ false false refl))
        refl (shuts_down _ _ false false refl))
      refl (exits (record ended_server { exited = none }) server_closed (λ e. refl))

run_serve_orderly_example :
    ((ready_response (some (some (readiness true ended_server))) "GET").status
      ≡ (if true && not (drain_begun ended_server.stage) then 200 else 503))
    × (ended_server.exited ≡ some (pos 0)
        → (ended_server.signaled ≡ true)
          × (ended_server.controller.draining ≡ true)
          × (ended_server.dispatch_done ≡ true)
          × (ended_server.health_done ≡ true)
          × ((ended_server.stage ≡ over false) ⊎ (runners ended_server.places ≡ 0)))
run_serve_orderly_example =
    run_serve_orderly (pos 2) new_telemetry true ended_server shut_down_cleanly

default_command : run [] (pos 7) none ≡ record { code = pos 7; actions = serves ∷ [] }
unfolding run
default_command = refl

failed_run :
    run ("monitoring" ∷ []) (pos 0) (some "timeout")
    ≡ record { code = pos 1; actions = runs_monitoring ∷ [] }
unfolding run
failed_run = refl
