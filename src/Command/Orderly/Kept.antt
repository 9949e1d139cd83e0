-- ===== src/Command/Orderly/Kept.antt =====
-- What every move of runServe keeps.
use webguard_instance.Base.{ℤ, pos, Bool, true, some, List, [], ◌∷◌, ◌≡◌, refl, subst, ◌∙◌, arith}
use webguard_instance.Application.Telemetry.{Telemetry}
use webguard_instance.Application.Controller.{
  ExecutionController, Place, Steps, called, calls, advances, stop, step, advance,
  new_execution_controller,
}
use webguard_instance.Application.Controller.Exclusion.{runners}
use webguard_instance.Application.Controller.Drain.{Drained, Steps-Drained, Steps-append}
use webguard_instance.Command.{
  Server, Scheduling, Move, Moves, Ending, resting, calling, stopped, server_closed, failed,
  signals, shuts_down, dispatches, monitors, returns, stops, exits, starts, moves, new_server,
  shutdown, exit_code, start_with_handler,
}
use webguard_instance.Command.Orderly.{
  drain_begun, Orderly, saw_idle-drain_begun, advance-draining, WaitsFor-drain,
}
use webguard_instance.Command.Orderly.Stages.{start, shutdown_at-Orderly}

module _ (max : ℤ) (t : Telemetry) where
  -- A move of the controller's calls keeps all that the shutdown relies on.
  Steps-Orderly :
      (s : Server) (c : ExecutionController) (ps : List Place) (scheduling : Scheduling)
      → Steps s.controller s.places c ps
      → c.draining ≡ s.controller.draining
      → Orderly (start max t) s
      → Orderly (start max t) (record s { controller = c; places = ps; scheduling = scheduling })
  Steps-Orderly s c ps scheduling done still o =
      let kept : drain_begun s.stage ≡ true
          → Drained s.controller c (runners s.places) (runners ps) =
        λ h. Steps-Drained done (o.drain ∙ h) in
      record {
        reached = Steps-append o.reached done;
        signal = o.signal;
        drain = still ∙ o.drain;
        dispatch = o.dispatch;
        health = o.health;
        idle = WaitsFor-drain s.stage s.controller.idle c.idle (λ h. (kept h).channel) o.idle;
        quiet = λ h. omega (arith, o.quiet h, (kept (saw_idle-drain_begun s.stage h)).fewer);
        clean = o.clean;
      }

  clean_exit :
      (ending : Ending) (done : Bool)
      → (ending ≡ server_closed → done ≡ true)
      → some (exit_code (start_with_handler ending)) ≡ some (pos 0)
      → done ≡ true
  unfolding exit_code start_with_handler
  clean_exit server_closed done h e = h refl
  clean_exit (failed err) done h e = absurd (ground arith)

  Move-Orderly : {s u : Server} → Move s u → Orderly (start max t) s → Orderly (start max t) u
  unfolding shutdown
  Move-Orderly (signals s) o = record {
    reached = o.reached;
    signal = λ h. refl;
    drain = o.drain;
    dispatch = o.dispatch;
    health = o.health;
    idle = o.idle;
    quiet = o.quiet;
    clean = o.clean;
  }
  Move-Orderly (shuts_down s u timeout prefers_timeout e) o =
      shutdown_at-Orderly max t timeout prefers_timeout s.stage s u e o
  Move-Orderly (dispatches s rests) o =
      Steps-Orderly s s.controller (called ∷ s.places) calling
        (step (stop s.controller s.places) (calls s.controller s.places)) refl o
  Move-Orderly (monitors s tick place older e) o =
      Steps-Orderly s (advance tick s.controller place).0
        ((advance tick s.controller place).1 ∷ older) s.scheduling
        (step
          (subst (λ ps. Steps s.controller s.places s.controller ps) e (stop s.controller s.places))
          (advances s.controller tick [] place older))
        (advance-draining tick s.controller place) o
  Move-Orderly (returns s err older inside e) o =
      Steps-Orderly s s.controller s.places resting (stop s.controller s.places) refl o
  Move-Orderly (stops s rests done) o =
      Steps-Orderly s s.controller s.places stopped (stop s.controller s.places) refl o
  Move-Orderly (exits s ending h) o = record {
    reached = o.reached;
    signal = o.signal;
    drain = o.drain;
    dispatch = o.dispatch;
    health = o.health;
    idle = o.idle;
    quiet = o.quiet;
    clean = clean_exit ending s.health_done h;
  }

  new_server-Orderly : Orderly (start max t) (new_server (start max t))
  unfolding new_server new_execution_controller runners
  new_server-Orderly = record {
    reached = stop (start max t) [];
    signal = λ h. absurd (ground arith);
    drain = refl;
    dispatch = refl;
    health = refl;
    idle = tt;
    quiet = λ h. refl;
    clean = λ h. absurd (ground arith);
  }

  pub Moves-Orderly : {u : Server} → Moves (new_server (start max t)) u → Orderly (start max t) u
  Moves-Orderly starts = new_server-Orderly
  Moves-Orderly (moves before running m) = Move-Orderly m (Moves-Orderly before)
