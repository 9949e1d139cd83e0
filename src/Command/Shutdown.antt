-- ===== src/Command/Shutdown.antt =====
-- What runServe keeps while it serves and while it shuts down.
use webguard_instance.Base.{
  ℤ, pos, Bool, true, false, not, ◌&&◌, some, ◌≡◌, refl, sym, ◌∙◌, arith, ◌⊎◌, inl, inr,
  if◌then◌else◌,
}
use webguard_instance.Application.Telemetry.{Telemetry}
use webguard_instance.Application.Controller.{new_execution_controller}
use webguard_instance.Application.Controller.Exclusion.{runners}
use webguard_instance.Health.{ready_response}
use webguard_instance.Command.{Server, Stage, Moves, awaits_signal, over, new_server, readiness}
use webguard_instance.Command.Orderly.{
  saw_signal, drain_begun, dispatch_stopped, health_stopped, saw_idle,
}
use webguard_instance.Command.Orderly.Kept.{Moves-Orderly}

health_stopped-before :
    (g : Stage)
    → health_stopped g ≡ true
    → (saw_signal g ≡ true) × (drain_begun g ≡ true) × (dispatch_stopped g ≡ true)
health_stopped-before g h = ground arith

-- However the scheduler, the calls of RunMonitoring, the signal and the goroutine that shuts down move:
-- GET of /readyz is answered with 200 if the configuration is ready and the drain has not begun, and else
-- with 503; and if runServe returns 0, then a signal came, the drain began, the dispatch and the health
-- server were stopped, and either the drain ran into its timeout or no call runs the monitoring.
pub run_serve_orderly :
    (max : ℤ) (t : Telemetry) (config_ready : Bool) (s : Server)
    → Moves (new_server (new_execution_controller max t)) s
    → ((ready_response (some (some (readiness config_ready s))) "GET").status
        ≡ (if config_ready && not (drain_begun s.stage) then 200 else 503))
      × (s.exited ≡ some (pos 0)
          → (s.signaled ≡ true)
            × (s.controller.draining ≡ true)
            × (s.dispatch_done ≡ true)
            × (s.health_done ≡ true)
            × ((s.stage ≡ over false) ⊎ (runners s.places ≡ 0)))
unfolding readiness ready_response
run_serve_orderly max t config_ready s reached =
    let o = Moves-Orderly max t reached in
    (
      ground (arith, o.drain),
      λ e.
          let stopped_health = sym o.health ∙ o.clean e in
          let before = health_stopped-before s.stage stopped_health in
          (
            o.signal before.0,
            o.drain ∙ before.1,
            o.dispatch ∙ before.2,
            o.clean e,
            ended s.stage stopped_health o.quiet,
          ),
    )
  where
    ended :
        (g : Stage)
        → health_stopped g ≡ true
        → (saw_idle g ≡ true → runners s.places ≡ 0)
        → (g ≡ over false) ⊎ (runners s.places ≡ 0)
    ended (over true) h quiet = inr (quiet refl)
    ended (over false) h quiet = inl refl
    ended awaits_signal h quiet = absurd (ground arith)
    ended _ h quiet = absurd (ground arith)
