-- ===== src/Command/Orderly/Stages.antt =====
-- The moves of the goroutine of runServe that shuts down.
use webguard_instance.Base.{
  if_some, if_either, ℤ, Bool, true, false, not, ◌&&◌, some, List, [], ◌≡◌, refl, subst, arith, inl,
  inr,
}
use webguard_instance.Application.Telemetry.{Telemetry}
use webguard_instance.Application.Controller.{
  ExecutionController, Place, Steps, drains, step, is_closed, begin_drain, wait_for_idle,
  new_execution_controller,
}
use webguard_instance.Application.Controller.Exclusion.{runners, holders, Steps-Agrees, new-Agrees}
use webguard_instance.Command.{
  Server, Stage, awaits_signal, begins_drain, stops_dispatch, asks_idle, waits, stops_health, over,
  shutdown_at,
}
use webguard_instance.Command.Orderly.{OrderlyAt, Orderly}

-- The closed channel that WaitForIdle saw was the current one.
quiet_now :
    (max : ℤ) (t : Telemetry) (c : ExecutionController) (ps : List Place)
    → Steps (new_execution_controller max t) [] c ps
    → is_closed c.closed c.idle ≡ true
    → runners ps ≡ 0
unfolding runners holders
quiet_now max t c ps reached closed =
    let a = Steps-Agrees reached (new-Agrees max t) in ground (arith, a.run, a.current)

and_left : (a b : Bool) → (a && b) ≡ true → a ≡ true
and_left a b h = ground arith

module _ (max : ℤ) (t : Telemetry) where
  abbrev pub start : ExecutionController
  start = new_execution_controller max t

  pub shutdown_at-Orderly :
      (timeout prefers_timeout : Bool) (g : Stage) (s u : Server)
      → shutdown_at timeout prefers_timeout g s ≡ some u
      → OrderlyAt start g s
      → Orderly start u
  unfolding shutdown_at
  shutdown_at-Orderly timeout prefers_timeout awaits_signal s u e o =
      let moved = if_some s.signaled (record s { stage = begins_drain }) u e in
      let next : Orderly start (record s { stage = begins_drain }) = record {
        reached = o.reached;
        signal = λ h. moved.0;
        drain = o.drain;
        dispatch = o.dispatch;
        health = o.health;
        idle = tt;
        quiet = λ h. absurd (ground arith);
        clean = o.clean;
      } in
      subst (Orderly start) moved.1 next
  shutdown_at-Orderly timeout prefers_timeout begins_drain s u e o =
      let next : Orderly start
          (record s { controller = begin_drain s.controller; stage = stops_dispatch }) =
        record {
          reached = step o.reached (drains s.controller s.places);
          signal = λ h. o.signal refl;
          drain = refl;
          dispatch = o.dispatch;
          health = o.health;
          idle = tt;
          quiet = λ h. absurd (ground arith);
          clean = o.clean;
        } in
      subst (Orderly start) (cc (e)) next
  shutdown_at-Orderly timeout prefers_timeout stops_dispatch s u e o =
      let next : Orderly start (record s { dispatch_done = true; stage = asks_idle }) = record {
        reached = o.reached;
        signal = λ h. o.signal refl;
        drain = o.drain;
        dispatch = refl;
        health = o.health;
        idle = tt;
        quiet = λ h. absurd (ground arith);
        clean = o.clean;
      } in
      subst (Orderly start) (cc (e)) next
  shutdown_at-Orderly timeout prefers_timeout asks_idle s u e o =
      let next : Orderly start (record s { stage = waits (wait_for_idle s.controller) }) = record {
        reached = o.reached;
        signal = λ h. o.signal refl;
        drain = o.drain;
        dispatch = o.dispatch;
        health = o.health;
        idle = refl;
        quiet = λ h. absurd (ground arith);
        clean = o.clean;
      } in
      subst (Orderly start) (cc (e)) next
  shutdown_at-Orderly timeout prefers_timeout (waits idle) s u e o =
      elim (if_either (is_closed s.controller.closed idle && not (timeout && prefers_timeout))
        timeout (record s { stage = stops_health true }) (record s { stage = stops_health false }) u
        e) [
          | inl (ready, moved) ↦
              (let current =
                  subst (λ n. is_closed s.controller.closed n ≡ true) o.idle
                    (and_left (is_closed s.controller.closed idle)
                      (not (timeout && prefers_timeout)) ready) in
                let next : Orderly start (record s { stage = stops_health true }) = record {
                  reached = o.reached;
                  signal = λ h. o.signal refl;
                  drain = o.drain;
                  dispatch = o.dispatch;
                  health = o.health;
                  idle = tt;
                  quiet = λ h. quiet_now max t s.controller s.places o.reached current;
                  clean = o.clean;
                } in
                subst (Orderly start) moved next)
          | inr (late, moved) ↦
              (let next : Orderly start (record s { stage = stops_health false }) = record {
                reached = o.reached;
                signal = λ h. o.signal refl;
                drain = o.drain;
                dispatch = o.dispatch;
                health = o.health;
                idle = tt;
                quiet = λ h. absurd (ground arith);
                clean = o.clean;
              } in
                subst (Orderly start) moved next)
        ]
  shutdown_at-Orderly timeout prefers_timeout (stops_health idle) s u e o =
      let next : Orderly start (record s { health_done = true; stage = over idle }) = record {
        reached = o.reached;
        signal = λ h. o.signal refl;
        drain = o.drain;
        dispatch = o.dispatch;
        health = refl;
        idle = tt;
        quiet = o.quiet;
        clean = λ h. refl;
      } in
      subst (Orderly start) (cc (e)) next
  shutdown_at-Orderly timeout prefers_timeout (over idle) s u e o = absurd (ground arith)
