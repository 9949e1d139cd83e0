-- ===== src/Application/Controller/Drain.antt =====
-- What a drain keeps: no run begins, and WaitForIdle tells the truth.
use webguard_instance.Base.{ℕ, ◌≤◌, ℤ, true, List, [], ◌∷◌, ◌≡◌, refl, arith, ◌∙◌}
use webguard_instance.Application.Telemetry.{Telemetry}
use webguard_instance.Application.Controller.{
  ExecutionController, Place, Tick, Step, Steps, calls, drains, advances, stop, step, is_closed,
  advance, begin_drain, new_execution_controller, wait_for_idle,
}
use webguard_instance.Application.Controller.Exclusion.{
  runs, runners, holders, Steps-Agrees, new-Agrees, runners-append,
}

-- What a drain keeps: no run begins.
pub record Drained (c d : ExecutionController) (before after : ℕ) : Type 0 where
  pub still : d.draining ≡ true
  pub channel : d.idle ≡ c.idle
  pub fewer : after ≤ before

advance-Drained :
    (tick : Tick) (c : ExecutionController) (p : Place)
    → c.draining ≡ true
    → Drained c (advance tick c p).0 (runs p) (runs (advance tick c p).1)
unfolding advance
advance-Drained tick c p drain = ground arith

Step-Drained :
    {c d : ExecutionController} {ps qs : List Place}
    → Step c ps d qs
    → c.draining ≡ true
    → Drained c d (runners ps) (runners qs)
unfolding runners begin_drain
Step-Drained (calls c ps) drain = record { still = drain; channel = refl; fewer = omega arith }
Step-Drained (drains c ps) drain = record { still = refl; channel = refl; fewer = omega arith }
Step-Drained (advances c tick before p after) drain =
    let a = advance-Drained tick c p drain in
    record {
      still = a.still;
      channel = a.channel;
      fewer = omega (
        arith,
        a.fewer,
        runners-append before (p ∷ after),
        runners-append before ((advance tick c p).1 ∷ after),
      );
    }

pub Steps-Drained :
    {c d : ExecutionController} {ps qs : List Place}
    → Steps c ps d qs
    → c.draining ≡ true
    → Drained c d (runners ps) (runners qs)
Steps-Drained (stop c ps) drain = record { still = drain; channel = refl; fewer = omega arith }
Steps-Drained (step before s) drain =
    let a = Steps-Drained before drain in
    let b = Step-Drained s a.still in
    record {
      still = b.still;
      channel = b.channel ∙ a.channel;
      fewer = omega (arith, a.fewer, b.fewer);
    }

pub Steps-append :
    {c d e : ExecutionController} {ps qs rs : List Place}
    → Steps c ps d qs
    → Steps d qs e rs
    → Steps c ps e rs
Steps-append before (stop c ps) = before
Steps-append before (step s t) = step (Steps-append before s) t

-- If WaitForIdle is called on a controller that is draining, and its channel is closed at some later
-- moment, then no call runs the monitoring at that moment, nor at any moment after it.
pub wait_for_idle-drained :
    (max : ℤ) (t : Telemetry) (c d e : ExecutionController) (ps qs rs : List Place)
    → Steps (new_execution_controller max t) [] c ps
    → c.draining ≡ true
    → Steps c ps d qs
    → is_closed d.closed (wait_for_idle c) ≡ true
    → Steps d qs e rs
    → (runners qs ≡ 0) × (runners rs ≡ 0)
unfolding wait_for_idle holders runners
wait_for_idle-drained max t c d e ps qs rs reached drain waited closed later =
    let a = Steps-Agrees (Steps-append reached waited) (new-Agrees max t) in
    let w = Steps-Drained waited drain in
    let l = Steps-Drained later w.still in
    let none_now : runners qs ≡ 0 = ground (arith, a.run, a.current, w.channel) in
    (none_now, omega (arith, none_now, l.fewer))
