-- ===== src/Application/Controller/Exclusion.antt =====
-- What every interleaving of calls of RunMonitoring and BeginDrain keeps.
use webguard_instance.Base.{
  ℕ, suc, ◌+◌, ◌≤◌, ◌<◌, ℤ, Bool, true, false, not, List, [], ◌∷◌, ◌++◌, ◌≡◌, refl, arith, subst,
}
use webguard_instance.Application.Telemetry.{Telemetry}
use webguard_instance.Application.Controller.{
  ExecutionController, Place, Tick, Step, Steps, called, checked, entered, activated, running,
  summed, recorded, left, returned, skipping, skip_summed, calls, drains, advances, stop, step,
  is_closed, advance, begin_drain, new_execution_controller,
}

abbrev pub bit : Bool → ℕ
bit true = 1
bit false = 0

-- The calls that hold `mu`.
abbrev pub holds : Place → ℕ
holds called = 0
holds checked = 0
holds (returned err) = 0
holds (skipping held) = bit held
holds (skip_summed held) = bit held
holds _ = 1

-- The calls between setting `active` and clearing it.
abbrev pub runs : Place → ℕ
runs activated = 1
runs (running started_at id) = 1
runs (summed duration err) = 1
runs (recorded err) = 1
runs _ = 0

unfoldable pub holders : List Place → ℕ
holders [] = 0
holders (p ∷ ps) = holds p + holders ps

unfoldable pub runners : List Place → ℕ
runners [] = 0
runners (p ∷ ps) = runs p + runners ps

-- The controller's state, with h calls that hold `mu` and r that run.
pub record Agrees (c : ExecutionController) (h r : ℕ) : Type 0 where
  pub lock : h ≡ bit c.locked
  pub run : r ≡ bit c.active
  pub current : is_closed c.closed c.idle ≡ not c.active
  pub fresh : (n : ℕ) → c.idle < n → is_closed c.closed n ≡ false
  pub safe : c.panicked ≡ false

runs-holds : (p : Place) → runs p ≤ holds p
runs-holds p = ground arith

runners-holders : (ps : List Place) → runners ps ≤ holders ps
unfolding runners holders
runners-holders [] = omega arith
runners-holders (p ∷ ps) = omega (arith, runs-holds p, runners-holders ps)

holders-append : (ps qs : List Place) → holders (ps ++ qs) ≡ holders ps + holders qs
unfolding holders
holders-append [] qs = omega arith
holders-append (p ∷ ps) qs = omega (arith, holders-append ps qs)

pub runners-append : (ps qs : List Place) → runners (ps ++ qs) ≡ runners ps + runners qs
unfolding runners
runners-append [] qs = omega arith
runners-append (p ∷ ps) qs = omega (arith, runners-append ps qs)

advance-Agrees :
    (tick : Tick) (c : ExecutionController) (p : Place) (h r : ℕ)
    → r ≤ h
    → Agrees c (h + holds p) (r + runs p)
    → Agrees (advance tick c p).0 (h + holds (advance tick c p).1) (r + runs (advance tick c p).1)
unfolding advance
advance-Agrees tick c called h r l a = ground arith
advance-Agrees tick c checked h r l a = ground arith
advance-Agrees tick c entered h r l a =
    let above : (n : ℕ) → suc c.idle < n → is_closed c.closed n ≡ false =
      λ n i. a.fresh n (omega arith) in
    ground (arith, a.fresh (suc c.idle), above)
advance-Agrees tick c activated h r l a = ground arith
advance-Agrees tick c (running started_at id) h r l a = ground arith
advance-Agrees tick c (summed duration err) h r l a = ground arith
advance-Agrees tick c (recorded err) h r l a = record {
  lock = a.lock;
  run = ground arith;
  current = ground arith;
  fresh = λ n i. ground (arith, a.fresh n i);
  safe = ground arith;
}
advance-Agrees tick c (left err) h r l a = ground arith
advance-Agrees tick c (skipping held) h r l a = ground arith
advance-Agrees tick c (skip_summed held) h r l a = ground arith
advance-Agrees tick c (returned err) h r l a = ground arith

Step-Agrees :
    {c d : ExecutionController} {ps qs : List Place}
    → Step c ps d qs
    → Agrees c (holders ps) (runners ps)
    → Agrees d (holders qs) (runners qs)
unfolding holders runners begin_drain
Step-Agrees (calls c ps) a = record {
  lock = omega (arith, a.lock);
  run = omega (arith, a.run);
  current = a.current;
  fresh = a.fresh;
  safe = a.safe;
}
Step-Agrees (drains c ps) a = record {
  lock = a.lock;
  run = a.run;
  current = a.current;
  fresh = a.fresh;
  safe = a.safe;
}
Step-Agrees (advances c tick before p after) a =
    subst (λ h. Agrees moved.0 h (runners (before ++ moved.1 ∷ after)))
      (omega (arith, holders-append before (moved.1 ∷ after)))
      (subst (λ r. Agrees moved.0 (h + holds moved.1) r)
        (omega (arith, runners-append before (moved.1 ∷ after)))
        (advance-Agrees tick c p h r (omega (arith, runners-holders before, runners-holders after))
          (subst (λ n. Agrees c n (r + runs p)) (omega (arith, holders-append before (p ∷ after)))
            (subst (λ n. Agrees c (holders (before ++ p ∷ after)) n)
              (omega (arith, runners-append before (p ∷ after))) a))))
  where
    moved : ExecutionController × Place
    moved = advance tick c p

    h : ℕ
    h = holders before + holders after

    r : ℕ
    r = runners before + runners after

pub Steps-Agrees :
    {c d : ExecutionController} {ps qs : List Place}
    → Steps c ps d qs
    → Agrees c (holders ps) (runners ps)
    → Agrees d (holders qs) (runners qs)
Steps-Agrees (stop c ps) a = a
Steps-Agrees (step before s) a = Step-Agrees s (Steps-Agrees before a)

pub new-Agrees : (max : ℤ) (t : Telemetry) → Agrees (new_execution_controller max t) 0 0
unfolding new_execution_controller
new-Agrees max t = record {
  lock = refl;
  run = refl;
  current = refl;
  fresh = λ n i. ground arith;
  safe = refl;
}

-- Whatever calls of RunMonitoring and BeginDrain interleave on a new controller, and however, at
-- most one call runs the monitoring at a time, the controller is active exactly when one does,
-- its idle channel is closed exactly when none does, and no channel is closed twice.
pub Steps_exclusive :
    (max : ℤ) (t : Telemetry) (c : ExecutionController) (places : List Place)
    → Steps (new_execution_controller max t) [] c places
    → (runners places ≤ 1)
      × (runners places ≡ bit c.active)
      × (is_closed c.closed c.idle ≡ not c.active)
      × (c.panicked ≡ false)
unfolding holders runners
Steps_exclusive max t c places s =
    let a = Steps-Agrees s (new-Agrees max t) in (ground (arith, a.run), a.run, a.current, a.safe)
