-- ===== src/Application/Controller/Progress.antt =====
-- A drain comes to its end: the calls of RunMonitoring are over after a bounded number of moves, and
-- then the channel that WaitForIdle waits for is closed.
use native.Mathlib.Decide.{ℕ_discrete}
use webguard_instance.Base.{
  ℕ, suc, ◌+◌, ◌*◌, ◌≤◌, ◌<◌, ℤ, true, List, [], ◌∷◌, ◌++◌, ◌≡◌, ◌≢◌, ◌⊎◌, inl, inr, refl, ap,
  subst, arith, length, pos, none,
}
use webguard_instance.Application.Telemetry.{Telemetry}
use webguard_instance.Application.Controller.{
  ExecutionController, Place, Tick, Steps, called, checked, entered, activated, running, summed,
  recorded, left, returned, skipping, skip_summed, drains, advances, stop, step, is_closed, advance,
  begin_drain, new_execution_controller, wait_for_idle,
}
use webguard_instance.Application.Controller.Exclusion.{runners, holders, Steps-Agrees, new-Agrees}
use webguard_instance.Application.Controller.Drain.{Steps-Drained, Steps-append}

-- How many moves a call may still make.
abbrev pub remaining : Place → ℕ
remaining called = 8
remaining checked = 7
remaining entered = 6
remaining activated = 5
remaining (running started_at id) = 4
remaining (summed duration err) = 3
remaining (recorded err) = 2
remaining (left err) = 1
remaining (returned err) = 0
remaining (skipping held) = 3
remaining (skip_summed held) = 2

unfoldable pub remaining_all : List Place → ℕ
remaining_all [] = 0
remaining_all (p ∷ ps) = remaining p + remaining_all ps

-- Moves of calls that have not returned, n of them, and calls of BeginDrain. No new call begins.
pub data Works
    : ℕ → ExecutionController → List Place → ExecutionController → List Place → Type 0 where
  rests : (c : ExecutionController) (ps : List Place) → Works 0 c ps c ps
  drained :
      {n : ℕ} {c d : ExecutionController} {ps qs : List Place}
      → Works n c ps d qs
      → Works n c ps (begin_drain d) qs
  works :
      {n : ℕ} {c d : ExecutionController} {ps qs : List Place} (tick : Tick) (before : List Place)
      (place : Place) (after : List Place)
      → Works n c ps d qs
      → qs ≡ before ++ place ∷ after
      → remaining place ≢ 0
      → Works (suc n) c ps (advance tick d place).0 (before ++ (advance tick d place).1 ∷ after)

remaining-advance :
    (tick : Tick) (c : ExecutionController) (p : Place)
    → remaining p ≢ 0
    → remaining (advance tick c p).1 < remaining p
unfolding advance
remaining-advance tick c p h = ground arith

remaining_all-append :
    (ps qs : List Place) → remaining_all (ps ++ qs) ≡ remaining_all ps + remaining_all qs
unfolding remaining_all
remaining_all-append [] qs = omega arith
remaining_all-append (p ∷ ps) qs = omega (arith, remaining_all-append ps qs)

remaining_all_bounded : (ps : List Place) → remaining_all ps ≤ 8 * length ps
unfolding remaining_all
remaining_all_bounded [] = omega arith
remaining_all_bounded (p ∷ ps) = ground (arith, remaining_all_bounded ps)

Works-bounded :
    {n : ℕ} {c d : ExecutionController} {ps qs : List Place}
    → Works n c ps d qs
    → n + remaining_all qs ≤ remaining_all ps
unfolding remaining_all
Works-bounded (rests c ps) = omega arith
Works-bounded (drained w) = Works-bounded w
Works-bounded {c = c} {ps = ps}
      (works {n = n} {d = d} {qs = qs} tick before place after w e unfinished) =
    omega (
      arith,
      subst (λ rs. n + remaining_all rs ≤ remaining_all ps) e (Works-bounded w),
      remaining_all-append before (place ∷ after),
      remaining_all-append before ((advance tick d place).1 ∷ after),
      remaining-advance tick d place unfinished,
    )

Works-Steps :
    {n : ℕ} {c d : ExecutionController} {ps qs : List Place} → Works n c ps d qs → Steps c ps d qs
Works-Steps (rests c ps) = stop c ps
Works-Steps (drained {d = d} {qs = qs} w) = step (Works-Steps w) (drains d qs)
Works-Steps (works {c = c} {d = d} {ps = ps} tick before place after w e unfinished) =
    step (subst (λ rs. Steps c ps d rs) e (Works-Steps w)) (advances d tick before place after)

abbrev some_tick : Tick
some_tick = record { now = pos 0; err = none }

-- A call that has not returned.
record Unfinished (ps : List Place) : Type 0 where
  before : List Place
  place : Place
  after : List Place
  split : ps ≡ before ++ place ∷ after
  can_move : remaining place ≢ 0

finished_or : (ps : List Place) → (remaining_all ps ≡ 0) ⊎ Unfinished ps
unfolding remaining_all
finished_or [] = inl refl
finished_or (p ∷ ps) = elim (ℕ_discrete (remaining p) 0) [
  | no moves ↦ inr (record { before = []; place = p; after = ps; split = refl; can_move = moves })
  | yes over ↦ elim (finished_or ps) [
    | inl rest ↦ inl (omega (arith, over, rest))
    | inr u ↦ inr (record {
      before = p ∷ u.before;
      place = u.place;
      after = u.after;
      split = ap (λ (qs : List Place). p ∷ qs) u.split;
      can_move = u.can_move;
    })
  ]
]

runners-remaining : (ps : List Place) → remaining_all ps ≡ 0 → runners ps ≡ 0
unfolding remaining_all runners
runners-remaining [] e = refl
runners-remaining (p ∷ ps) e = ground (arith, runners-remaining ps)

-- From any state that a new controller reaches with a drain begun, the calls that are there make, taken
-- together, at most eight moves for each of them, in whatever order they move; and where no call can move
-- any more, the channel that WaitForIdle took at the start is closed, so that it returns true. A return of
-- the runner is a move.
pub drain_ends :
    (max : ℤ) (t : Telemetry) (c d : ExecutionController) (ps qs : List Place) (n : ℕ)
    → Steps (new_execution_controller max t) [] c ps
    → c.draining ≡ true
    → Works n c ps d qs
    → (n ≤ 8 * length ps)
      × ((is_closed d.closed (wait_for_idle c) ≡ true)
          ⊎ ((e : ExecutionController) × (rs : List Place) × Works (suc n) c ps e rs))
unfolding wait_for_idle holders runners
drain_ends max t c d ps qs n reached draining w = (
  omega (arith, Works-bounded w, remaining_all_bounded ps),
  elim (finished_or qs) [
    | inl over ↦
        (let a = Steps-Agrees (Steps-append reached (Works-Steps w)) (new-Agrees max t) in
          let same = (Steps-Drained (Works-Steps w) draining).channel in
          inl (ground (arith, a.run, a.current, same, runners-remaining qs over)))
    | inr u ↦ inr (
      (advance some_tick d u.place).0,
      u.before ++ (advance some_tick d u.place).1 ∷ u.after,
      works some_tick u.before u.place u.after w u.split u.can_move,
    )
  ],
)
