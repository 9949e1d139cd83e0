-- ===== src/Application/Examples.antt =====
-- The theorems on telemetry, coordinator and controller at concrete inputs.
use mathlib.Core.List.{Permᴰ}
use webguard_instance.Base.{
  true, length, ◌*◌, ◌⊎◌, is_some, max_ℤ, ◌≤◌, pos, false, not, none, some, List, [], ◌∷◌, ◌≡◌,
  refl, arith,
}
use webguard_instance.Application.Telemetry.{
  Op, queues, starts, finishes, drops, new_telemetry, apply_all,
}
use webguard_instance.Application.Telemetry.Life.{finished, next, Interleaving}
use webguard_instance.Application.Coordinator.{Phase, PhaseResult, join, run}
use webguard_instance.Application.Coordinator.Arrival.{failures_of, run_lem}
use webguard_instance.Application.Controller.{
  ExecutionController, Place, Tick, Steps, stop, step, calls, drains, advances, called, is_closed,
  new_execution_controller, advance, begin_drain, wait_for_idle,
}
use webguard_instance.Application.Controller.Exclusion.{runners, bit, Steps_exclusive}
use webguard_instance.Application.Limiter.{
  Limiter, new_limiter, acquire_execution_slot, release_slot, outside, holding, Moves, acquires,
  stay, move,
}
use webguard_instance.Application.Limiter.Slots.{held, slots_bounded}
use webguard_instance.Application.Controller.Drain.{wait_for_idle-drained}
use webguard_instance.Application.Controller.Progress.{Works, rests, works, drain_ends}
use webguard_instance.Application.Telemetry.Tallies.{Tallies, apply_all-Tallies}

-- One job that is run, and one that is dropped.
abbrev two_jobs : List (List Op)
two_jobs =
    (queues ∷ starts ∷ finishes "response" "up" (pos 5) ∷ [])
    ∷ (queues ∷ drops "response" "invalid" ∷ [])
    ∷ []

abbrev sample_history : List Op
sample_history =
    queues ∷ queues ∷ starts ∷ drops "response" "invalid" ∷ finishes "response" "up" (pos 5) ∷ []

interleaved : Interleaving two_jobs sample_history
interleaved = next [] queues _ _ refl (
    next (_ ∷ []) queues _ _ refl (
      next [] starts _ _ refl (
        next (_ ∷ []) (drops "response" "invalid") _ _ refl (
          next [] (finishes "response" "up" (pos 5)) _ _ refl
            (finished ([] ∷ [] ∷ []) (refl, (refl, tt)))))))

abbrev sample_phases : List Phase
sample_phases =
    record { name = "response"; err = some "timeout" } ∷ record { name = "SSL"; err = none } ∷ []

-- The second phase is the first to end.
abbrev sample_arrival : List PhaseResult
sample_arrival =
    record { index = 1; name = "SSL"; err = none }
    ∷ record { index = 0; name = "response"; err = some "timeout" }
    ∷ []

run_lem_example : run sample_phases sample_arrival ≡ some (join (failures_of sample_phases))
run_lem_example = run_lem sample_phases sample_arrival (Permᴰ.swap refl refl)

abbrev sample_controller : ExecutionController
sample_controller = new_execution_controller (pos 3) new_telemetry

abbrev sample_tick : Tick
sample_tick = record { now = pos 7; err = none }

-- A call begins, and the drain.
abbrev draining_controller : ExecutionController
draining_controller = begin_drain sample_controller

begun : Steps sample_controller [] draining_controller (called ∷ [])
begun =
    step (step (stop sample_controller []) (calls sample_controller []))
      (drains sample_controller (called ∷ []))

Steps_exclusive_example :
    (runners (called ∷ []) ≤ 1)
    × (runners (called ∷ []) ≡ bit draining_controller.active)
    × (is_closed draining_controller.closed draining_controller.idle
        ≡ not draining_controller.active)
    × (draining_controller.panicked ≡ false)
Steps_exclusive_example =
    Steps_exclusive (pos 3) new_telemetry draining_controller (called ∷ []) begun

wait_for_idle-drained_example :
    (runners (called ∷ []) ≡ 0)
    × (runners ((advance sample_tick draining_controller called).1 ∷ []) ≡ 0)
unfolding begin_drain new_execution_controller wait_for_idle
wait_for_idle-drained_example =
    wait_for_idle-drained (pos 3) new_telemetry draining_controller draining_controller
      (advance sample_tick draining_controller called).0 (called ∷ []) (called ∷ [])
      ((advance sample_tick draining_controller called).1 ∷ []) begun refl
      (stop draining_controller (called ∷ [])) refl
      (step (stop draining_controller (called ∷ []))
        (advances draining_controller sample_tick [] called []))

-- A goroutine gets a slot and gives it back.
abbrev one_slot : Limiter
one_slot = record { capacity = 3; used = 1 }

taken : Moves (new_limiter sample_controller) (outside ∷ []) one_slot (holding ∷ [])
unfolding new_limiter new_execution_controller acquire_execution_slot
taken =
    move (stay (new_limiter sample_controller) (outside ∷ []))
      (acquires (new_limiter sample_controller) one_slot false false [] [] refl)

slots_bounded_example :
    (held (holding ∷ []) ≤ 3) × (1 ≤ held (holding ∷ []) → is_some (release_slot one_slot) ≡ true)
unfolding max_ℤ
slots_bounded_example =
    slots_bounded (pos 3) new_telemetry (outside ∷ []) (holding ∷ []) one_slot refl taken

-- The call that began before the drain has made its first move.
abbrev after_first_move : ExecutionController
after_first_move = (advance sample_tick draining_controller called).0

first_move :
    Works 1 draining_controller
      (called ∷ [])
      after_first_move
      ((advance sample_tick draining_controller called).1 ∷ [])
first_move =
    works sample_tick [] called [] (rests draining_controller (called ∷ [])) refl
      (λ e. absurd (omega (arith, e)))

drain_ends_example :
    (1 ≤ 8 * length (called ∷ []))
    × ((is_closed after_first_move.closed (wait_for_idle draining_controller) ≡ true)
        ⊎ ((e : ExecutionController) × (rs : List Place) × Works 2 draining_controller
              (called ∷ [])
              e
              rs))
unfolding begin_drain
drain_ends_example =
    drain_ends (pos 3) new_telemetry draining_controller after_first_move (called ∷ [])
      ((advance sample_tick draining_controller called).1 ∷ []) 1 begun refl first_move

apply_all-Tallies_example : Tallies (apply_all new_telemetry sample_history) sample_history
apply_all-Tallies_example = apply_all-Tallies sample_history
