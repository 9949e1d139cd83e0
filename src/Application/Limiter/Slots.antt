-- ===== src/Application/Limiter/Slots.antt =====
-- How many goroutines hold a slot at once.
use webguard_instance.Base.{
  ℕ, suc, ◌+◌, ◌≤◌, ℤ, pos, pos_part, max_ℤ, true, is_some, List, [], ◌∷◌, ◌++◌, ◌≡◌, arith,
}
use webguard_instance.Application.Telemetry.{Telemetry}
use webguard_instance.Application.Controller.{new_execution_controller}
use webguard_instance.Application.Limiter.{
  Limiter, new_limiter, acquire_execution_slot, release_slot, Holder, outside, holding, Move, Moves,
  acquires, releases, stay, move,
}

abbrev pub held : List Holder → ℕ
held [] = 0
held (outside ∷ hs) = held hs
held (holding ∷ hs) = suc (held hs)

held-append : (hs is : List Holder) → held (hs ++ is) ≡ held hs + held is
held-append [] is = omega arith
held-append (outside ∷ hs) is = held-append hs is
held-append (holding ∷ hs) is = omega (arith, held-append hs is)

-- The channel holds one element for each goroutine that holds a slot.
record Counts (capacity : ℕ) (l : Limiter) (hs : List Holder) : Type 0 where
  same_capacity : l.capacity ≡ capacity
  counted : l.used ≡ held hs
  room : l.used ≤ l.capacity

Move-Counts :
    {capacity : ℕ} {l m : Limiter} {hs is : List Holder}
    → Move l hs m is
    → Counts capacity l hs
    → Counts capacity m is
unfolding acquire_execution_slot release_slot
Move-Counts (acquires l l' done prefers_done before after e) c =
    ground (arith, held-append before (outside ∷ after), held-append before (holding ∷ after))
Move-Counts (releases l l' before after e) c =
    ground (arith, held-append before (outside ∷ after), held-append before (holding ∷ after))

Moves-Counts :
    {capacity : ℕ} {l m : Limiter} {hs is : List Holder}
    → Moves l hs m is
    → Counts capacity l hs
    → Counts capacity m is
Moves-Counts (stay l hs) c = c
Moves-Counts (move before s) c = Move-Counts s (Moves-Counts before c)

-- However the goroutines of a run take and give back slots, at no time do more of them hold one than
-- the concurrency of the controller, which is at least 1, allows, and giving back a slot never blocks.
pub slots_bounded :
    (max : ℤ) (t : Telemetry) (start hs : List Holder) (l : Limiter)
    → held start ≡ 0
    → Moves (new_limiter (new_execution_controller max t)) start l hs
    → (held hs ≤ pos_part (max_ℤ (pos 1) max)) × (1 ≤ held hs → is_some (release_slot l) ≡ true)
unfolding new_limiter new_execution_controller max_ℤ release_slot
slots_bounded max t start hs l none_held moves =
    let begun : Counts (pos_part (max_ℤ (pos 1) max)) (new_limiter (new_execution_controller max t))
        start =
      record { same_capacity = ground arith; counted = ground arith; room = ground arith } in
    let c = Moves-Counts moves begun in
    (ground (arith, c.counted, c.room, c.same_capacity), λ h. ground (arith, c.counted))
