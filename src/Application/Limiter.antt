-- ===== src/Application/Limiter.antt =====
-- The execution limiter of internal/application/execution_controller.go: a buffered channel that each
-- run makes with the controller's concurrency as its capacity, and AcquireExecutionSlot with the
-- function that it returns. Any number of goroutines share the channel. Without a limiter in its
-- context AcquireExecutionSlot always grants the slot, and its function does nothing; that branch is
-- left out.
pub mod Slots
use webguard_instance.Base.{
  ℕ, suc, ◌+◌, ◌-◌, ◌==◌, ltb, pos_part, Bool, true, false, ◌&&◌, not, Option, none, some, List, [],
  ◌∷◌, ◌++◌, ◌≡◌, if◌then◌else◌,
}
use webguard_instance.Application.Controller.{ExecutionController}

pub record Limiter : Type 0 where
  pub capacity : ℕ
  pub used : ℕ

-- make(chan struct{}, c.maxConcurrency)
unfoldable pub new_limiter : ExecutionController → Limiter
new_limiter c = record { capacity = pos_part c.max_concurrency; used = 0 }

-- A slot is got, the context was done, or neither yet.
pub data Slot : Type 0 where
  acquired : Limiter → Slot
  canceled waiting : Slot

-- The select: `done` says whether the context is done, and `prefers_done` which case Go takes where both
-- are ready.
unfoldable pub acquire_execution_slot : Bool → Bool → Limiter → Slot
acquire_execution_slot done prefers_done l =
    if ltb l.used l.capacity && not (done && prefers_done)
    then acquired (record l { used = suc l.used })
    else if done
    then canceled
    else waiting

-- The returned function receives from the channel; `none` is a receive that blocks.
unfoldable pub release_slot : Limiter → Option Limiter
release_slot l = if l.used == 0 then none else some (record l { used = l.used - 1 })

pub data Holder : Type 0 where
  outside holding : Holder

-- One goroutine gets a slot, or gives its slot back.
pub data Move : Limiter → List Holder → Limiter → List Holder → Type 0 where
  acquires :
      (l l' : Limiter) (done prefers_done : Bool) (before after : List Holder)
      → acquire_execution_slot done prefers_done l ≡ acquired l'
      → Move l (before ++ outside ∷ after) l' (before ++ holding ∷ after)
  releases :
      (l l' : Limiter) (before after : List Holder)
      → release_slot l ≡ some l'
      → Move l (before ++ holding ∷ after) l' (before ++ outside ∷ after)

pub data Moves : Limiter → List Holder → Limiter → List Holder → Type 0 where
  stay : (l : Limiter) (hs : List Holder) → Moves l hs l hs
  move :
      {l m n : Limiter} {hs is js : List Holder}
      → Moves l hs m is
      → Move m is n js
      → Moves l hs n js
