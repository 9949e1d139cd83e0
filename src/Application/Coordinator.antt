-- ===== src/Application/Coordinator.antt =====
-- internal/application/coordinator.go. A phase is its name with the error that its Run returns. The
-- phases run at once, so their results reach the channel in any order; the loop that reads them
-- begins after the last has been sent.
pub mod Arrival
use webguard_instance.Base.{ℕ, zero, suc, String, Option, none, some, List, [], ◌∷◌, ◌+s◌}

pub record Phase : Type 0 where
  pub name : String
  pub err : Option String

pub record PhaseResult : Type 0 where
  pub index : ℕ
  pub name : String
  pub err : Option String

-- What the goroutines send: phase `index` on.
abbrev pub sent : ℕ → List Phase → List PhaseResult
sent index [] = []
sent index (p ∷ ps) = record { index = index; name = p.name; err = p.err } ∷ sent (suc index) ps

-- failures[index] = e, which panics (`none`) out of range
unfoldable pub store : List (Option String) → ℕ → String → Option (List (Option String))
store [] index e = none
store (f ∷ fs) zero e = some (some e ∷ fs)
store (f ∷ fs) (suc index) e = elim (store fs index e) [
  | none ↦ none
  | some stored ↦ some (f ∷ stored)
]

abbrev pub failure : String → String → String
failure name e = name +s " monitoring phase: " +s e

-- The body of the loop.
unfoldable pub record_failure : List (Option String) → PhaseResult → Option (List (Option String))
unfolding store
record_failure fs r = elim r.err [ none ↦ some fs | some e ↦ store fs r.index (failure r.name e) ]

unfoldable pub collect : List (Option String) → List PhaseResult → Option (List (Option String))
unfolding record_failure
collect fs [] = some fs
collect fs (r ∷ rs) = elim (record_failure fs r) [
  | none ↦ none
  | some recorded ↦ collect recorded rs
]

abbrev pub no_failures : List Phase → List (Option String)
no_failures [] = []
no_failures (p ∷ ps) = none ∷ no_failures ps

-- errors.Join: the errors that are not nil, and nil when there are none.
abbrev present : List (Option String) → List String
present [] = []
present (none ∷ fs) = present fs
present (some e ∷ fs) = e ∷ present fs

abbrev pub join : List (Option String) → Option (List String)
join fs = elim (present fs) [ [] ↦ none | e ∷ es ↦ some (e ∷ es) ]

-- Coordinator.Run, when the results arrive in the order of the second argument. The outer `none` is
-- a panic, the inner one a nil error.
unfoldable pub run : List Phase → List PhaseResult → Option (Option (List String))
unfolding collect
run [] arrived = some none
run (p ∷ ps) arrived = elim (collect (no_failures (p ∷ ps)) arrived) [
  | none ↦ none
  | some fs ↦ some (join fs)
]
