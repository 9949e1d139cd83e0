-- ===== src/Application/Coordinator/Arrival.antt =====
-- The order in which the results of the phases arrive.
use mathlib.Core.List.{Permᴰ}
use mathlib.Core.List.Permᴰ.{nil, cons, swap, trans}
use webguard_instance.Base.{
  ℕ, zero, suc, ◌+◌, ◌≤◌, ◌<◌, ◌==◌, String, Bool, true, false, ◌||◌, Option, none, some, List, [],
  ◌∷◌, length, All, if◌then◌else◌, ◌≡◌, refl, arith, ap, ◌∙◌, Bool-cases, inl, inr, subst,
}
use webguard_instance.Application.Coordinator.{
  Phase, PhaseResult, sent, store, failure, record_failure, collect, no_failures, join, run,
}

-- What a phase adds to the failures, in the phases' order.
abbrev pub named_failure : String → Option String → Option String
named_failure name none = none
named_failure name (some e) = some (failure name e)

abbrev pub failure_of : Phase → Option String
failure_of p = named_failure p.name p.err

abbrev pub failures_of : List Phase → List (Option String)
failures_of [] = []
failures_of (p ∷ ps) = failure_of p ∷ failures_of ps

abbrev phase_at : List Phase → ℕ → Option Phase
phase_at [] n = none
phase_at (p ∷ ps) zero = some p
phase_at (p ∷ ps) (suc n) = phase_at ps n

-- The failures of the phases from `start` on that are done.
filled : ℕ → (ℕ → Bool) → List Phase → List (Option String)
filled start done [] = []
filled start done (p ∷ ps) =
    (if done start then failure_of p else none) ∷ filled (suc start) done ps

filled_congr :
    (start : ℕ) (d d' : ℕ → Bool) (ps : List Phase)
    → ((n : ℕ) → start ≤ n → d n ≡ d' n)
    → filled start d ps ≡ filled start d' ps
unfolding filled
filled_congr start d d' [] h = refl
filled_congr start d d' (p ∷ ps) h =
    rw (h start (omega arith), filled_congr (suc start) d d' ps (λ n l. h n (omega arith))) refl

-- `done`, with k added.
abbrev mark : ℕ → (ℕ → Bool) → ℕ → Bool
mark k done n = if n == k then true else done n

mark_same : (k : ℕ) (done : ℕ → Bool) → mark k done k ≡ true
mark_same k done = ground arith

mark_other : (n k : ℕ) (done : ℕ → Bool) → (n ≡ k → ⊥) → mark k done n ≡ done n
mark_other n k done h = ground arith

store-filled :
    (start k place : ℕ) (done : ℕ → Bool) (ps : List Phase) (name e : String)
    → place ≡ start + k
    → phase_at ps k ≡ some (record { name = name; err = some e })
    → store (filled start done ps) k (failure name e) ≡ some (filled start (mark place done) ps)
unfolding filled store
store-filled start k place done [] name e at h = ground arith
store-filled start zero place done (p ∷ ps) name e at h =
    let here : mark place done start ≡ true = ground arith in
    let rest : filled (suc start) (mark place done) ps ≡ filled (suc start) done ps =
      filled_congr (suc start) (mark place done) done ps (λ n l. ground arith) in
    let same : failure_of p ≡ some (failure name e) = ground arith in rw (here, rest, same) refl
store-filled start (suc k) place done (p ∷ ps) name e at h =
    let here : mark place done start ≡ done start = ground arith in
    rw (store-filled (suc start) k place done ps name e (omega arith) h, here) refl

skip-filled :
    (start k place : ℕ) (done : ℕ → Bool) (ps : List Phase) (name : String)
    → place ≡ start + k
    → phase_at ps k ≡ some (record { name = name; err = none })
    → filled start done ps ≡ filled start (mark place done) ps
unfolding filled
skip-filled start k place done [] name at h = ground arith
skip-filled start zero place done (p ∷ ps) name at h =
    let rest : filled (suc start) (mark place done) ps ≡ filled (suc start) done ps =
      filled_congr (suc start) (mark place done) done ps (λ n l. ground arith) in
    let same : failure_of p ≡ none = ground arith in rw (rest, same) (ground arith)
skip-filled start (suc k) place done (p ∷ ps) name at h =
    let here : mark place done start ≡ done start = ground arith in
    rw (skip-filled (suc start) k place done ps name (omega arith) h, here) refl

-- A result as its phase sent it.
abbrev IsSent : List Phase → PhaseResult → Type 0
IsSent ps r = phase_at ps r.index ≡ some (record { name = r.name; err = r.err })

record-filled :
    (done : ℕ → Bool) (ps : List Phase) (index : ℕ) (name : String) (err : Option String)
    → IsSent ps (record { index = index; name = name; err = err })
    → record_failure (filled 0 done ps) (record { index = index; name = name; err = err })
      ≡ some (filled 0 (mark index done) ps)
unfolding record_failure
record-filled done ps index name none h =
    ap some (skip-filled 0 index index done ps name (omega arith) h)
record-filled done ps index name (some e) h =
    store-filled 0 index index done ps name e (omega arith) h

abbrev marks : List PhaseResult → (ℕ → Bool) → ℕ → Bool
marks [] done = done
marks (r ∷ rs) done = marks rs (mark r.index done)

collect-filled :
    (done : ℕ → Bool) (ps : List Phase) (rs : List PhaseResult)
    → All (IsSent ps) rs
    → collect (filled 0 done ps) rs ≡ some (filled 0 (marks rs done) ps)
unfolding collect
collect-filled done ps [] h = refl
collect-filled done ps (r ∷ rs) h =
    rw (record-filled done ps r.index r.name r.err h.0, collect)
      (collect-filled (mark r.index done) ps rs h.1)

-- The results have one of this index.
abbrev has : List PhaseResult → ℕ → Bool
has [] n = false
has (r ∷ rs) n = r.index == n || has rs n

marks_lem :
    (rs : List PhaseResult) (done : ℕ → Bool) (n : ℕ)
    → (has rs n || done n) ≡ true
    → marks rs done n ≡ true
marks_lem [] done n h = h
marks_lem (r ∷ rs) done n h = marks_lem rs (mark r.index done) n (ground arith)

All-perm : (P : PhaseResult → Type 0) {rs qs : List PhaseResult} → Permᴰ rs qs → All P rs → All P qs
All-perm P nil a = a
All-perm P (cons e d) a = (subst P e a.0, All-perm P d a.1)
All-perm P (swap e f) a = (subst P f a.1.0, (subst P e a.0, a.1.1))
All-perm P (trans d e) a = All-perm P e (All-perm P d a)

has-perm : {rs qs : List PhaseResult} (n : ℕ) → Permᴰ rs qs → has rs n ≡ has qs n
has-perm n nil = refl
has-perm n (cons e d) = rw (e, has-perm n d) refl
has-perm n (swap {a = a} {b = b} e f) = rw (← e, ← f) (ground arith)
has-perm n (trans d e) = has-perm n d ∙ has-perm n e

has-sent :
    (start n : ℕ) (ps : List Phase)
    → start ≤ n
    → n < start + length ps
    → has (sent start ps) n ≡ true
has-sent start n [] l h = ground arith
has-sent start n (p ∷ ps) l h = elim (Bool-cases (start == n)) [
  | inl e ↦ rw e refl
  | inr e ↦ rw e (has-sent (suc start) n ps (ground arith) (omega arith))
]

-- Phases after others.
IsSent-from :
    (start : ℕ) (all ps : List Phase)
    → ((k : ℕ) → phase_at all (start + k) ≡ phase_at ps k)
    → All (IsSent all) (sent start ps)
IsSent-from start all [] h = tt
IsSent-from start all (p ∷ ps) h = (
  ap (phase_at all) (omega arith) ∙ h zero,
  IsSent-from (suc start) all ps (λ k. ap (phase_at all) (omega arith) ∙ h (suc k)),
)

filled_all :
    (start : ℕ) (done : ℕ → Bool) (ps : List Phase)
    → ((n : ℕ) → start ≤ n → n < start + length ps → done n ≡ true)
    → filled start done ps ≡ failures_of ps
unfolding filled
filled_all start done [] h = refl
filled_all start done (p ∷ ps) h =
    rw
      (
        h start (omega arith) (omega arith),
        filled_all (suc start) done ps (λ n l m. h n (omega arith) (omega arith)),
      )
      refl

filled_none : (start : ℕ) (ps : List Phase) → filled start (λ n. false) ps ≡ no_failures ps
unfolding filled
filled_none start [] = refl
filled_none start (p ∷ ps) = ap (λ fs. none ∷ fs) (filled_none (suc start) ps)

-- In whatever order the results of the phases arrive, Run does not panic, and it returns the errors
-- of the phases that failed, each under its phase's name, in the order of the phases; nil when none
-- failed.
pub run_lem :
    (phases : List Phase) (arrived : List PhaseResult)
    → Permᴰ (sent 0 phases) arrived
    → run phases arrived ≡ some (join (failures_of phases))
unfolding run
run_lem [] arrived d = refl
run_lem (p ∷ ps) arrived d = rw (collected, run) refl
  where
    whole : filled 0 (marks arrived (λ n. false)) (p ∷ ps) ≡ failures_of (p ∷ ps)
    whole = filled_all 0 (marks arrived (λ n. false)) (p ∷ ps) (λ n l h.
        marks_lem arrived (λ n. false) n (rw (← has-perm n d, has-sent 0 n (p ∷ ps) l h) refl))

    collected : collect (no_failures (p ∷ ps)) arrived ≡ some (failures_of (p ∷ ps))
    collected = rw (← filled_none 0 (p ∷ ps)) (
        collect-filled (λ n. false) (p ∷ ps) arrived
          (All-perm (IsSent (p ∷ ps)) d
            (IsSent-from 0 (p ∷ ps) (p ∷ ps) (λ k. ap (phase_at (p ∷ ps)) (omega arith))))
        ∙ ap some whole)
