-- ===== src/Runner/Cadence/Spacing.antt =====
-- Over any history of calls, the starts under one key are at least an interval apart.
use webguard_instance.Base.{
  ℤ, pos, ◌+ℤ◌, ◌≤ℤ◌, String, false, ◌&&◌, Option, none, some, List, [], ◌∷◌, ltb_ℤ, min_ℤ, max_ℤ,
  if◌then◌else◌, str_eq, eq_iff, ◌≡◌, refl, arith, All, Bool-cases, inl, inr, +ℤ_parts, -ℤ_parts,
}
use webguard_instance.Base.Dict.{Dict, get, get-put}
use webguard_instance.Base.Time.{sub_time}
use webguard_instance.Monitor.Types.{Instant, Monitoring}
use webguard_instance.Runner.Cadence.{
  response_check_interval, too_soon, start, cadence_key, try_start, allow_auxiliary_phase,
  response_due,
}

sub_time-ge : (t p i : ℤ) → pos 0 ≤ℤ i → ltb_ℤ (sub_time t p) i ≡ false → p +ℤ i ≤ℤ t
unfolding sub_time min_ℤ max_ℤ
sub_time-ge t p i n h = ground (arith, -ℤ_parts t p, +ℤ_parts p i)

-- The times at which calls under `key` were let through, oldest first.
unfoldable pub granted : String → String → Dict Instant → List (Monitoring × Instant) → List Instant
granted location key starts [] = []
granted location key starts ((m, now) ∷ calls) =
    let (starts', went) = try_start starts m location now in
    let rest = granted location key starts' calls in
    if went && str_eq (cadence_key m location) key then now ∷ rest else rest

unfoldable pub granted_phases : String → Dict Instant → List (String × Instant) → List Instant
granted_phases phase runs [] = []
granted_phases phase runs ((p, now) ∷ calls) =
    let (runs', went) = allow_auxiliary_phase runs p now in
    let rest = granted_phases phase runs' calls in
    if went && str_eq p phase then now ∷ rest else rest

-- Each time is at least `interval` after the one before it.
abbrev pub SpacedFrom : ℤ → Option Instant → List Instant → Type 0
SpacedFrom interval previous [] = Unit
SpacedFrom interval none (t ∷ ts) = SpacedFrom interval (some t) ts
SpacedFrom interval (some p) (t ∷ ts) = (p +ℤ interval ≤ℤ t) × SpacedFrom interval (some t) ts

SpacedFrom-cons :
    (i : ℤ) (previous : Option Instant) (t : Instant) (ts : List Instant)
    → pos 0 ≤ℤ i
    → too_soon previous i t ≡ false
    → SpacedFrom i (some t) ts
    → SpacedFrom i previous (t ∷ ts)
unfolding too_soon
SpacedFrom-cons i none t ts n h s = s
SpacedFrom-cons i (some p) t ts n h s = (sub_time-ge t p i n h, s)

-- One call of `start`, seen from the key `key`.
start-SpacedFrom :
    (starts : Dict Instant) (k key : String) (i interval : ℤ) (now : Instant) (ts : List Instant)
    → pos 0 ≤ℤ interval
    → (k ≡ key → i ≡ interval)
    → let (starts', went) = start starts k i now in
      SpacedFrom interval (get starts' key) ts
      → SpacedFrom interval (get starts key) (if went && str_eq k key then now ∷ ts else ts)
unfolding start
start-SpacedFrom starts k key i interval now ts n same =
    elim (Bool-cases (too_soon (get starts k) i now)) [
      | inl soon ↦ rw soon (λ s. s)
      | inr late ↦
          rw (late, get-put starts k key now)
            (elim (Bool-cases (str_eq k key)) [
              | inl e ↦ rw e (
                  SpacedFrom-cons interval (get starts key) now ts n (ground (arith, eq_iff k key)))
              | inr e ↦ rw e (λ s. s)
            ])
    ]

-- However the calls for other monitorings mix with them, two starts of a monitoring are never less
-- than its interval apart, and the first is not less than the interval after the start in the map,
-- if all calls under its key have that interval, which is not negative.
pub granted-SpacedFrom :
    (location key : String) (interval : ℤ) (starts : Dict Instant)
    (calls : List (Monitoring × Instant))
    → pos 0 ≤ℤ interval
    → All (λ c. cadence_key c.0 location ≡ key → response_check_interval c.0 ≡ interval) calls
    → SpacedFrom interval (get starts key) (granted location key starts calls)
unfolding granted try_start
granted-SpacedFrom location key interval starts [] n same = tt
granted-SpacedFrom location key interval starts ((m, now) ∷ calls) n same =
    elim (Bool-cases (response_due m now)) [
      | inl due ↦ rw due (
          start-SpacedFrom starts (cadence_key m location) key (response_check_interval m) interval
            now _ n same.0
            (granted-SpacedFrom location key interval
              (start starts (cadence_key m location) (response_check_interval m) now).0 calls n
              same.1))
      | inr early ↦ rw early (granted-SpacedFrom location key interval starts calls n same.1)
    ]

-- Two runs of the SSL phase, or of the domain phase, are never less than five minutes apart.
pub granted_phases-SpacedFrom :
    (phase : String) (runs : Dict Instant) (calls : List (String × Instant))
    → SpacedFrom (pos 300000000000) (get runs phase) (granted_phases phase runs calls)
unfolding granted_phases allow_auxiliary_phase
granted_phases-SpacedFrom phase runs [] = tt
granted_phases-SpacedFrom phase runs ((p, now) ∷ calls) =
    start-SpacedFrom runs p phase (pos 300000000000) (pos 300000000000) now _ (omega arith)
      (λ e. refl) (granted_phases-SpacedFrom phase (start runs p (pos 300000000000) now).0 calls)
