-- ===== src/Runner/Cadence.antt =====
-- internal/adapters/runner/response_cadence.go, and allowAuxiliaryPhase of runner.go: what may start
-- now. The mutex makes each call atomic; a method returns the new map and its answer.
pub mod Interval
pub mod Spacing
use webguard_instance.Base.{
  ℤ, pos, ◌+ℤ◌, String, Bool, true, false, not, Option, none, some, ltb_ℤ, if◌then◌else◌, ◌+s◌,
}
use webguard_instance.Base.Dict.{Dict, get, put}
use webguard_instance.Base.Time.{minute, seconds, sub_time}
use webguard_instance.Monitor.Types.{Instant, Monitoring}

abbrev pub legacy_response_check_interval : ℤ
legacy_response_check_interval = pos 300000000000

unfoldable pub response_check_interval : Monitoring → ℤ
response_check_interval m =
    if ltb_ℤ m.check_interval_seconds (pos 60)
    then legacy_response_check_interval
    else seconds m.check_interval_seconds

unfoldable pub response_due : Monitoring → Instant → Bool
response_due m now = elim m.last_response_at [
  | none ↦ true
  | some last ↦ not (ltb_ℤ now (last +ℤ response_check_interval m))
]

-- `previous, ok := starts[key]; ok && now.Sub(previous) < interval`
too_soon : Option Instant → ℤ → Instant → Bool
too_soon none interval now = false
too_soon (some previous) interval now = ltb_ℤ (sub_time now previous) interval

-- The part under the mutex, which both functions below have.
start : Dict Instant → String → ℤ → Instant → Dict Instant × Bool
unfolding too_soon
start starts key interval now =
    if too_soon (get starts key) interval now then (starts, false) else (put starts key now, true)

abbrev pub cadence_key : Monitoring → String → String
cadence_key m location = m.id +s ":" +s location

unfoldable pub try_start : Dict Instant → Monitoring → String → Instant → Dict Instant × Bool
unfolding start
try_start starts m location now =
    if response_due m now
    then start starts (cadence_key m location) (response_check_interval m) now
    else (starts, false)

-- allowAuxiliaryPhase, over the map phaseLastRuns
unfoldable pub allow_auxiliary_phase : Dict Instant → String → Instant → Dict Instant × Bool
unfolding start
allow_auxiliary_phase runs phase now = start runs phase (pos 300000000000) now
