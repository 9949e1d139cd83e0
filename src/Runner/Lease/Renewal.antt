-- ===== src/Runner/Lease/Renewal.antt =====
-- startLeaseRenewal of internal/adapters/runner/job_leases.go: the goroutine that renews a lease
-- while its job runs, and the `stop` that the job's worker calls. The environment decides what the
-- clock shows and what Core answers: a `Round` is one pass of the loop in which the timer fired, and
-- the last pass, in which the job's context was done before the timer, has a clock reading alone.
pub mod Laws
use webguard_instance.Base.{
  ℤ, pos, ltb_ℤ, leb_ℤ, min_ℤ, half_ℤ, not, Bool, true, false, ◌||◌, Option, none, some, List, [],
  ◌∷◌, ◌++◌, if◌then◌else◌,
}
use webguard_instance.Base.Time.{second, sub_time}
use webguard_instance.Monitor.Types.{Instant, ClaimedJob}
use webguard_instance.Application.Telemetry.{Op}
use webguard_instance.Runner.Trace.{Effect, tel, extends}

abbrev pub lease_renewal_request_timeout : ℤ
lease_renewal_request_timeout = pos 5000000000

pub record Round : Type 0 where
  -- the clock at time.Until
  pub now : Instant
  -- whether the job's context was done when ExtendMonitoringJob returned
  pub canceled : Bool
  -- the new deadline, or the error
  pub reply : Option Instant
  -- the clock at the check of the new deadline
  pub replied_at : Instant

pub record Renewal : Type 0 where
  pub lease_lost : Bool
  pub expires_at : Instant
  pub effects : List Effect

-- The goroutine returns, with its last event if it has one.
returns : Bool → Instant → List Effect → Renewal
returns lost expires effects = record { lease_lost = lost; expires_at = expires; effects = effects }

abbrev event : Op → List Effect
event op = tel op ∷ []

request_timeout : ℤ → ℤ
request_timeout remaining = min_ℤ (half_ℤ remaining) lease_renewal_request_timeout

-- `err != nil || !extended.LeaseExpiresAt.After(time.Now())` fails, with the new deadline.
extended : Round → Option Instant
extended r = elim r.reply [
  | none ↦ none
  | some deadline ↦ if ltb_ℤ r.replied_at deadline then some deadline else none
]

after_effects : List Effect → Renewal → Renewal
after_effects before r = record r { effects = before ++ r.effects }

-- What follows a call of ExtendMonitoringJob: the lease is lost, or the loop goes on.
answer : Effect → Instant → Option Instant → (Instant → Renewal) → Renewal
unfolding returns after_effects
answer call expires none go_on = returns true expires (call ∷ event (Op.leases "renewal_failed"))
answer call expires (some deadline) go_on =
    after_effects (call ∷ event (Op.leases "extended")) (go_on deadline)

unfoldable pub renew : ClaimedJob → Instant → List Round → Instant → Renewal
unfolding returns request_timeout extended answer
renew job expires [] last =
    if leb_ℤ (sub_time expires last) (pos 0)
    then returns true expires (event (Op.leases "expired"))
    else returns false expires []
renew job expires (r ∷ rounds) last =
    let remaining = sub_time expires r.now in
    let timeout = request_timeout remaining in
    let call = extends job.id (record { attempt = job.attempt }) timeout in
    if leb_ℤ remaining (pos 0)
    then returns true expires (event (Op.leases "expired"))
    else if leb_ℤ timeout (pos 0)
    then returns true expires (event (Op.leases "renewal_failed"))
    else if r.canceled
    then returns false expires (call ∷ [])
    else answer call expires (extended r) (λ deadline. renew job deadline rounds last)

-- `stop`: the job is canceled, the goroutine has ended, and the clock shows `now`.
unfoldable pub stop : Renewal → Instant → Bool
stop r now = r.lease_lost || not (ltb_ℤ now r.expires_at)
