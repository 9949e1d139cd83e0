-- ===== src/Runner/Lease/Renewal/Laws.antt =====
-- What the renewal of a lease guarantees to the job that runs under it.
use webguard_instance.Base.{
  ℕ, zero, suc, ltb_ℤ, if_some, ap, subst, ◌+◌, ℤ, pos, leb_ℤ, min_ℤ, ◌≤ℤ◌, ◌<ℤ◌, Bool, true, false,
  ◌||◌, str_eq, Option, none, some, List, [], ◌∷◌, if◌then◌else◌, ◌≡◌, refl, arith, All, if_elim,
}
use webguard_instance.Base.Time.{sub_time}
use webguard_instance.Monitor.Types.{Instant, ClaimedJob}
use webguard_instance.Application.Telemetry.{Op}
use webguard_instance.Runner.Trace.{Effect, tel, extends}
use webguard_instance.Runner.Lease.Renewal.{
  Round, Renewal, returns, request_timeout, extended, answer, after_effects, renew, stop,
  lease_renewal_request_timeout,
}

-- How often the trace reports that the lease is gone.
abbrev is_loss : Effect → ℕ
is_loss (tel (Op.leases event)) =
    if str_eq event "expired" || str_eq event "renewal_failed" then 1 else 0
is_loss _ = 0

abbrev pub losses : List Effect → ℕ
losses [] = 0
losses (e ∷ es) = is_loss e + losses es

-- The renewal reports lease events alone, and its requests name the job and the attempt, and wait more
-- than 0 and at most 5 seconds.
abbrev pub IsRenewalOf : ClaimedJob → Effect → Type 0
IsRenewalOf job (tel (Op.leases event)) = Unit
IsRenewalOf job (extends id request timeout) =
    (id ≡ job.id)
    × (request.attempt ≡ job.attempt)
    × (pos 0 <ℤ timeout)
    × (timeout ≤ℤ lease_renewal_request_timeout)
IsRenewalOf job _ = ⊥

-- What holds of the goroutine's result, whenever it ends.
pub record IsHonest (job : ClaimedJob) (r : Renewal) : Type 0 where
  pub loss_reported : losses r.effects ≡ (if r.lease_lost then 1 else 0)
  pub renewals : All (IsRenewalOf job) r.effects

request_timeout_bounds :
    (remaining : ℤ)
    → leb_ℤ (request_timeout remaining) (pos 0) ≡ false
    → (pos 0 <ℤ request_timeout remaining)
      × (request_timeout remaining ≤ℤ lease_renewal_request_timeout)
unfolding request_timeout min_ℤ
request_timeout_bounds remaining h = ground arith

returns-IsHonest :
    (job : ClaimedJob) (lost : Bool) (expires : Instant) (es : List Effect)
    → losses es ≡ (if lost then 1 else 0)
    → All (IsRenewalOf job) es
    → IsHonest job (returns lost expires es)
unfolding returns
returns-IsHonest job lost expires es l a = record { loss_reported = l; renewals = a }

answer-IsHonest :
    (job : ClaimedJob) (call : Effect) (expires : Instant) (o : Option Instant)
    (go_on : Instant → Renewal)
    → is_loss call ≡ 0
    → IsRenewalOf job call
    → ((deadline : Instant) → IsHonest job (go_on deadline))
    → IsHonest job (answer call expires o go_on)
unfolding answer returns after_effects
answer-IsHonest job call expires none go_on z w h = record {
  loss_reported = rw z;
  renewals = (w, (tt, tt));
}
answer-IsHonest job call expires (some d) go_on z w h = record {
  loss_reported = rw z (omega (arith, (h d).loss_reported));
  renewals = (w, (tt, (h d).renewals));
}

-- Whatever the clock shows and Core answers, the renewal reports the loss of the lease exactly once if
-- the lease is lost, and not at all if it is not, and its requests name the job and the attempt, with a
-- time limit above 0 and at most 5 seconds.
pub renew-IsHonest :
    (job : ClaimedJob) (expires : Instant) (rounds : List Round) (last : Instant)
    → IsHonest job (renew job expires rounds last)
unfolding renew
renew-IsHonest job expires [] last =
    if_elim (IsHonest job) (leb_ℤ (sub_time expires last) (pos 0)) _ _
      (λ _. returns-IsHonest job true expires _ refl (tt, tt))
      (λ _. returns-IsHonest job false expires _ refl tt)
renew-IsHonest job expires (r ∷ rounds) last =
    let timeout = request_timeout (sub_time expires r.now) in
    let call = extends job.id (record { attempt = job.attempt }) timeout in
    if_elim (IsHonest job) (leb_ℤ (sub_time expires r.now) (pos 0)) _ _
      (λ _. returns-IsHonest job true expires _ refl (tt, tt))
      λ _.
        if_elim (IsHonest job) (leb_ℤ timeout (pos 0)) _ _
          (λ _. returns-IsHonest job true expires _ refl (tt, tt))
          λ positive.
            let (low, high) = request_timeout_bounds (sub_time expires r.now) positive in
            if_elim (IsHonest job) r.canceled _ _
              (λ _.
                returns-IsHonest job false expires (call ∷ []) refl ((refl, refl, low, high), tt))
              λ _.
                answer-IsHonest job call expires (extended r) _ refl (refl, refl, low, high)
                  λ deadline. renew-IsHonest job deadline rounds last

-- How often the trace reports an extension of the lease.
abbrev is_extension : Effect → ℕ
is_extension (tel (Op.leases event)) = if str_eq event "extended" then 1 else 0
is_extension _ = 0

abbrev pub extensions : List Effect → ℕ
extensions [] = 0
extensions (e ∷ es) = is_extension e + extensions es

-- The deadline after some number of rounds, in each of which Core granted a later one in time.
abbrev pub IsInForce : Instant → List Round → ℕ → Instant → Type 0
IsInForce expires rounds zero deadline = deadline ≡ expires
IsInForce expires [] (suc n) deadline = ⊥
IsInForce expires (r ∷ rounds) (suc n) deadline =
    (granted : Instant) × (r.reply ≡ some granted)
    × (r.replied_at <ℤ granted)
    × IsInForce granted rounds n deadline

abbrev IsGranted : Instant → List Round → Renewal → Type 0
IsGranted expires rounds r = IsInForce expires rounds (extensions r.effects) r.expires_at

later-some :
    (at : Instant) (o : Option Instant) (deadline : Instant)
    → (elim o [ none ↦ none | some d ↦ if ltb_ℤ at d then some d else none ]) ≡ some deadline
    → (o ≡ some deadline) × (at <ℤ deadline)
later-some at none deadline h = absurd (ground arith)
later-some at (some d) deadline h =
    let (early, same) = if_some (ltb_ℤ at d) d deadline h in
    (ap some same, subst (λ (e : Instant). at <ℤ e) same (ground arith))

extended-some :
    (r : Round) (deadline : Instant)
    → extended r ≡ some deadline
    → (r.reply ≡ some deadline) × (r.replied_at <ℤ deadline)
unfolding extended
extended-some r deadline h = later-some r.replied_at r.reply deadline h

answer-IsGranted :
    (call : Effect) (expires : Instant) (r : Round) (rounds : List Round) (o : Option Instant)
    (go_on : Instant → Renewal)
    → is_extension call ≡ 0
    → extended r ≡ o
    → ((deadline : Instant) → IsGranted deadline rounds (go_on deadline))
    → IsGranted expires (r ∷ rounds) (answer call expires o go_on)
unfolding answer returns after_effects
answer-IsGranted call expires r rounds none go_on z e h = rw z refl
answer-IsGranted call expires r rounds (some d) go_on z e h =
    let (reply, in_time) = extended-some r d e in
    let count : suc (extensions (go_on d).effects)
        ≡ is_extension call + (1 + extensions (go_on d).effects) =
      omega (arith, z) in
    subst (λ n. IsInForce expires (r ∷ rounds) n (go_on d).expires_at) count
      (d, reply, in_time, h d)

renew-IsGranted :
    (job : ClaimedJob) (expires : Instant) (rounds : List Round) (last : Instant)
    → IsGranted expires rounds (renew job expires rounds last)
unfolding renew returns
renew-IsGranted job expires [] last =
    if_elim (IsGranted expires []) (leb_ℤ (sub_time expires last) (pos 0)) _ _ (λ _. refl)
      (λ _. refl)
renew-IsGranted job expires (r ∷ rounds) last =
    let timeout = request_timeout (sub_time expires r.now) in
    let call = extends job.id (record { attempt = job.attempt }) timeout in
    if_elim (IsGranted expires (r ∷ rounds)) (leb_ℤ (sub_time expires r.now) (pos 0)) _ _
      (λ _. refl)
      λ _.
        if_elim (IsGranted expires (r ∷ rounds)) (leb_ℤ timeout (pos 0)) _ _ (λ _. refl)
          λ _.
            if_elim (IsGranted expires (r ∷ rounds)) r.canceled _ _ (λ _. refl)
              λ _.
                answer-IsGranted call expires r rounds (extended r) _ refl refl
                  λ deadline. renew-IsGranted job deadline rounds last

-- If `stop` says that the lease was kept, then the renewal has reported no loss of it, and the time is before
-- the deadline of the last extension that was reported, or without one that of the claim. The extensions that
-- were reported are as many as the first rounds, in each of which Core granted a deadline that was still
-- ahead.
pub stop_kept :
    (job : ClaimedJob) (expires : Instant) (rounds : List Round) (last now : Instant)
    → stop (renew job expires rounds last) now ≡ false
    → (deadline : Instant) × IsInForce expires rounds
        (extensions (renew job expires rounds last).effects)
        deadline
      × (now <ℤ deadline)
      × (losses (renew job expires rounds last).effects ≡ 0)
unfolding stop
stop_kept job expires rounds last now h = (
  (renew job expires rounds last).expires_at,
  renew-IsGranted job expires rounds last,
  ground arith,
  ground (arith, (renew-IsHonest job expires rounds last).loss_reported),
)
