-- ===== src/Runner/Lease/Publish/Laws.antt =====
-- How often a result is handed to Core, and under which key.
use webguard_instance.Base.{
  ℕ, ◌+◌, String, Bool, true, false, not, ◌&&◌, is_some, Option, none, some, List, [], ◌∷◌, ◌++◌,
  trim_space, if◌then◌else◌, ◌≡◌, refl, arith, All, if_elim,
}
use webguard_instance.Monitor.Types.{
  ClaimedJob, MonitoringResponsePayload, SslResultPayload, DomainResultPayload,
}
use webguard_instance.Application.Telemetry.{Op}
use webguard_instance.Runner.Idempotency.{Bytes16, is_uuid_v4}
use webguard_instance.Runner.Execution.{Execution, set_execution_idempotency_key, job_result}
use webguard_instance.Runner.Trace.{
  Effect, tel, completes, releases, extends, posts_response, posts_ssl, posts_domain, Traced, ops,
}
use webguard_instance.Runner.Lease.Validate.{is_blank}
use webguard_instance.Runner.Lease.Renewal.Laws.{IsRenewalOf}
use webguard_instance.Runner.Lease.Publish.{
  post_response, post_ssl, post_domain, given_key, or_new_key, posts, publish_with,
  publish_execution, complete_with, dual_publish, complete_claimed_job, release_claimed_job,
}

-- Calls that complete or release a job.
abbrev is_settlement : Effect → ℕ
is_settlement (completes id key request) = 1
is_settlement (releases id request) = 1
is_settlement _ = 0

abbrev pub settlements : List Effect → ℕ
settlements [] = 0
settlements (e ∷ es) = is_settlement e + settlements es

pub settlements-append :
    (xs ys : List Effect) → settlements (xs ++ ys) ≡ settlements xs + settlements ys
settlements-append [] ys = omega arith
settlements-append (x ∷ xs) ys = omega (arith, settlements-append xs ys)

pub settlements-renewal :
    (job : ClaimedJob) (es : List Effect) → All (IsRenewalOf job) es → settlements es ≡ 0
settlements-renewal job [] a = refl
settlements-renewal job (tel (Op.leases event) ∷ es) a =
    omega (arith, settlements-renewal job es a.1)
settlements-renewal job (extends id r t ∷ es) a = omega (arith, settlements-renewal job es a.1)
settlements-renewal job (e ∷ es) a = absurd a.0

-- What is posted to the legacy endpoints carries the key, and nothing else is done.
abbrev pub IsPost : String → Effect → Type 0
IsPost key (posts_response p) = p.idempotency_key ≡ key
IsPost key (posts_ssl p) = p.idempotency_key ≡ key
IsPost key (posts_domain p) = p.idempotency_key ≡ key
IsPost key _ = ⊥

settlements-posts : (key : String) (es : List Effect) → All (IsPost key) es → settlements es ≡ 0
settlements-posts key [] a = refl
settlements-posts key (posts_response p ∷ es) a = omega (arith, settlements-posts key es a.1)
settlements-posts key (posts_ssl p ∷ es) a = omega (arith, settlements-posts key es a.1)
settlements-posts key (posts_domain p ∷ es) a = omega (arith, settlements-posts key es a.1)
settlements-posts key (e ∷ es) a = absurd a.0

pub ops-posts : (key : String) (es : List Effect) → All (IsPost key) es → ops es ≡ []
ops-posts key [] a = refl
ops-posts key (posts_response p ∷ es) a = ops-posts key es a.1
ops-posts key (posts_ssl p ∷ es) a = ops-posts key es a.1
ops-posts key (posts_domain p ∷ es) a = ops-posts key es a.1
ops-posts key (e ∷ es) a = absurd a.0

posts-IsPost :
    (e : Execution) (key : String) → All (IsPost key) (posts (set_execution_idempotency_key e key))
unfolding posts set_execution_idempotency_key
posts-IsPost e key = ground arith

set_key_twice :
    (e : Execution) (key : String)
    → set_execution_idempotency_key (set_execution_idempotency_key e key) key
      ≡ set_execution_idempotency_key e key
unfolding set_execution_idempotency_key
set_key_twice e key = ground arith

-- The completion call of a job under its key.
abbrev pub completion : ClaimedJob → String → Execution → Effect
completion job key e =
    completes job.id key
      (record { attempt = job.attempt; result = job_result (set_execution_idempotency_key e key) })

dual_publish_lem :
    (dual_write : Bool) (random : Option Bytes16) (e : Execution) (key : String)
    → is_uuid_v4 key ≡ true
    → let (published, es) =
        dual_publish dual_write random (set_execution_idempotency_key e key) key in
      (published ≡ set_execution_idempotency_key e key)
      × All (IsPost key) es
      × (dual_write ≡ false → es ≡ [])
unfolding dual_publish publish_execution publish_with
dual_publish_lem false random e key h = (refl, tt, λ _. refl)
dual_publish_lem true random e key h = rw h (
    if_elim
      (λ (m : Traced Execution).
        (m.0 ≡ set_execution_idempotency_key e key)
        × All (IsPost key) m.1
        × (true ≡ false → m.1 ≡ []))
      _ _ _ (λ _. (refl, tt, λ _. refl))
      λ _. (set_key_twice e key, posts-IsPost (set_execution_idempotency_key e key) key, λ f. cc))

-- A job whose key is a version 4 UUID is completed by one call, with its ID, its attempt, the trimmed
-- key, and the result under that key. Only results under the same key are posted before it, and none
-- without the dual write; the completion is counted exactly if Core accepted it, which is the answer.
pub complete_claimed_job_lem :
    (dual_write : Bool) (random : Option Bytes16) (accepted : Bool) (job : ClaimedJob)
    (e : Execution)
    → is_uuid_v4 (trim_space job.idempotency_key) ≡ true
    → let key = trim_space job.idempotency_key in
      (before : List Effect) × All (IsPost key) before
      × (dual_write ≡ false → before ≡ [])
      × (complete_claimed_job dual_write random accepted job e ≡ (
        accepted,
        before
            ++ completion job key e ∷ (if accepted then tel (Op.leases "completed") ∷ [] else []),
      ))
unfolding complete_claimed_job complete_with
complete_claimed_job_lem dual_write random accepted job e h =
    let (p, a, n) = dual_publish_lem dual_write random e (trim_space job.idempotency_key) h in
    (
      (dual_publish dual_write random
          (set_execution_idempotency_key e (trim_space job.idempotency_key))
          (trim_space job.idempotency_key)).1,
      a,
      n,
      rw (h, p) (ground arith),
    )

pub settlements-complete_claimed_job :
    (dual_write : Bool) (random : Option Bytes16) (accepted : Bool) (job : ClaimedJob)
    (e : Execution)
    → is_uuid_v4 (trim_space job.idempotency_key) ≡ true
    → settlements (complete_claimed_job dual_write random accepted job e).1 ≡ 1
settlements-complete_claimed_job dual_write random accepted job e h =
    let (before, a, n, eq) = complete_claimed_job_lem dual_write random accepted job e h in
    rw (eq, settlements-append before)
      (ground (arith, settlements-posts (trim_space job.idempotency_key) before a))

pub settlements-release_claimed_job :
    (accepted : Bool) (job : ClaimedJob) (reason : String)
    → settlements (release_claimed_job accepted job reason).1 ≡ (if is_blank job.id then 0 else 1)
unfolding release_claimed_job
settlements-release_claimed_job accepted job reason = ground arith

ops-posts_of :
    (r : Option MonitoringResponsePayload) (s : Option SslResultPayload)
    (d : Option DomainResultPayload)
    → ops (post_response r ++ (post_ssl s ++ post_domain d)) ≡ []
unfolding post_response post_ssl post_domain
ops-posts_of r s d = ground arith

ops-publish_with : (e : Execution) (key : Option String) → ops (publish_with e key).1 ≡ []
unfolding publish_with posts
ops-publish_with e none = refl
ops-publish_with e (some key) =
    let f = set_execution_idempotency_key e key in ops-posts_of f.response f.ssl f.domain

-- Publishing tells the telemetry nothing.
pub ops-publish_execution :
    (random : Option Bytes16) (e : Execution) (keys : List String)
    → ops (publish_execution random e keys).1 ≡ []
unfolding publish_execution
ops-publish_execution random e keys =
    if_elim (λ (r : Traced Execution). ops r.1 ≡ [])
      (not (is_some e.response) && not (is_some e.ssl) && not (is_some e.domain)) _ _ (λ _. refl)
      (λ _. ops-publish_with e (or_new_key (given_key keys) random))
