-- ===== src/Runner/Lease/Publish.antt =====
-- Handing a result to Core: publishExecution of internal/adapters/runner/executor_registry.go, and
-- completeClaimedJob and releaseClaimedJob of job_leases.go. Whether Core accepts a call is the
-- environment's choice. publishExecution sets the keys through pointers that its caller shares, so
-- it returns the execution with the keys set; the failures of its calls are logged alone.
pub mod Laws
use webguard_instance.Base.{
  ℤ, String, Bool, true, false, not, ◌&&◌, Option, none, some, List, [], ◌∷◌, ◌++◌, is_some,
  trim_space, if◌then◌else◌,
}
use webguard_instance.Monitor.Types.{
  ClaimedJob, MonitoringResponsePayload, SslResultPayload, DomainResultPayload,
}
use webguard_instance.Application.Telemetry.{Op}
use webguard_instance.Runner.Idempotency.{Bytes16, new_idempotency_key, is_uuid_v4}
use webguard_instance.Runner.Execution.{Execution, set_execution_idempotency_key, job_result}
use webguard_instance.Runner.Trace.{
  Effect, tel, completes, releases, posts_response, posts_ssl, posts_domain, Traced, pure, emit,
  note, ◌>>=◌, ◌>>◌,
}
use webguard_instance.Runner.Lease.Validate.{is_blank}

-- executionKeys[0], if it is there and a version 4 UUID
given_key : List String → Option String
given_key [] = none
given_key (key ∷ keys) = if is_uuid_v4 key then some key else none

or_new_key : Option String → Option Bytes16 → Option String
or_new_key none random = new_idempotency_key random
or_new_key (some key) random = some key

post_response : Option MonitoringResponsePayload → List Effect
post_response none = []
post_response (some p) = posts_response p ∷ []

post_ssl : Option SslResultPayload → List Effect
post_ssl none = []
post_ssl (some p) = posts_ssl p ∷ []

post_domain : Option DomainResultPayload → List Effect
post_domain none = []
post_domain (some p) = posts_domain p ∷ []

posts : Execution → List Effect
unfolding post_response post_ssl post_domain
posts e = post_response e.response ++ (post_ssl e.ssl ++ post_domain e.domain)

-- With a key all results are posted under it; without one (no random bytes) nothing is.
publish_with : Execution → Option String → Traced Execution
unfolding posts
publish_with e none = pure e
publish_with e (some key) =
    (set_execution_idempotency_key e key, posts (set_execution_idempotency_key e key))

unfoldable pub publish_execution : Option Bytes16 → Execution → List String → Traced Execution
unfolding publish_with or_new_key given_key
publish_execution random e keys =
    if not (is_some e.response) && not (is_some e.ssl) && not (is_some e.domain)
    then pure e
    else publish_with e (or_new_key (given_key keys) random)

-- The effects of a call that Core accepts or not, and the answer to the caller.
settled : Effect → String → Bool → Traced Bool
settled call event accepted =
    if accepted then (true, call ∷ tel (Op.leases event) ∷ []) else (false, call ∷ [])

unfoldable pub complete_with : ClaimedJob → String → Bool → Execution → Traced Bool
unfolding settled
complete_with job key accepted e =
    settled (completes job.id key (record { attempt = job.attempt; result = job_result e }))
      "completed" accepted

unfoldable pub dual_publish : Bool → Option Bytes16 → Execution → String → Traced Execution
unfolding publish_execution
dual_publish dual_write random e key =
    if dual_write then publish_execution random e (key ∷ []) else pure e

unfoldable pub complete_claimed_job :
    Bool → Option Bytes16 → Bool → ClaimedJob → Execution → Traced Bool
complete_claimed_job dual_write random accepted job e =
    let key = trim_space job.idempotency_key in
    if not (is_uuid_v4 key) then pure false else do
      published ← dual_publish dual_write random (set_execution_idempotency_key e key) key
      complete_with job key accepted published

unfoldable pub release_claimed_job : Bool → ClaimedJob → String → Traced Bool
unfolding settled
release_claimed_job accepted job reason =
    if is_blank job.id
    then pure false
    else settled (releases job.id (record { attempt = job.attempt; reason = reason })) "released"
        accepted
