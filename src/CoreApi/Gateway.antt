-- ===== src/CoreApi/Gateway.antt =====
-- The client of internal/adapters/coreapi/client.go as the gateway of the runner
-- (internal/application/ports.go). `error_text` is the text of an error's Error method.
pub mod Runs
pub mod Examples
use webguard_instance.Base.{
  String, List, [], ◌∷◌, ◌≡◌, refl, ap, ◌∙◌, pos, ◌≤ℤ◌, length, IsDistinct, arith, subst, sym,
}
use webguard_instance.Base.Result.{Result, ok, err, ok_inj}
use webguard_instance.Monitor.Types.{Monitoring, ClaimedJob, ClaimMonitoringJobsRequest}
use webguard_instance.Runner.Service.{Reply, answers, refuses}
use webguard_instance.Runner.Gateway.{Gateway, ListsOnce, ClaimsFew, monitoring_ids}
use webguard_instance.CoreApi.{Client, Library, Sending, Failure, Exchange}
use webguard_instance.CoreApi.Calls.{Answer, claim_monitoring_jobs}
use webguard_instance.CoreApi.Calls.Claims.{claim_monitoring_jobs-IsClaim}
use webguard_instance.CoreApi.Monitorings.{get_monitorings}
use webguard_instance.CoreApi.Monitorings.Listing.{ids}
use webguard_instance.CoreApi.Monitorings.Once.{get_monitorings_once}

-- A call as its caller sees it.
unfoldable pub as_reply : {A : Type 0} → (Failure → String) → Result Failure A → Reply A
as_reply error_text (ok a) = answers a
as_reply error_text (err e) = refuses (error_text e)

as_reply-answers :
    {A : Type 0} (error_text : Failure → String) (r : Result Failure A) (a : A)
    → as_reply error_text r ≡ answers a
    → r ≡ ok a
unfolding as_reply
as_reply-answers error_text (ok b) a h = ground arith
as_reply-answers error_text (err e) a h = absurd (ground arith)

ids_same : (ms : List Monitoring) → monitoring_ids ms ≡ ids ms
ids_same [] = refl
ids_same (m ∷ ms) = ap (λ zs. m.id ∷ zs) (ids_same ms)

module _ (lib : Library) (c : Client) (error_text : Failure → String)
    (decode_monitorings : String → Result String (List Monitoring))
    (decode_jobs : String → Result String (List ClaimedJob)) (list_answers : String → Answer)
    (claim_answer : Answer) where
  listed_once_lem :
      (location type : String) (types : List String) (ms : List Monitoring)
      → as_reply error_text
          (get_monitorings lib c decode_monitorings list_answers location (type ∷ types)).1
        ≡ answers ms
      → IsDistinct (monitoring_ids ms)
  listed_once_lem location type types ms h = subst IsDistinct (sym (ids_same ms)) (
      get_monitorings_once lib c decode_monitorings list_answers location type types ms
        (as_reply-answers error_text _ ms h))

  claimed_few_lem :
      (p : ClaimMonitoringJobsRequest) (jobs : List ClaimedJob)
      → as_reply error_text (claim_monitoring_jobs lib c decode_jobs claim_answer p).1
        ≡ answers jobs
      → pos (length jobs) ≤ℤ p.max_batch_size
  claimed_few_lem p jobs h =
      (claim_monitoring_jobs-IsClaim lib c decode_jobs claim_answer p jobs
        (as_reply-answers error_text _ jobs h)).1

  unfoldable pub core_gateway : Gateway
  unfolding as_reply get_monitorings claim_monitoring_jobs
  core_gateway = record {
    get_monitorings = λ location types.
        as_reply error_text
          (get_monitorings lib c decode_monitorings list_answers location types).1;
    claim_monitoring_jobs =
        λ p. as_reply error_text (claim_monitoring_jobs lib c decode_jobs claim_answer p).1;
  }

  pub core_gateway-ListsOnce : ListsOnce core_gateway
  unfolding core_gateway
  core_gateway-ListsOnce = listed_once_lem

  pub core_gateway-ClaimsFew : ClaimsFew core_gateway
  unfolding core_gateway
  core_gateway-ClaimsFew = claimed_few_lem
