-- ===== src/CoreApi/Calls.antt =====
-- The operations of the client in internal/adapters/coreapi/client.go.
pub mod Claims
use webguard_instance.Base.{
  ℤ, pos, ltb_ℤ, String, none, List, [], length, str_eq, trim_space, if◌then◌else◌, ◌+s◌,
}
use webguard_instance.Base.Result.{Result, ok, err}
use webguard_instance.Monitor.Types.{
  ClaimedJob, ClaimMonitoringJobsRequest, CompleteMonitoringJobRequest, ReleaseMonitoringJobRequest,
  ExtendMonitoringJobRequest,
}
use webguard_instance.CoreApi.{
  Client, Failure, message, Payload, claim_body, complete_body, release_body, extend_body, Request,
  Library, Reply, Sending, KeyFile, instance_api_endpoint, max_claim_batch_size,
}
use webguard_instance.CoreApi.Http.{new_request, do_json, no_output}

-- A request that cannot be built is not sent.
unfoldable pub send :
    {A : Type 0}
    → (String → Result String A)
    → A
    → String
    → Reply
    → Result Failure Request
    → Sending A
unfolding do_json
send decode empty operation reply (err e) = ([], err e)
send decode empty operation reply (ok request) = do_json decode empty operation request reply

-- What the environment decides for one call: the key file and Core's answer.
pub record Answer : Type 0 where
  pub file : KeyFile
  pub reply : Reply

module _ (lib : Library) (c : Client) where
  unfoldable pub post : String → Payload → KeyFile → Result Failure Request
  unfolding new_request instance_api_endpoint
  post suffix p file = new_request lib c file "POST" (instance_api_endpoint c suffix) none p

  job_endpoint : String → String → String
  job_endpoint job_id action = "/monitoring-jobs/" +s lib.path_escape job_id +s action

  unfoldable pub with_key : String → Result Failure Request → Result Failure Request
  with_key key (err e) = err e
  with_key key (ok request) = ok (record request { idempotency_key = key })

  unfoldable pub complete_monitoring_job :
      Answer → String → String → CompleteMonitoringJobRequest → Sending (Unit {0})
  unfolding send post job_endpoint with_key
  complete_monitoring_job a job_id key p =
      if str_eq (trim_space job_id) ""
      then ([], err (message "job ID is empty"))
      else if str_eq (trim_space key) ""
      then ([], err (message "job idempotency key is empty"))
      else send no_output tt "complete_monitoring_job" a.reply
          (with_key key (post (job_endpoint job_id "/complete") (complete_body p) a.file))

  unfoldable pub release_monitoring_job :
      Answer → String → ReleaseMonitoringJobRequest → Sending (Unit {0})
  unfolding send post job_endpoint
  release_monitoring_job a job_id p =
      if str_eq (trim_space job_id) ""
      then ([], err (message "job ID is empty"))
      else send no_output tt "release_monitoring_job" a.reply
          (post (job_endpoint job_id "/release") (release_body p) a.file)

  -- ExtendMonitoringJobResponse holds the new expiry alone; `pos 0` is the zero time.
  unfoldable pub extend_monitoring_job :
      (String → Result String ℤ) → Answer → String → ExtendMonitoringJobRequest → Sending ℤ
  unfolding send post job_endpoint
  extend_monitoring_job decode a job_id p =
      if str_eq (trim_space job_id) ""
      then ([], err (message "job ID is empty"))
      else send decode (pos 0) "extend_monitoring_job" a.reply
          (post (job_endpoint job_id "/extend") (extend_body p) a.file)

  within_batch : ClaimMonitoringJobsRequest → Sending (List ClaimedJob) → Sending (List ClaimedJob)
  within_batch p (es, err e) = (es, err e)
  within_batch p (es, ok jobs) =
      if ltb_ℤ p.max_batch_size (pos (length jobs))
      then (es, err (message "Core API returned more jobs than the requested batch limit"))
      else (es, ok jobs)

  unfoldable pub claim_monitoring_jobs :
      (String → Result String (List ClaimedJob))
      → Answer
      → ClaimMonitoringJobsRequest
      → Sending (List ClaimedJob)
  unfolding send post within_batch
  claim_monitoring_jobs decode a p =
      if str_eq (trim_space p.location) ""
      then ([], err (message "claim location is empty"))
      else if str_eq (trim_space p.instance_id) ""
      then ([], err (message "WEBGUARD_INSTANCE_ID is empty"))
      else if ltb_ℤ p.capacity (pos 1)
      then ([], err (message "claim capacity must be positive"))
      else if ltb_ℤ p.max_batch_size (pos 1)
      then ([], err (message "claim max batch size must be positive"))
      else if ltb_ℤ (pos max_claim_batch_size) p.max_batch_size
      then ([], err (message "claim max batch size exceeds 256"))
      else within_batch p (
          send decode [] "claim_monitoring_jobs" a.reply
            (post "/monitoring-jobs/claim" (claim_body p) a.file))
