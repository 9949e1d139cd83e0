-- ===== src/CoreApi/Examples.antt =====
-- The theorems on the client of Core at concrete inputs, and tests.
use webguard_instance.Base.{
  ℕ, pos, String, false, none, List, [], ◌∷◌, ◌≡◌, ◌≤◌, refl, All, length, contains, trim_space,
  if◌then◌else◌, ◌==◌,
}
use webguard_instance.Base.Result.{ok, err}
use webguard_instance.Monitor.Types.{
  Monitoring, ClaimMonitoringJobsRequest, MonitoringResponsePayload,
}
use webguard_instance.Base.{IsDistinct}
use webguard_instance.Runner.Samples.{sample_job, sample_monitoring}
use webguard_instance.CoreApi.{answered, message, response_body, new_client_with_instance_api_path}
use webguard_instance.CoreApi.Samples.{core_url, sample_library, sample_client, sample_answer}
use webguard_instance.CoreApi.Origin.{
  sent, followed, SameOrigin, chain-SameOrigin, reject_cross_origin_redirect,
}
use webguard_instance.CoreApi.Calls.{claim_monitoring_jobs}
use webguard_instance.CoreApi.Callbacks.{Attempt, post_callback_json}
use webguard_instance.CoreApi.Callbacks.Retry.{Delivers, post_callback_json-Delivers}
use webguard_instance.CoreApi.Monitorings.{fetch_monitorings, get_monitorings}
use webguard_instance.CoreApi.Monitorings.Listing.{ids, answered_for, get_monitorings_lem}

new_client_test :
    new_client_with_instance_api_path "https://core.example//" " secret" "eu-1 " "api/instances/"
    ≡ sample_client
unfolding new_client_with_instance_api_path
new_client_test = refl

-- Core is down at first, and takes the callback then.
abbrev sample_attempts : ℕ → Attempt
sample_attempts i = record {
  answer = record { file = none; reply = if i == 0 then answered 503 "busy" else answered 204 "" };
  done_after = false;
  done_in_pause = false;
}

abbrev sample_response : MonitoringResponsePayload
sample_response = record {
  monitoring_id = "m1";
  idempotency_key = "key-1";
  status = "up";
  response_time = none;
  http_status_code = none;
  check_interval_seconds = none;
  observation = none;
}

post_callback_json-Delivers_example :
    Delivers sample_library sample_client "/monitoring-responses" "key-1"
      (response_body sample_response)
      (post_callback_json sample_library sample_client "/monitoring-responses"
        "post_monitoring_response" "key-1"
        (response_body sample_response)
        sample_attempts).0
      (post_callback_json sample_library sample_client "/monitoring-responses"
        "post_monitoring_response" "key-1"
        (response_body sample_response)
        sample_attempts).1
post_callback_json-Delivers_example =
    post_callback_json-Delivers sample_library sample_client "/monitoring-responses"
      "post_monitoring_response" "key-1" (response_body sample_response) sample_attempts

-- Two requests are sent, and the second one succeeds.
retry_test :
    length
      (post_callback_json sample_library sample_client "/monitoring-responses"
        "post_monitoring_response" "key-1"
        (response_body sample_response)
        sample_attempts).0
    ≡ 2
unfolding post_callback_json trim_space
retry_test = refl

chain-SameOrigin_example :
    (length (core_url ∷ core_url ∷ []) ≤ 5) × All (SameOrigin core_url) (core_url ∷ core_url ∷ [])
unfolding reject_cross_origin_redirect
chain-SameOrigin_example =
    chain-SameOrigin core_url (core_url ∷ core_url ∷ [])
      (followed (core_url ∷ []) core_url sent refl)

abbrev sample_claim : ClaimMonitoringJobsRequest
sample_claim = record {
  location = "eu-1";
  instance_id = "i-1";
  capabilities = [];
  capacity = pos 2;
  max_batch_size = pos 1;
}

too_many_test :
    (claim_monitoring_jobs sample_library sample_client
      (λ raw. ok (sample_job ∷ sample_job ∷ []))
      sample_answer
      sample_claim).1
    ≡ err (message "Core API returned more jobs than the requested batch limit")
unfolding claim_monitoring_jobs trim_space
too_many_test = refl

-- Core answers for each type with the same monitoring.
get_monitorings_lem_example :
    (ms : List Monitoring) × ((get_monitorings sample_library sample_client
        (λ raw. ok (sample_monitoring ∷ []))
        (λ t. sample_answer)
        "eu-1 "
        ("http" ∷ "ping" ∷ "http" ∷ [])).1
      ≡ ok ms)
    × IsDistinct (ids ms)
    × ((id : String)
        → contains (ids ms) id
          ≡ answered_for (λ t. sample_monitoring ∷ []) ("http" ∷ "ping" ∷ "http" ∷ []) id)
unfolding fetch_monitorings trim_space
get_monitorings_lem_example =
    get_monitorings_lem sample_library sample_client (λ raw. ok (sample_monitoring ∷ []))
      (λ t. sample_answer) (λ t. sample_monitoring ∷ []) "eu-1 " "http" ("ping" ∷ "http" ∷ []) refl
      refl (λ t. refl)
