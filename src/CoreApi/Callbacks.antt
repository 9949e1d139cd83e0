-- ===== src/CoreApi/Callbacks.antt =====
-- postCallbackJSON of internal/adapters/coreapi/client.go, and the three calls that use it.
pub mod Retry
use webguard_instance.Base.{
  ℕ, zero, suc, ◌==◌, leb, String, Bool, true, false, not, ◌||◌, [], ◌++◌, str_eq, trim_space,
  if◌then◌else◌,
}
use webguard_instance.Base.Result.{Result, ok, err}
use webguard_instance.Monitor.Types.{
  MonitoringResponsePayload, SslResultPayload, DomainResultPayload,
}
use webguard_instance.CoreApi.{
  Client, Failure, http_status_error, transport_error, canceled, Payload, response_body, ssl_body,
  domain_body, Request, Library, Sending,
}
use webguard_instance.CoreApi.Http.{do_json, no_output}
use webguard_instance.CoreApi.Calls.{Answer, post, with_key}

unfoldable pub is_retryable_callback_error : Failure → Bool
is_retryable_callback_error (http_status_error status body) = leb 500 status
is_retryable_callback_error (transport_error e) = true
is_retryable_callback_error e = false

-- What the environment decides in one round of postCallbackJSON: the key file and Core's answer, whether
-- the context is done when the answer is there, and whether it ends during the pause of 250 ms.
pub record Attempt : Type 0 where
  pub answer : Answer
  pub done_after : Bool
  pub done_in_pause : Bool

-- `left` counts the rounds after this one.
after_attempt : ℕ → Attempt → Sending (Unit {0}) → Sending (Unit {0}) → Sending (Unit {0})
unfolding is_retryable_callback_error
after_attempt left a next (es, ok done) = (es, ok tt)
after_attempt left a next (es, err e) =
    if left == 0 || a.done_after || not (is_retryable_callback_error e)
    then (es, err e)
    else if a.done_in_pause
    then (es, err canceled)
    else (es ++ next.0, next.1)

attempt : String → ℕ → Attempt → Result Failure Request → Sending (Unit {0}) → Sending (Unit {0})
unfolding after_attempt do_json
attempt operation left a (err e) next = ([], err e)
attempt operation left a (ok request) next =
    after_attempt left a next (do_json no_output tt operation request a.answer.reply)

module _ (lib : Library) (c : Client) where
  attempts_from : String → String → String → Payload → (ℕ → Attempt) → ℕ → ℕ → Sending (Unit {0})
  unfolding attempt with_key post
  attempts_from path operation key p env zero i = ([], ok tt)
  attempts_from path operation key p env (suc left) i =
      let next = attempts_from path operation key p env left (suc i) in
      attempt operation left (env i) (with_key lib c key (post lib c path p (env i).answer.file))
        next

  unfoldable pub post_callback_json :
      String → String → String → Payload → (ℕ → Attempt) → Sending (Unit {0})
  unfolding attempts_from
  post_callback_json path operation key p env =
      attempts_from path operation key p env (if str_eq (trim_space key) "" then 1 else 2) 0

  unfoldable pub post_monitoring_response :
      MonitoringResponsePayload → (ℕ → Attempt) → Sending (Unit {0})
  unfolding post_callback_json
  post_monitoring_response p env =
      post_callback_json "/monitoring-responses" "post_monitoring_response" p.idempotency_key
        (response_body p) env

  unfoldable pub post_ssl_result : SslResultPayload → (ℕ → Attempt) → Sending (Unit {0})
  unfolding post_callback_json
  post_ssl_result p env =
      post_callback_json "/ssl-results" "post_ssl_result" p.idempotency_key (ssl_body p) env

  unfoldable pub post_domain_result : DomainResultPayload → (ℕ → Attempt) → Sending (Unit {0})
  unfolding post_callback_json
  post_domain_result p env =
      post_callback_json "/domain-results" "post_domain_result" p.idempotency_key (domain_body p)
        env
