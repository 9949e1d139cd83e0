-- ===== src/Runner/Http/Rounds.antt =====
-- The attempts of performHTTPRequest in internal/adapters/runner/runner.go. What comes back for a request, and
-- whether the context ends during a pause, is an argument.
use webguard_instance.Base.{
  ℕ, zero, suc, leb, ltb, String, Bool, ◌&&◌, Option, none, some, List, [], ◌∷◌, codes,
  if◌then◌else◌,
}
use webguard_instance.Base.Chars.{byte_length}
use webguard_instance.Base.Result.{Result, ok, err}
use webguard_instance.Target.{Url}
use webguard_instance.Runner.Http.{HttpRequest}

pub record HttpCheckResult : Type 0 where
  pub status_code : ℕ
  pub body : String

-- What comes of a request: an error before a response, one while the body is read, or a response, of whose
-- body one byte more than the limit is read.
pub data HttpReply : Type 0 where
  refused broken : String → HttpReply
  answered : ℕ → String → HttpReply

-- What the environment decides for a request and the number of the attempt; `done_in_pause` is the error of
-- the context where it ends in the pause of 250 ms that follows.
pub record Round : Type 0 where
  pub reply : HttpReply
  pub done_in_pause : Option String

abbrev pub Network : Type 0
Network = HttpRequest → ℕ → Round

abbrev pub fixed_http_max_response_bytes : ℕ
fixed_http_max_response_bytes = 2097152

unfoldable pub perform_http_check : HttpReply → Result String HttpCheckResult
perform_http_check (refused e) = err e
perform_http_check (broken e) = err e
perform_http_check (answered status body) =
    if ltb fixed_http_max_response_bytes (byte_length (codes body))
    then err "response body exceeds 2097152 bytes"
    else ok (record { status_code = status; body = body })

-- How an attempt ended: with a response, with an error, or with an error and the end of the context.
pub data Entry : Type 0 where
  got : HttpCheckResult → Entry
  missed : String → Entry
  stopped : String → Entry

-- `left` counts the attempts after this one. The entries stand in the order of the attempts.
unfoldable pub after_error : ℕ → Option String → String → List Entry → List Entry
after_error zero ended e next = missed e ∷ []
after_error (suc left) (some d) e next = stopped d ∷ []
after_error (suc left) none e next = missed e ∷ next

unfoldable pub attempt : ℕ → Option String → Result String HttpCheckResult → List Entry → List Entry
unfolding after_error
attempt left ended (ok r) next = got r ∷ []
attempt left ended (err e) next = after_error left ended e next

unfoldable pub attempts_from : Network → HttpRequest → ℕ → ℕ → List Entry
unfolding attempt perform_http_check
attempts_from network request zero i =
    attempt 0 none (perform_http_check (network request i).reply) []
attempts_from network request (suc left) i =
    let next = attempts_from network request left (suc i) in
    attempt (suc left) (network request i).done_in_pause
      (perform_http_check (network request i).reply) next

abbrev pub fixed_http_retry_times : ℕ
fixed_http_retry_times = 1

abbrev pub is_success : HttpCheckResult → Bool
is_success r = leb 200 r.status_code && ltb r.status_code 400

abbrev pub first_or : Option HttpCheckResult → HttpCheckResult → HttpCheckResult
first_or none r = r
first_or (some first) r = first

-- firstResponse, or else lastErr, which is nil before any attempt
abbrev pub report : Option HttpCheckResult → String → Result String HttpCheckResult
report none last = err last
report (some first) last = ok first

-- The entries of one URL change what is kept, or end the request; then come the URLs that follow.
unfoldable pub follow :
    Option HttpCheckResult
    → String
    → List Entry
    → (Option HttpCheckResult → String → List Entry × Result String HttpCheckResult)
    → List Entry × Result String HttpCheckResult
follow first last [] next = next first last
follow first last (got r ∷ es) next =
    let rest = next (some (first_or first r)) last in
    if is_success r then (got r ∷ [], ok r) else (got r ∷ rest.0, rest.1)
follow first last (stopped e ∷ es) next = (stopped e ∷ [], err e)
follow first last (missed e ∷ es) next =
    let rest = follow first e es next in (missed e ∷ rest.0, rest.1)

unfoldable pub check_variants :
    (Url → HttpRequest)
    → Network
    → Option HttpCheckResult
    → String
    → List Url
    → List Entry × Result String HttpCheckResult
unfolding follow attempts_from
check_variants request network first last [] = ([], report first last)
check_variants request network first last (u ∷ us) =
    follow first last (attempts_from network (request u) fixed_http_retry_times 0)
      (λ f l. check_variants request network f l us)
