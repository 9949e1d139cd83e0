-- ===== src/Runner/Http/Attempts.antt =====
-- What the attempts of performHTTPRequest of internal/adapters/runner/runner.go come to.
use webguard_instance.Base.{
  ℕ, zero, suc, ◌*◌, ◌≤◌, String, Bool, true, false, Option, none, some, List, [], ◌∷◌, length,
  length-append, if◌then◌else◌, ◌≡◌, ◌⊎◌, inl, inr, refl, ap, arith,
}
use webguard_instance.Base.Result.{Result, ok, err}
use webguard_instance.Monitor.Types.{Monitoring}
use webguard_instance.Target.{Url, Ip, Parsers, EgressPolicy}
use webguard_instance.Runner.Http.{
  too_long, too_many, http_method, normalize_headers, normalize_body, http_request, Formats,
  HttpRequest,
}
use webguard_instance.Runner.Http.Rounds.{
  Network, Entry, HttpCheckResult, attempt, after_error, attempts_from, perform_http_check,
  check_variants,
}
use webguard_instance.Runner.Http.Variants.{
  new_texts, variants_at, variants_of, hostnames, paths, http_target_variants,
}
use webguard_instance.Runner.Http.Perform.{requested, after_target, perform_http_request}
use webguard_instance.Runner.Http.Judged.{judge, EndsInTime, Log, IsJudged, follow-IsJudged}

attempt_few :
    (left few : ℕ) (o : Option String) (r : Result String HttpCheckResult) (next : List Entry)
    → length next ≤ few
    → length (attempt left o r next) ≤ suc few
unfolding attempt after_error
attempt_few left few o (ok r) next h = omega arith
attempt_few zero few o (err e) next h = omega arith
attempt_few (suc left) few (some d) (err e) next h = omega arith
attempt_few (suc left) few none (err e) next h = omega (arith, h)

attempts_few :
    (network : Network) (request : HttpRequest) → length (attempts_from network request 1 0) ≤ 2
unfolding attempts_from
attempts_few network request =
    attempt_few 1 1 (network request 0).done_in_pause (perform_http_check (network request 0).reply)
      _ (attempt_few 0 0 none (perform_http_check (network request 1).reply) [] (omega arith))

check_variants-IsJudged :
    (request : Url → HttpRequest) (network : Network) (first : Option HttpCheckResult)
    (last : String) (us : List Url)
    → IsJudged first last (2 * length us) (check_variants request network first last us)
unfolding check_variants
check_variants-IsJudged request network first last [] = (refl, tt, omega arith)
check_variants-IsJudged request network first last (u ∷ us) =
    let (judged, fine, few) =
      follow-IsJudged first last (2 * length us) (attempts_from network (request u) 1 0)
        (λ f l. check_variants request network f l us)
        (λ f l. check_variants-IsJudged request network f l us) in
    (judged, fine, omega (arith, few, attempts_few network (request u)))

new_texts_few :
    (p : Parsers) (seen : List String) (us : List Url) → length (new_texts p seen us) ≤ length us
unfolding new_texts
new_texts_few p seen [] = omega arith
new_texts_few p seen (u ∷ us) =
    ground (arith, new_texts_few p seen us, new_texts_few p (p.url_text u ∷ seen) us)

variants_at_few :
    (p : Parsers) (f : Formats) (u : Url) (path : String) (names : List String)
    → length (variants_at p f u path names) ≡ length names
unfolding variants_at
variants_at_few p f u path [] = refl
variants_at_few p f u path (name ∷ names) = ap suc (variants_at_few p f u path names)

hostnames_few : (p : Parsers) (f : Formats) (u : Url) → length (hostnames p f u) ≤ 2
unfolding hostnames
hostnames_few p f u = ground arith

variants_of_few :
    (p : Parsers) (f : Formats) (u : Url) (names rest : List String)
    → length names ≤ 2
    → length (variants_of p f u names rest) ≤ 2 * length rest
unfolding variants_of
variants_of_few p f u names [] h = omega arith
variants_of_few p f u names (path ∷ rest) h = omega (
  arith,
  length-append (variants_at p f u path names) (variants_of p f u names rest),
  variants_at_few p f u path names,
  variants_of_few p f u names rest h,
  h,
)

paths_few : (u : Url) → length (paths u) ≤ 2
unfolding paths
paths_few u = ground arith

http_target_variants_few :
    (p : Parsers) (f : Formats) (u : Url) → length (http_target_variants p f u) ≤ 4
unfolding http_target_variants
http_target_variants_few p f u = omega (
  arith,
  new_texts_few p [] (variants_of p f u (hostnames p f u) (paths u)),
  variants_of_few p f u (hostnames p f u) (paths u) (hostnames_few p f u),
  paths_few u,
)

-- No attempt was made, which is an error; or the result is that of the attempts.
abbrev pub Outcome : Log → Type 0
Outcome m = ((e : String) × (m.0 ≡ []) × (m.1 ≡ err e)) ⊎ (m.1 ≡ judge none "" m.0)

abbrev IsBounded : Log → Type 0
IsBounded m = Outcome m × EndsInTime m.0 × (length m.0 ≤ 8)

guarded : (b : Bool) (e : String) (m : Log) → IsBounded m → IsBounded (if b then ([], err e) else m)
guarded true e m h = (inl (e, refl, refl), tt, omega arith)
guarded false e m h = h

sent_to_variants :
    (p : Parsers) (f : Formats) (network : Network) (u : Url) (request : Url → HttpRequest)
    → IsBounded (check_variants request network none "" (http_target_variants p f u))
sent_to_variants p f network u request =
    let (judged, fine, few) =
      check_variants-IsJudged request network none "" (http_target_variants p f u) in
    (inr judged, fine, omega (arith, few, http_target_variants_few p f u))

requested-IsBounded :
    (p : Parsers) (f : Formats) (network : Network) (m : Monitoring) (u : Url)
    → IsBounded (requested p f network m u)
unfolding requested
requested-IsBounded p f network m u =
    let method = http_method m.http_method in
    let headers = normalize_headers f m.http_headers in
    let body = normalize_body f m.http_body in
    guarded (too_long body) "monitoring request body exceeds 1048576 bytes" _ (
      guarded (too_many headers) "monitoring request headers exceed configured limits" _
        (sent_to_variants p f network u (http_request m method headers body)))

after_target-IsBounded :
    (p : Parsers) (f : Formats) (network : Network) (m : Monitoring) (target : Result String Url)
    → IsBounded (after_target p f network m target)
unfolding after_target
after_target-IsBounded p f network m (err e) = (inl (e, refl, refl), tt, omega arith)
after_target-IsBounded p f network m (ok u) = requested-IsBounded p f network m u

-- An HTTP check makes at most eight attempts, and none after a success, or after its context has ended in a
-- pause between two attempts for one URL. Either it makes none and fails, or its result is the first response
-- with a status from 200 to 399; without one the error of the context, if that ended in such a pause, also if
-- there was a response before; else the first response of any status, or where there is none the last error.
pub perform_http_request-judge :
    (p : Parsers) (f : Formats) (policy : EgressPolicy) (answer : Result String (List Ip))
    (network : Network) (m : Monitoring)
    → Outcome (perform_http_request p f policy answer network m)
      × EndsInTime (perform_http_request p f policy answer network m).0
      × (length (perform_http_request p f policy answer network m).0 ≤ 8)
unfolding perform_http_request
perform_http_request-judge p f policy answer network m = after_target-IsBounded p f network m _
