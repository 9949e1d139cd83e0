-- ===== src/Runner/Http/Judged.antt =====
-- What the entries of a log of attempts come to, for performHTTPRequest of internal/adapters/runner/runner.go.
use webguard_instance.Base.{
  ℕ, ◌+◌, ◌≤◌, String, false, Option, none, some, List, [], ◌∷◌, length, if◌then◌else◌, ◌≡◌, ◌⊎◌,
  inl, inr, refl, sym, ap, ◌∙◌, arith, if_elim, if_true, if_false,
}
use webguard_instance.Base.Result.{Result, ok, err}
use webguard_instance.Runner.Http.Rounds.{
  Entry, got, missed, stopped, HttpCheckResult, is_success, first_or, report, follow,
}

-- The first response with a status from 200 to 399.
abbrev pub first_success : List Entry → Option HttpCheckResult
first_success [] = none
first_success (got r ∷ es) = let rest = first_success es in if is_success r then some r else rest
first_success (e ∷ es) = first_success es

-- The error of the context, where it ended in a pause between two attempts.
abbrev pub stop_error : List Entry → Option String
stop_error [] = none
stop_error (stopped e ∷ es) = some e
stop_error (e ∷ es) = stop_error es

-- The first response, unless there was one before.
abbrev pub first_response : Option HttpCheckResult → List Entry → Option HttpCheckResult
first_response first [] = first
first_response first (got r ∷ es) = first_response (some (first_or first r)) es
first_response first (e ∷ es) = first_response first es

abbrev pub last_error : String → List Entry → String
last_error last [] = last
last_error last (missed e ∷ es) = last_error e es
last_error last (e ∷ es) = last_error last es

abbrev judge_rest :
    Option HttpCheckResult → String → List Entry → Option String → Result String HttpCheckResult
judge_rest first last es (some e) = err e
judge_rest first last es none = report (first_response first es) (last_error last es)

abbrev judge_all :
    Option HttpCheckResult
    → String
    → List Entry
    → Option HttpCheckResult
    → Result String HttpCheckResult
judge_all first last es (some r) = ok r
judge_all first last es none = judge_rest first last es (stop_error es)

-- The first success; without one the error of the context, if it ended in a pause; else the first response, or where
-- there is none the last error.
abbrev pub judge : Option HttpCheckResult → String → List Entry → Result String HttpCheckResult
judge first last es = judge_all first last es (first_success es)

-- Nothing follows a success, or the end of the context in a pause.
abbrev pub EndsInTime : List Entry → Type 0
EndsInTime [] = Unit
EndsInTime (got r ∷ es) = ((is_success r ≡ false) ⊎ (es ≡ [])) × EndsInTime es
EndsInTime (stopped e ∷ es) = es ≡ []
EndsInTime (missed e ∷ es) = EndsInTime es

abbrev pub Log : Type 0
Log = List Entry × Result String HttpCheckResult

abbrev pub IsJudged : Option HttpCheckResult → String → ℕ → Log → Type 0
IsJudged first last most m = (m.1 ≡ judge first last m.0) × EndsInTime m.0 × (length m.0 ≤ most)

judge_rest-got :
    (first : Option HttpCheckResult) (last : String) (r : HttpCheckResult) (es : List Entry)
    (o : Option String)
    → judge_rest first last (got r ∷ es) o ≡ judge_rest (some (first_or first r)) last es o
judge_rest-got first last r es (some e) = refl
judge_rest-got first last r es none = refl

judge_rest-missed :
    (first : Option HttpCheckResult) (last e : String) (es : List Entry) (o : Option String)
    → judge_rest first last (missed e ∷ es) o ≡ judge_rest first e es o
judge_rest-missed first last e es (some s) = refl
judge_rest-missed first last e es none = refl

judge_all-missed :
    (first : Option HttpCheckResult) (last e : String) (es : List Entry)
    (o : Option HttpCheckResult)
    → judge_all first last (missed e ∷ es) o ≡ judge_all first e es o
judge_all-missed first last e es (some s) = refl
judge_all-missed first last e es none = judge_rest-missed first last e es (stop_error es)

judge_all-got :
    (first : Option HttpCheckResult) (last : String) (r : HttpCheckResult) (es : List Entry)
    (o : Option HttpCheckResult)
    → judge_all first last (got r ∷ es) o ≡ judge_all (some (first_or first r)) last es o
judge_all-got first last r es (some s) = refl
judge_all-got first last r es none = judge_rest-got first last r es (stop_error es)

judge-missed :
    (first : Option HttpCheckResult) (last e : String) (es : List Entry)
    → judge first last (missed e ∷ es) ≡ judge first e es
judge-missed first last e es = judge_all-missed first last e es (first_success es)

judge-got :
    (first : Option HttpCheckResult) (last : String) (r : HttpCheckResult) (es : List Entry)
    → is_success r ≡ false
    → judge first last (got r ∷ es) ≡ judge (some (first_or first r)) last es
judge-got first last r es h =
    ap (λ o. judge_all first last (got r ∷ es) o) (if_false _ _ _ h)
    ∙ judge_all-got first last r es (first_success es)

pub follow-IsJudged :
    (first : Option HttpCheckResult) (last : String) (most : ℕ) (es : List Entry)
    (next : Option HttpCheckResult → String → Log)
    → ((f : Option HttpCheckResult) (l : String) → IsJudged f l most (next f l))
    → IsJudged first last (length es + most) (follow first last es next)
unfolding follow
follow-IsJudged first last most [] next h =
    let (judged, fine, few) = h first last in (judged, fine, omega (arith, few))
follow-IsJudged first last most (got r ∷ es) next h =
    let (judged, fine, few) = h (some (first_or first r)) last in
    if_elim (IsJudged first last (length (got r ∷ es) + most)) (is_success r) _ _
      (λ e. (
        sym (ap (judge_all first last (got r ∷ [])) (if_true _ _ _ e)),
        (inr refl, tt),
        omega arith,
      ))
      (λ e. (
        judged ∙ sym (judge-got first last r (next (some (first_or first r)) last).0 e),
        (inl e, fine),
        omega (arith, few),
      ))
follow-IsJudged first last most (stopped e ∷ es) next h = (refl, refl, omega arith)
follow-IsJudged first last most (missed e ∷ es) next h =
    let (judged, fine, few) = follow-IsJudged first e most es next h in
    (judged ∙ sym (judge-missed first last e (follow first e es next).0), fine, omega (arith, few))
