-- ===== src/DomainLookup/Found.antt =====
-- What the result of Lookup in internal/adapters/domainlookup/domainlookup.go says about its candidates.
use webguard_instance.Base.{
  String, Bool, true, false, not, ◌||◌, List, [], ◌∷◌, All, ◌≡◌, ◌⊎◌, inl, inr, refl, sym, ap,
  subst, arith, if_elim, if_false,
}
use webguard_instance.Base.Result.{Result, ok, err}
use webguard_instance.Monitor.Types.{Instant}
use webguard_instance.DomainLookup.{normalize_target, valid_domain_name, lookup_candidates}
use webguard_instance.DomainLookup.Whois.{Dates}
use webguard_instance.DomainLookup.Rdap.{LookupError, temporary, other, DomainResult, unregistered}
use webguard_instance.DomainLookup.Lookup.{
  Servers, lookup_candidate, next_candidate, search_candidates, lookup,
}

abbrev Answers : Type 0
Answers = String → Result LookupError DomainResult

-- The servers know the name, do not know it, or cannot tell for the time being.
abbrev pub IsKnown : Answers → DomainResult → String → Type 0
IsKnown ask r c = (ask c ≡ ok r) × (r.registered ≡ true)

abbrev pub IsUnknown : Answers → String → Type 0
IsUnknown ask c =
    ((r : DomainResult) × (ask c ≡ ok r) × (r.registered ≡ false)) ⊎ (ask c ≡ err other)

abbrev pub IsOpen : Answers → String → Type 0
IsOpen ask c = IsUnknown ask c ⊎ (ask c ≡ err temporary)

-- For at least one name the servers cannot tell.
abbrev pub FailsForOne : Answers → List String → Type 0
FailsForOne ask [] = ⊥
FailsForOne ask (c ∷ cs) = (ask c ≡ err temporary) ⊎ FailsForOne ask cs

-- The first candidate that the servers know; those before it are not known or not settled.
abbrev pub Finds : Answers → DomainResult → List String → Type 0
Finds ask r [] = ⊥
Finds ask r (c ∷ cs) = IsKnown ask r c ⊎ (IsOpen ask c × Finds ask r cs)

abbrev Explains :
    Answers → DomainResult → Bool → List String → Result LookupError DomainResult → Type 0
Explains ask result failed cs (ok r) =
    Finds ask r cs ⊎ ((r ≡ result) × (failed ≡ false) × All (IsUnknown ask) cs)
Explains ask result failed cs (err e) =
    (e ≡ temporary) × All (IsOpen ask) cs × ((failed ≡ true) ⊎ FailsForOne ask cs)

Explains-open :
    (ask : Answers) (result : DomainResult) (failed : Bool) (c : String) (cs : List String)
    (m : Result LookupError DomainResult)
    → IsUnknown ask c
    → Explains ask result failed cs m
    → Explains ask result failed (c ∷ cs) m
Explains-open ask result failed c cs (ok r) u (inl f) = inl (inr (inl u, f))
Explains-open ask result failed c cs (ok r) u (inr (e, n, h)) = inr (e, n, (u, h))
Explains-open ask result failed c cs (err e) u (t, h, inl before) = (t, (inl u, h), inl before)
Explains-open ask result failed c cs (err e) u (t, h, inr one) = (t, (inl u, h), inr (inr one))

Explains-failed :
    (ask : Answers) (result : DomainResult) (failed : Bool) (c : String) (cs : List String)
    (m : Result LookupError DomainResult)
    → ask c ≡ err temporary
    → Explains ask result true cs m
    → Explains ask result failed (c ∷ cs) m
Explains-failed ask result failed c cs (ok r) u (inl f) = inl (inr (inr u, f))
Explains-failed ask result failed c cs (ok r) u (inr (e, n, h)) = grind (arith, n)
Explains-failed ask result failed c cs (err e) u (t, h, one) = (t, (inr u, h), inr (inl u))

next_candidate-Explains :
    (ask : Answers) (result : DomainResult) (failed : Bool) (c : String) (cs : List String)
    (answer : Result LookupError DomainResult) (next : Bool → Result LookupError DomainResult)
    → ask c ≡ answer
    → ((f : Bool) → Explains ask result f cs (next f))
    → Explains ask result failed (c ∷ cs) (next_candidate answer failed next)
unfolding next_candidate
next_candidate-Explains ask result failed c cs (ok r) next e h =
    if_elim (Explains ask result failed (c ∷ cs)) r.registered _ _ (λ k. inl (inl (e, k)))
      (λ k. Explains-open ask result failed c cs (next failed) (inl (r, e, k)) (h failed))
next_candidate-Explains ask result failed c cs (err temporary) next e h =
    Explains-failed ask result failed c cs _ e (
      subst (λ f. Explains ask result f cs (next (failed || true))) (ground arith)
        (h (failed || true)))
next_candidate-Explains ask result failed c cs (err other) next e h =
    Explains-open ask result failed c cs (next (failed || false)) (inr e) (
      subst (λ f. Explains ask result f cs (next (failed || false))) (ground arith)
        (h (failed || false)))

search_candidates-Explains :
    (ask : Answers) (result : DomainResult) (failed : Bool) (cs : List String)
    → Explains ask result failed cs (search_candidates ask result failed cs)
unfolding search_candidates
search_candidates-Explains ask result true [] = (refl, tt, inl refl)
search_candidates-Explains ask result false [] = inr (refl, refl, tt)
search_candidates-Explains ask result failed (c ∷ cs) =
    next_candidate-Explains ask result failed c cs (ask c) (λ f. search_candidates ask result f cs)
      refl (λ f. search_candidates-Explains ask result f cs)

-- What a result says of the candidates and of the answers of the servers to them.
abbrev pub Reports : Answers → DomainResult → List String → Result LookupError DomainResult → Type 0
Reports ask result cs (ok r) = Finds ask r cs ⊎ ((r ≡ result) × All (IsUnknown ask) cs)
Reports ask result cs (err e) = (e ≡ temporary) × All (IsOpen ask) cs × FailsForOne ask cs

Explains-Reports :
    (ask : Answers) (result : DomainResult) (cs : List String) (m : Result LookupError DomainResult)
    → Explains ask result false cs m
    → Reports ask result cs m
Explains-Reports ask result cs (ok r) (inl f) = inl f
Explains-Reports ask result cs (ok r) (inr (e, n, h)) = inr (e, h)
Explains-Reports ask result cs (err e) (t, h, inr one) = (t, h, one)
Explains-Reports ask result cs (err e) (t, h, inl before) = absurd (ground arith)

-- For a target that is a domain name, the result of Lookup is that of the first candidate that the servers
-- know; or that it is not registered, and then no candidate is known and none failed with a temporary error;
-- or a temporary error, and then no candidate is known and at least one failed with a temporary error.
pub lookup-Reports :
    (d : Dates) (s : Servers) (now : Instant) (target : String)
    → valid_domain_name (normalize_target target) ≡ true
    → Reports
        (lookup_candidate d s now)
        (unregistered (normalize_target target) now)
        (lookup_candidates (normalize_target target))
        (lookup d s now target)
unfolding lookup
lookup-Reports d s now target v =
    let ask = lookup_candidate d s now in
    let result = unregistered (normalize_target target) now in
    let cs = lookup_candidates (normalize_target target) in
    subst (Reports ask result cs)
      (sym (if_false (not (valid_domain_name (normalize_target target))) _ _ (ap not v)))
      (Explains-Reports ask result cs _ (search_candidates-Explains ask result false cs))
