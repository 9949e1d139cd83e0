-- ===== src/CoreApi/Origin.antt =====
-- rejectCrossOriginRedirect of internal/adapters/coreapi/client.go. net/http calls it before it follows
-- a redirect, with the requests that were sent for the call, and follows none that it refuses.
use webguard_instance.Base.{
  leb, subst, codes_eq_refl, codes, lower, String, true, not, ◌||◌, Option, none, some, List, [],
  ◌∷◌, ◌++◌, length, length-append, All, str_eq, eq_iff, if◌then◌else◌, ◌≡◌, ◌≤◌, refl, arith,
}
use webguard_instance.Base.Chars.{equal_fold}
use webguard_instance.Target.{Url}

-- The checks against the first request.
same_origin : Url → Url → Option String
same_origin request origin =
    if not (str_eq request.scheme origin.scheme) || not (equal_fold request.host origin.host)
    then some "Core API redirect changed origin"
    else none

-- `via` holds the requests sent, the oldest first; the result is the error.
unfoldable pub reject_cross_origin_redirect : Url → List Url → Option String
unfolding same_origin
reject_cross_origin_redirect request [] = none
reject_cross_origin_redirect request (origin ∷ via) =
    let checked = same_origin request origin in
    if leb 5 (length (origin ∷ via)) then some "stopped after 5 Core API redirects" else checked

-- The requests that net/http sends for one call, from its first request on.
pub data Chain (first : Url) : List Url → Type 0 where
  sent : Chain first (first ∷ [])
  followed :
      (via : List Url) (next : Url)
      → Chain first via
      → reject_cross_origin_redirect next via ≡ none
      → Chain first (via ++ next ∷ [])

-- As the first request: the scheme, and the host up to the case of its letters.
abbrev pub SameOrigin : Url → Url → Type 0
SameOrigin first u = (u.scheme ≡ first.scheme) × (equal_fold u.host first.host ≡ true)

abbrev pub IsHead : Url → List Url → Type 0
IsHead first [] = ⊥
IsHead first (u ∷ us) = u ≡ first

All-append : (P : Url → Type 0) (xs : List Url) (y : Url) → All P xs → P y → All P (xs ++ y ∷ [])
All-append P [] y h k = (k, tt)
All-append P (x ∷ xs) y (hx, hs) k = (hx, All-append P xs y hs k)

IsHead-append :
    (first : Url) (xs : List Url) (y : Url) → IsHead first xs → IsHead first (xs ++ y ∷ [])
IsHead-append first [] y h = elim h [ ]
IsHead-append first (x ∷ xs) y h = h

followed_fine :
    (first next : Url) (via : List Url)
    → IsHead first via
    → reject_cross_origin_redirect next via ≡ none
    → SameOrigin first next × (length via ≤ 4)
unfolding reject_cross_origin_redirect same_origin
followed_fine first next [] head h = elim head [ ]
followed_fine first next (origin ∷ via) head h =
    subst (λ o. SameOrigin o next × (length (origin ∷ via) ≤ 4)) head
      (ground (arith, eq_iff next.scheme origin.scheme))

chain_invariant :
    (first : Url) (us : List Url)
    → Chain first us
    → IsHead first us × (length us ≤ 5) × All (SameOrigin first) us
chain_invariant first us sent =
    (refl, omega arith, ((refl, ground (arith, codes_eq_refl (lower (codes first.host)))), tt))
chain_invariant first us (followed via next chain h) =
    let (head, short, same) = chain_invariant first via chain in
    let (origin, few) = followed_fine first next via head h in
    (
      IsHead-append first via next head,
      omega (arith, length-append via (next ∷ [])),
      All-append (SameOrigin first) via next same origin,
    )

-- For one call of the client at most five requests are sent, and all of them go to the scheme and the host
-- of the first, which is where the key of the instance belongs.
pub chain-SameOrigin :
    (first : Url) (us : List Url) → Chain first us → (length us ≤ 5) × All (SameOrigin first) us
chain-SameOrigin first us chain =
    let (head, short, same) = chain_invariant first us chain in (short, same)
