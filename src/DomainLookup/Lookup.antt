-- ===== src/DomainLookup/Lookup.antt =====
-- lookupWHOIS, lookupCandidate and Lookup of internal/adapters/domainlookup/domainlookup.go. What the servers
-- answer is an argument (`Servers`).
use webguard_instance.Base.{
  String, Bool, true, false, not, ◌||◌, Option, none, some, List, [], ◌∷◌, str_eq, trim_space,
  if◌then◌else◌,
}
use webguard_instance.Base.Result.{Result, ok, err, ◌>>=◌}
use webguard_instance.Monitor.Types.{Instant}
use webguard_instance.DomainLookup.{normalize_target, valid_domain_name, lookup_candidates, tld}
use webguard_instance.DomainLookup.Whois.{Dates, parse_whois, looks_unavailable, whois_referral}
use webguard_instance.DomainLookup.Rdap.{
  LookupError, temporary, other, DomainResult, unregistered, RdapReply, lookup_rdap,
}

-- The reply of the RDAP server to a name, and of a WHOIS server to a query, `none` where that fails.
pub record Servers : Type 0 where
  pub rdap : String → RdapReply
  pub whois : String → String → Option String

referral_or_empty : Option String → String
unfolding trim_space
referral_or_empty none = ""
referral_or_empty (some server) = trim_space server

referral_in : Option String → Result LookupError String
unfolding referral_or_empty whois_referral
referral_in none = err temporary
referral_in (some raw) = ok (referral_or_empty (whois_referral raw))

unfoldable pub lookup_whois_server : Servers → String → Result LookupError String
unfolding referral_in
lookup_whois_server s name =
    if str_eq name "" then ok "" else referral_in (s.whois "whois.iana.org" name)

whois_result : Dates → String → Instant → Option String → Result LookupError DomainResult
unfolding looks_unavailable parse_whois
whois_result d domain checked_at none = err temporary
whois_result d domain checked_at (some raw) =
    let (expires_at, registrar) = parse_whois d raw in
    if looks_unavailable raw
    then ok (unregistered domain checked_at)
    else ok (record {
      domain = domain;
      registered = true;
      expires_at = expires_at;
      registrar = registrar;
      checked_at = checked_at;
    })

unfoldable pub lookup_whois : Dates → Servers → String → Instant → Result LookupError DomainResult
unfolding lookup_whois_server whois_result tld
lookup_whois d s domain checked_at = do
  server ← lookup_whois_server s (tld domain)
  if str_eq server ""
      then ok (unregistered domain checked_at)
      else whois_result d domain checked_at (s.whois server domain)

or_else : Option String → Option String → Option String
or_else none second = second
or_else (some text) second = some text

is_given : Option Instant → Bool
is_given none = false
is_given (some t) = true

is_temporary : LookupError → Bool
is_temporary temporary = true
is_temporary other = false

-- The answers of RDAP and of WHOIS, weighed; WHOIS counts where RDAP shows no expiry or fails.
unfoldable pub choose :
    String
    → Instant
    → Result LookupError DomainResult
    → Result LookupError DomainResult
    → Result LookupError DomainResult
unfolding or_else is_temporary
choose domain checked_at (ok rdap) (ok whois) =
    if whois.registered
    then ok (record whois { registrar = or_else whois.registrar rdap.registrar })
    else if rdap.registered
    then ok rdap
    else ok (record whois { registrar = or_else whois.registrar rdap.registrar })
choose domain checked_at (err e) (ok whois) =
    if whois.registered then ok whois else if is_temporary e then err temporary else ok whois
choose domain checked_at (ok rdap) (err e) =
    if rdap.registered
    then ok rdap
    else if is_temporary e
    then err temporary
    else ok (unregistered domain checked_at)
choose domain checked_at (err e) (err f) =
    if is_temporary e || is_temporary f then err temporary else ok (unregistered domain checked_at)

-- RDAP is enough if it knows no such domain, or shows the expiry.
unfoldable pub suffices : Result LookupError DomainResult → Bool
unfolding is_given
suffices (ok rdap) = not rdap.registered || is_given rdap.expires_at
suffices (err e) = false

unfoldable pub lookup_candidate :
    Dates → Servers → Instant → String → Result LookupError DomainResult
unfolding choose suffices lookup_rdap lookup_whois
lookup_candidate d s checked_at domain =
    let rdap = lookup_rdap d domain checked_at (s.rdap domain) in
    if suffices rdap
    then rdap
    else choose domain checked_at rdap (lookup_whois d s domain checked_at)

-- The loop over the candidates; `failed` tells whether one of them failed for a time.
unfoldable pub next_candidate :
    Result LookupError DomainResult
    → Bool
    → (Bool → Result LookupError DomainResult)
    → Result LookupError DomainResult
unfolding is_temporary
next_candidate (ok r) failed next = let rest = next failed in if r.registered then ok r else rest
next_candidate (err e) failed next = next (failed || is_temporary e)

unfoldable pub search_candidates :
    (String → Result LookupError DomainResult)
    → DomainResult
    → Bool
    → List String
    → Result LookupError DomainResult
unfolding next_candidate
search_candidates ask result failed [] = if failed then err temporary else ok result
search_candidates ask result failed (c ∷ cs) =
    next_candidate (ask c) failed (λ f. search_candidates ask result f cs)

unfoldable pub lookup : Dates → Servers → Instant → String → Result LookupError DomainResult
unfolding search_candidates lookup_candidate lookup_candidates normalize_target valid_domain_name
lookup d s now target =
    let domain = normalize_target target in
    if not (valid_domain_name domain)
    then ok (unregistered domain now)
    else search_candidates (lookup_candidate d s now) (unregistered domain now) false
        (lookup_candidates domain)
