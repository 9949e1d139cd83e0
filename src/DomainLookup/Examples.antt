-- ===== src/DomainLookup/Examples.antt =====
-- The theorem on lookups at a concrete input, and tests.
use webguard_instance.Base.{pos, none, some, [], ◌∷◌, ◌≡◌, refl, str_eq, if◌then◌else◌, trim_space}
use webguard_instance.Base.Chars.{split, to_lower, trim}
use webguard_instance.DomainLookup.{normalize_target, valid_domain_name, lookup_candidates}
use webguard_instance.DomainLookup.Whois.{Dates, whois_referral, parse_whois}
use webguard_instance.DomainLookup.Rdap.{answered, unregistered}
use webguard_instance.DomainLookup.Lookup.{Servers, lookup, lookup_candidate}
use webguard_instance.DomainLookup.Found.{Reports, lookup-Reports}

abbrev sample_dates : Dates
sample_dates = record {
  parse_time = λ layout value.
      if str_eq value "2030-01-02"
      then some (pos 30)
      else if str_eq value "2029-05-06"
      then some (pos 20)
      else none;
  scan_lines = λ raw.
      "Registrar: Good Names " ∷ "Registry Expiry Date: 2030-01-02 (UTC)." ∷ "paid-till: 2029-05-06"
      ∷ "registrar: other" ∷ [];
}

abbrev sample_servers : Servers
sample_servers = record {
  rdap = λ name.
      if str_eq name "example.org"
      then answered 200 (some (record { events = []; entities = [] }))
      else answered 404 none;
  whois = λ server query. none;
}

lookup-Reports_example :
    Reports
      (lookup_candidate sample_dates sample_servers (pos 9))
      (unregistered (normalize_target " WWW.Example.org.") (pos 9))
      (lookup_candidates (normalize_target " WWW.Example.org."))
      (lookup sample_dates sample_servers (pos 9) " WWW.Example.org.")
unfolding valid_domain_name normalize_target to_lower trim trim_space split
lookup-Reports_example = lookup-Reports sample_dates sample_servers (pos 9) " WWW.Example.org." refl

candidates_test :
    lookup_candidates "a.b.example.org" ≡ "a.b.example.org" ∷ "b.example.org" ∷ "example.org" ∷ []
unfolding lookup_candidates
candidates_test = refl

parse_whois_test : parse_whois sample_dates "raw" ≡ (some (pos 20), some "Good Names")
unfolding parse_whois
parse_whois_test = refl

-- The whole reply of the IANA server is compared with the pattern, so one line of several is not found.
referral_test : whois_referral "refer: whois.pir.org\n" ≡ some "whois.pir.org"
unfolding whois_referral
referral_test = refl

no_referral_test : whois_referral "domain: ORG\nrefer: whois.pir.org\n" ≡ none
unfolding whois_referral
no_referral_test = refl
