-- ===== src/Runner/Http/Examples.antt =====
-- The theorem on HTTP checks at a concrete input, and tests.
use webguard_instance.Base.{
  ◌≤◌, false, true, none, length, str_eq, if◌then◌else◌, ◌≡◌, refl, ◌+s◌, ◌==◌, trim_space,
}
use webguard_instance.Base.Chars.{to_lower, trim, trim_one}
use webguard_instance.Base.Result.{ok, err}
use webguard_instance.Target.{Url, Parsers, EgressPolicy, http_url}
use webguard_instance.Runner.Samples.{sample_monitoring}
use webguard_instance.Runner.Http.{Formats}
use webguard_instance.Runner.Http.Rounds.{Network, refused, answered}
use webguard_instance.Runner.Http.Perform.{perform_http_request}
use webguard_instance.Runner.Http.Variants.{http_target_variants, alternate_www_hostname}
use webguard_instance.Runner.Http.Judged.{EndsInTime}
use webguard_instance.Runner.Http.Attempts.{Outcome, perform_http_request-judge}

abbrev site : Url
site = record {
  scheme = "https";
  user = false;
  host = "example.org";
  path = "";
  raw_query = "";
  fragment = "";
}

abbrev sample_parsers : Parsers
sample_parsers = record {
  parse_url = λ text. ok site;
  hostname = λ u. u.host;
  url_text = λ u. u.scheme +s "://" +s u.host +s u.path;
  split_host_port = λ text. err "port";
  join_host_port = λ name port. name +s ":" +s port;
  parse_addr = λ text. none;
}

abbrev sample_formats : Formats
sample_formats = record {
  is_ip = λ text. false;
  port = λ u. "";
  show_value = λ v. "";
  unmarshal_object = λ text. none;
  unmarshal_marshal = λ text. none;
  marshal = λ v. none;
}

abbrev lenient : EgressPolicy
lenient = record { allow_private = true }

-- The bare name does not answer at first and then says that it has moved on; the other name is fine.
abbrev sample_network : Network
sample_network r i = record {
  reply =
      if str_eq r.url.host "www.example.org"
      then answered 200 "welcome"
      else if i == 0
      then refused "reset"
      else answered 404 "";
  done_in_pause = none;
}

perform_http_request-judge_example :
    Outcome (
      perform_http_request sample_parsers sample_formats lenient
        (err "none")
        sample_network
        sample_monitoring)
    × EndsInTime
        (perform_http_request sample_parsers sample_formats lenient
          (err "none")
          sample_network
          sample_monitoring).0
    × (length
          (perform_http_request sample_parsers sample_formats lenient
            (err "none")
            sample_network
            sample_monitoring).0
        ≤ 8)
perform_http_request-judge_example =
    perform_http_request-judge sample_parsers sample_formats lenient (err "none") sample_network
      sample_monitoring

alternate_test :
    (alternate_www_hostname sample_formats "WWW.example.org" ≡ "example.org")
    × (alternate_www_hostname sample_formats "localhost." ≡ "")
unfolding alternate_www_hostname trim_one
alternate_test = (refl, refl)

variants_test : length (http_target_variants sample_parsers sample_formats site) ≡ 4
unfolding http_target_variants trim_one
variants_test = refl

-- Two attempts at the bare name, one at the other.
attempts_test :
    length
      (perform_http_request sample_parsers sample_formats lenient
        (err "none")
        sample_network
        sample_monitoring).0
    ≡ 3
unfolding perform_http_request http_url trim_space trim trim_one to_lower
attempts_test = refl
