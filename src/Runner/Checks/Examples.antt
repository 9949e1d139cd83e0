-- ===== src/Runner/Checks/Examples.antt =====
-- The theorem on certificates at a concrete input, and tests.
use webguard_instance.Base.{
  pos, String, false, true, none, some, List, [], ◌∷◌, All, str_eq, if◌then◌else◌, ◌≡◌, refl, ◌+s◌,
  subst, arith, trim_space,
}
use webguard_instance.Base.Result.{ok, err, ok_inj}
use webguard_instance.Target.Address.{v4, is_unsafe_address}
use webguard_instance.Target.Address.Ranges.{InBits}
use webguard_instance.Target.{Ip, Url, ssl_address_and_server_name, safe_dial_context}
use webguard_instance.Runner.Samples.{sample_monitoring}
use webguard_instance.Runner.Http.Rounds.{refused}
use webguard_instance.Runner.Checks.{World, Certificate}
use webguard_instance.Runner.Checks.Crawls.{crawl_monitoring_ssl, crawl_domain_expiration}
use webguard_instance.Runner.Checks.Reach.{Reached, Certified, crawl_monitoring_ssl-Certified}

abbrev quad9 : Ip
quad9 = record { address = v4 0x09090909; text = "9.9.9.9" }

abbrev site : Url
site = record {
  scheme = "https";
  user = false;
  host = "example.org";
  path = "";
  raw_query = "";
  fragment = "";
}

abbrev certificate : Certificate
certificate = record {
  not_before = pos 10;
  not_after = pos 90;
  has_name = λ name. str_eq name "example.org";
  common_name = "CA";
  issuer = "CN=CA";
}

abbrev sample_world : World
sample_world = record {
  parsers = record {
    parse_url = λ text. ok site;
    hostname = λ u. u.host;
    url_text = λ u. u.host;
    split_host_port =
        λ text. if str_eq text "example.org:443" then ok ("example.org", "443") else err "port";
    join_host_port = λ name port. name +s ":" +s port;
    parse_addr = λ text. none;
  };
  formats = record {
    is_ip = λ text. false;
    port = λ u. "";
    show_value = λ v. "";
    unmarshal_object = λ text. none;
    unmarshal_marshal = λ text. none;
    marshal = λ v. none;
  };
  texts = record { parse_ip = λ s. none; unquote = λ s. none };
  parse_ip = λ text. none;
  policy = record { allow_private = false };
  start = pos 49;
  now = pos 50;
  elapsed = record { negative = false; mantissa = 1; exponent = pos 0 };
  answer = ok (quad9 ∷ []);
  dial_answer = ok (quad9 ∷ []);
  network = λ r i. record { reply = refused "down"; done_in_pause = none };
  resolve = λ target type timeout. err "none";
  connects = λ text. str_eq text "9.9.9.9:443";
  ping = λ args. (none, false);
  handshake = λ name. some (certificate ∷ []);
  domain_lookup = λ name. err true;
}

parse_bits :
    (text : String) (ip : Ip) → sample_world.parsers.parse_addr text ≡ some ip → InBits ip.address
parse_bits text ip h = grind arith

answer_bits :
    (ips : List Ip) → sample_world.dial_answer ≡ ok ips → All (λ ip. InBits ip.address) ips
answer_bits ips h = subst (All (λ ip. InBits ip.address)) (ok_inj h) (ground arith, tt)

crawl_monitoring_ssl-Certified_example :
    (address : String) × (name : String) × (ssl_address_and_server_name sample_world.parsers
        sample_monitoring.target
      ≡ ok (address, name))
    × Reached sample_world
    × Certified sample_world name (crawl_monitoring_ssl sample_world sample_monitoring)
unfolding crawl_monitoring_ssl safe_dial_context is_unsafe_address trim_space
crawl_monitoring_ssl-Certified_example =
    crawl_monitoring_ssl-Certified sample_world refl parse_bits answer_bits sample_monitoring refl

temporary_test : crawl_domain_expiration sample_world sample_monitoring ≡ ("unknown", none)
unfolding crawl_domain_expiration
temporary_test = refl
