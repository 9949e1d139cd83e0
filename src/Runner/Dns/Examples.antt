-- ===== src/Runner/Dns/Examples.antt =====
-- The theorem on DNS monitorings at a concrete input, and tests.
use webguard_instance.Base.{
  pos, true, false, none, some, [], ◌∷◌, ◌≡◌, ◌↔◌, refl, trim_space, codes, codes_eq, ◌+s◌,
  if◌then◌else◌,
}
use webguard_instance.Base.Chars.{fields, to_lower, trim, trim_one}
use webguard_instance.Base.Result.{ok}
use webguard_instance.Monitor.Numbers.{format_int, parse_digits}
use webguard_instance.Monitor.Types.{Monitoring, status_up, type_dns_record}
use webguard_instance.Runner.Samples.{sample_monitoring}
use webguard_instance.Base.Order.{sort}
use webguard_instance.Runner.Dns.System.{
  Resolution, gives, cname, a, resolve, was_truncated, server_of, record_values, query_over,
}
use webguard_instance.Runner.Dns.{Texts, Lookup, observe, normalize_dns_record_values}
use webguard_instance.Runner.Dns.Match.{IsMatch, observe-IsMatch}

abbrev no_texts : Texts
no_texts = record { parse_ip = λ s. none; unquote = λ s. none }

abbrev name_servers : Monitoring
name_servers = record sample_monitoring {
  type = type_dns_record;
  target = "example.org";
  dns_record_type = "ns";
  dns_expected_values = "B.example." ∷ "a.example" ∷ [];
}

abbrev sample_lookup : Lookup
sample_lookup = record {
  start = pos 0;
  elapsed = record { negative = false; mantissa = 7; exponent = pos 0 };
  resolve = λ target type timeout. ok ("a.example." ∷ "b.example." ∷ "A.example." ∷ []);
}

observe-IsMatch_example :
    ((observe no_texts sample_lookup name_servers).0 ≡ status_up)
    ↔ IsMatch no_texts sample_lookup name_servers
observe-IsMatch_example = observe-IsMatch no_texts sample_lookup name_servers

up_test : (observe no_texts sample_lookup name_servers).0 ≡ status_up
unfolding observe trim_space to_lower trim_one sort
up_test = refl

mx_test :
    normalize_dns_record_values no_texts ("010 Mail.Example." ∷ []) " mx"
    ≡ ok ("10 mail.example" ∷ [])
unfolding normalize_dns_record_values trim_space to_lower trim_one sort fields parse_digits
    format_int
mx_test = refl

txt_test :
    normalize_dns_record_values no_texts ("\"v=spf1 -all\" " ∷ []) "TXT" ≡ ok ("v=spf1 -all" ∷ [])
unfolding normalize_dns_record_values trim_space trim sort
txt_test = refl

-- A resolver whose answer over UDP is cut off.
abbrev cut_off : Resolution
cut_off = record {
  string_to_type = λ name. if codes_eq name (codes "A") then some 1 else none;
  fqdn = λ name. name +s ".";
  join_host_port = λ host port. host +s ":" +s port;
  rcode_to_string = λ code. "SERVFAIL";
  config = some (record { servers = "192.0.2.53" ∷ []; port = "53" });
  udp = gives (record { truncated = true; rcode = 0; answer = [] });
  tcp = gives (record {
    truncated = false;
    rcode = 0;
    answer =
        record { rrtype = 5; rdata = cname "edge.example.com." }
        ∷ record { rrtype = 1; rdata = a "192.0.2.7" }
        ∷ [];
  });
}

-- The question is put again over TCP, and the record of another type is left out.
resolved_over_tcp : resolve cut_off "example.com" " a " (pos 5) ≡ record {
  result = ok ("192.0.2.7" ∷ []);
  queries =
      query_over cut_off "192.0.2.53:53" "example.com" 1 (pos 5) "udp"
      ∷ query_over cut_off "192.0.2.53:53" "example.com" 1 (pos 5) "tcp"
      ∷ [];
}
unfolding resolve was_truncated server_of record_values query_over trim_space
resolved_over_tcp = refl
