-- ===== src/Runner/Dns.antt =====
-- normalizeDNSRecordValues and Observe of internal/adapters/runner/dns_record_checker.go. net.ParseIP and
-- strconv.Unquote are a parameter (`Texts`); the resolver and the time that passes are arguments.
pub mod NormalForm
pub mod Match
pub mod System
pub mod Examples
use webguard_instance.Base.{
  ℕ, ◌^◌, ℤ, pos, ltb_ℤ, ◌*ℤ◌, wrap64, ltb, String, Bool, true, false, ◌||◌, ◌&&◌, Option, none,
  some, List, [], ◌∷◌, codes, codes_eq, upper, contains, str_eq, trim_space, ◌==◌, if◌then◌else◌,
  ◌+s◌,
}
use webguard_instance.Base.Chars.{fields, join, to_lower, trim, trim_one}
use webguard_instance.Base.Result.{Result, ok, err, ◌>>=◌}
use webguard_instance.Base.Time.{seconds}
use webguard_instance.Monitor.Numbers.{parse_digits, format_int}
use webguard_instance.Monitor.Types.{
  Monitoring, RawObservation, Float64, Instant, status_up, status_down, type_dns_record,
}
use webguard_instance.Base.Order.{sort}

-- What net.ParseIP makes of a text: an address with four bytes, also written as IPv6, or another one, each
-- with the text of its String method.
pub data ParsedIp : Type 0 where
  four sixteen : String → ParsedIp

pub record Texts : Type 0 where
  pub parse_ip : String → Option ParsedIp
  pub unquote : String → Option String

-- strconv.ParseUint in base 10 for an integer of some bits
in_bits : ℕ → Option ℕ → Result String ℕ
in_bits bits none = err "invalid syntax"
in_bits bits (some n) = if ltb n (2 ^ bits) then ok n else err "value out of range"

unfoldable pub parse_uint : ℕ → String → Result String ℕ
unfolding in_bits parse_digits
parse_uint bits s =
    if str_eq s "" then err "invalid syntax" else in_bits bits (parse_digits 0 (codes s))

unfoldable pub normalize_dns_hostname : String → String
unfolding to_lower trim_one trim_space
normalize_dns_hostname value = trim_one b'.' (to_lower (trim_space value))

unquoted_or : String → Option String → String
unfolding trim
unquoted_or trimmed (some text) = text
unquoted_or trimmed none = trim (λ c. c == b'"') trimmed

unfoldable pub normalize_dns_txt : Texts → String → String
unfolding unquoted_or trim_space
normalize_dns_txt t value = unquoted_or (trim_space value) (t.unquote (trim_space value))

ipv4_value : Option ParsedIp → Result String String
ipv4_value (some (four text)) = ok text
ipv4_value ip = err "invalid A record value"

ipv6_value : Option ParsedIp → Result String String
unfolding to_lower
ipv6_value (some (sixteen text)) = ok (to_lower text)
ipv6_value ip = err "invalid AAAA record value"

host_value : String → Result String String
unfolding normalize_dns_hostname
host_value value =
    let name = normalize_dns_hostname value in
    if str_eq name "" then err "invalid record value" else ok name

-- A number and a text, with a space between them.
numbered : ℕ → String → String
unfolding format_int
numbered n text = format_int (pos n) +s " " +s text

mx_value : List String → Result String String
unfolding parse_uint host_value numbered
mx_value (priority ∷ name ∷ []) = do
  number ← parse_uint 16 priority
  host ← host_value name
  ok (numbered number host)
mx_value parts = err "invalid MX record value"

soa_numbers : List String → Result String (List String)
unfolding parse_uint format_int
soa_numbers [] = ok []
soa_numbers (field ∷ fields) = do
  number ← parse_uint 32 field
  rest ← soa_numbers fields
  ok (format_int (pos number) ∷ rest)

soa_value : List String → Result String String
unfolding host_value soa_numbers join
soa_value (ns ∷ mbox ∷ serial ∷ refresh ∷ retry ∷ expire ∷ minimum ∷ []) = do
  server ← host_value ns
  mailbox ← host_value mbox
  numbers ← soa_numbers (serial ∷ refresh ∷ retry ∷ expire ∷ minimum ∷ [])
  ok (join " " (server ∷ mailbox ∷ numbers))
soa_value parts = err "invalid SOA record value"

caa_value : Texts → List String → Result String String
unfolding parse_uint to_lower normalize_dns_txt join trim_space numbered
caa_value t (flag ∷ name ∷ first ∷ rest) = do
  flags ← parse_uint 8 flag
  let tag = to_lower (trim_space name)
  let value = normalize_dns_txt t (join " " (first ∷ rest))
  if str_eq tag "" || str_eq value ""
      then err "invalid CAA record value"
      else ok (numbered flags (tag +s " " +s value))
caa_value t parts = err "invalid CAA record value"

is_type : String → String → Bool
is_type record_type name = codes_eq (upper (codes (trim_space record_type))) (codes name)

unfoldable pub normalize_dns_record_value : Texts → String → String → Result String String
unfolding is_type ipv4_value ipv6_value host_value mx_value normalize_dns_txt soa_value caa_value
    fields
normalize_dns_record_value t value record_type =
    if is_type record_type "A"
    then ipv4_value (t.parse_ip (trim_space value))
    else if is_type record_type "AAAA"
    then ipv6_value (t.parse_ip (trim_space value))
    else if is_type record_type "CNAME" || is_type record_type "NS"
    then host_value value
    else if is_type record_type "MX"
    then mx_value (fields value)
    else if is_type record_type "TXT"
    then ok (normalize_dns_txt t value)
    else if is_type record_type "SOA"
    then soa_value (fields value)
    else if is_type record_type "CAA"
    then caa_value t (fields value)
    else err "unsupported DNS record type"

-- The loop over the values: what is new, in order.
unfoldable pub distinct_values :
    Texts → String → List String → List String → Result String (List String)
unfolding normalize_dns_record_value
distinct_values t record_type seen [] = ok []
distinct_values t record_type seen (value ∷ values) = do
  item ← normalize_dns_record_value t value record_type
  if contains seen item
      then distinct_values t record_type seen values
      else do rest ← distinct_values t record_type (item ∷ seen) values; ok (item ∷ rest)

unfoldable pub normalize_dns_record_values :
    Texts → List String → String → Result String (List String)
unfolding distinct_values sort
normalize_dns_record_values t values record_type = do
  normalized ← distinct_values t record_type [] values
  ok (sort normalized)

abbrev pub fixed_dns_timeout_seconds : ℤ
fixed_dns_timeout_seconds = pos 5

-- What the environment decides: the clock at the start, the rounded time since then at the end, and the
-- resolver's answer to a target, a record type and a timeout.
pub record Lookup : Type 0 where
  pub start : Instant
  pub elapsed : Float64
  pub resolve : String → String → ℤ → Result String (List String)

abbrev pub Observed : Type 0
Observed = String × Option Float64 × RawObservation

no_observation : Lookup → Monitoring → RawObservation
unfolding trim_space
no_observation l m = record {
  type = m.type;
  observed_at = l.start;
  http_status_code = none;
  response_time = none;
  transport_error = none;
  connected = none;
  keyword_matched = none;
  dns_record_type = trim_space m.dns_record_type;
  dns_expected_values = m.dns_expected_values;
  dns_observed_values = [];
  dns_matched = none;
  metadata = [];
}

failed : RawObservation → String → Observed
failed o reason = (status_down, none, record o { transport_error = some reason })

same_values : List String → List String → Bool
same_values [] [] = true
same_values (x ∷ xs) (y ∷ ys) = str_eq x y && same_values xs ys
same_values xs ys = false

compared : Lookup → RawObservation → List String → Result String (List String) → Observed
unfolding failed same_values
compared l o expected (err e) = failed o "invalid_observed_values"
compared l o expected (ok actual) =
    let matched = same_values actual expected in
    (
      if matched then status_up else status_down,
      some l.elapsed,
      record o {
        response_time = some l.elapsed;
        dns_observed_values = actual;
        dns_matched = some matched;
      },
    )

resolved :
    Texts → Lookup → RawObservation → String → List String → Result String (List String) → Observed
unfolding compared normalize_dns_record_values failed
resolved t l o record_type expected (err e) = failed o "dns_lookup_failed"
resolved t l o record_type expected (ok raw) =
    compared l o expected (normalize_dns_record_values t raw record_type)

unfoldable pub dns_timeout : Monitoring → ℤ
unfolding seconds
dns_timeout m =
    if ltb_ℤ (pos 0) m.timeout then seconds m.timeout else seconds fixed_dns_timeout_seconds

looked_up : Texts → Lookup → Monitoring → Result String (List String) → Observed
unfolding resolved dns_timeout failed no_observation trim_space
looked_up t l m (err e) = failed (no_observation l m) "invalid_expected_values"
looked_up t l m (ok expected) =
    resolved t l (record (no_observation l m) { dns_expected_values = expected })
      (trim_space m.dns_record_type) expected
      (l.resolve (trim_space m.target) (trim_space m.dns_record_type) (dns_timeout m))

unfoldable pub no_values : List String → Bool
no_values [] = true
no_values (v ∷ vs) = false

abbrev pub is_unconfigured : Monitoring → Bool
is_unconfigured m =
    str_eq (trim_space m.target) ""
    || str_eq (trim_space m.dns_record_type) ""
    || no_values m.dns_expected_values

unfoldable pub observe : Texts → Lookup → Monitoring → Observed
unfolding looked_up no_values failed no_observation normalize_dns_record_values trim_space
observe t l m =
    if is_unconfigured m
    then failed (no_observation l m) "invalid_configuration"
    else looked_up t l m
        (normalize_dns_record_values t m.dns_expected_values (trim_space m.dns_record_type))

-- Check, which leaves the observation out, and Supports.
unfoldable pub check : Texts → Lookup → Monitoring → String × Option Float64
unfolding observe
check t l m = let (status, response_time, observation) = observe t l m in (status, response_time)

unfoldable pub supports : String → Bool
supports type = str_eq type type_dns_record
