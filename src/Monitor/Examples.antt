-- ===== src/Monitor/Examples.antt =====
-- The theorems on decoding at concrete inputs, and tests.
use webguard_instance.Base.{ℤ, pos, negsuc, false, none, some, [], ◌≡◌, ◌↔◌, refl, trim_space}
use webguard_instance.Base.Result.{ok}
use webguard_instance.Monitor.Types.{
  Float64, Monitoring, nil_value, int64_value, string_value, bool_value, type_http,
}
use webguard_instance.Monitor.Numbers.{parse_int, format_int}
use webguard_instance.Monitor.Flexible.{
  parse_string_flexible, parse_int_flexible, parse_time_flexible, parse_optional_int_flexible,
  parse_bool_flexible,
}
use webguard_instance.Monitor.Decode.{RawMonitoring, Decoder, from_raw, unmarshal_json}
use webguard_instance.Monitor.Decode.Laws.{Reads, unmarshal_json-Reads}

trim_space_test : trim_space "  a b \t" ≡ "a b"
unfolding trim_space
trim_space_test = refl

parse_int_test : parse_int "-42" ≡ some (negsuc 41)
unfolding parse_int
parse_int_test = refl

parse_int_range_test : parse_int "9223372036854775808" ≡ none
unfolding parse_int
parse_int_range_test = refl

format_int_test : format_int (negsuc 1233) ≡ "-1234"
unfolding format_int
format_int_test = refl

abbrev out_of_range : Float64 → ℤ
out_of_range f = negsuc 9223372036854775807

abbrev raw_monitoring : RawMonitoring
raw_monitoring = record {
  id = int64_value (pos 7);
  type = type_http;
  preferred_location = " de-1 ";
  preferred_locations = [];
  target = "https://example.org";
  timeout = string_value "30";
  check_interval_seconds = nil_value;
  last_response_at = nil_value;
  http_method = "get";
  http_body = nil_value;
  http_headers = nil_value;
  auth_username = "";
  auth_password = "";
  keyword = "";
  port = nil_value;
  dns_record_type = "";
  dns_expected_values = [];
  heartbeat_interval_minutes = nil_value;
  heartbeat_grace_minutes = nil_value;
  heartbeat_last_ping_at = nil_value;
  maintenance_active = bool_value false;
}

abbrev sample_decoder : Decoder
sample_decoder = record {
  unmarshal = λ text. some raw_monitoring;
  out_of_range = out_of_range;
  rfc3339 = λ text. none;
}

abbrev decoded : Monitoring
decoded = record {
  id = "7";
  type = type_http;
  preferred_location = "de-1";
  preferred_locations = [];
  target = "https://example.org";
  timeout = pos 30;
  check_interval_seconds = pos 0;
  last_response_at = none;
  http_method = "get";
  http_body = nil_value;
  http_headers = nil_value;
  auth_username = "";
  auth_password = "";
  keyword = "";
  port = pos 0;
  dns_record_type = "";
  dns_expected_values = [];
  heartbeat_interval_minutes = none;
  heartbeat_grace_minutes = none;
  heartbeat_last_ping_at = none;
  maintenance_active = false;
}

unmarshal_json_test : unmarshal_json sample_decoder "{}" ≡ ok decoded
unfolding unmarshal_json from_raw parse_string_flexible parse_int_flexible trim_space parse_int
    parse_time_flexible parse_optional_int_flexible parse_bool_flexible format_int
unmarshal_json_test = refl

unmarshal_json-Reads_example : (unmarshal_json sample_decoder "{}" ≡ ok decoded) ↔ (
    (raw : RawMonitoring) × (sample_decoder.unmarshal "{}" ≡ some raw)
    × Reads sample_decoder raw decoded)
unmarshal_json-Reads_example = unmarshal_json-Reads sample_decoder "{}" decoded
