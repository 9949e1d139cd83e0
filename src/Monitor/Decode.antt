-- ===== src/Monitor/Decode.antt =====
-- (*Monitoring).UnmarshalJSON of internal/domain/monitor/types.go. The standard library's
-- json.Unmarshal into the raw record is a parameter, beside those of Flexible.
pub mod Laws
use webguard_instance.Base.{
  ℤ, pos, String, Bool, Option, none, some, List, ltb_ℤ, if◌then◌else◌, trim_space,
}
use webguard_instance.Base.Result.{Result, ok, err, ◌>>=◌, ◌>>◌}
use webguard_instance.Monitor.Types.{Float64, Instant, AnyValue, Monitoring}
use webguard_instance.Monitor.Flexible.{
  DecodeError, invalid_json, negative_interval, parse_string_flexible, parse_int_flexible,
  parse_optional_int_flexible, parse_time_flexible, parse_bool_flexible,
}

pub record RawMonitoring : Type 0 where
  pub id : AnyValue
  pub type : String
  pub preferred_location : String
  pub preferred_locations : List String
  pub target : String
  pub timeout : AnyValue
  pub check_interval_seconds : AnyValue
  pub last_response_at : AnyValue
  pub http_method : String
  pub http_body : AnyValue
  pub http_headers : AnyValue
  pub auth_username : String
  pub auth_password : String
  pub keyword : String
  pub port : AnyValue
  pub dns_record_type : String
  pub dns_expected_values : List String
  pub heartbeat_interval_minutes : AnyValue
  pub heartbeat_grace_minutes : AnyValue
  pub heartbeat_last_ping_at : AnyValue
  pub maintenance_active : AnyValue

-- What the decoder relies on and the repository does not implement.
pub record Decoder : Type 0 where
  pub unmarshal : String → Option RawMonitoring
  pub out_of_range : Float64 → ℤ
  pub rfc3339 : String → Option Instant

refuse_negative : ℤ → Result DecodeError (Unit {0})
refuse_negative n = if ltb_ℤ n (pos 0) then err negative_interval else ok tt

unfoldable pub from_raw : Decoder → RawMonitoring → Result DecodeError Monitoring
unfolding refuse_negative
from_raw d raw = do
  id ← parse_string_flexible d.out_of_range raw.id "id"
  timeout ← parse_int_flexible d.out_of_range raw.timeout "timeout"
  interval ← parse_int_flexible d.out_of_range raw.check_interval_seconds "check_interval_seconds"
  refuse_negative interval
  last_response_at ← parse_time_flexible d.rfc3339 raw.last_response_at "last_response_at"
  port ← parse_int_flexible d.out_of_range raw.port "port"
  heartbeat_interval ←
      parse_optional_int_flexible d.out_of_range raw.heartbeat_interval_minutes
        "heartbeat_interval_minutes"
  heartbeat_grace ←
      parse_optional_int_flexible d.out_of_range raw.heartbeat_grace_minutes
        "heartbeat_grace_minutes"
  heartbeat_last_ping ←
      parse_time_flexible d.rfc3339 raw.heartbeat_last_ping_at "heartbeat_last_ping_at"
  maintenance ← parse_bool_flexible raw.maintenance_active "maintenance_active"
  ok (record {
    id = id;
    type = raw.type;
    preferred_location = trim_space raw.preferred_location;
    preferred_locations = raw.preferred_locations;
    target = raw.target;
    timeout = timeout;
    check_interval_seconds = interval;
    last_response_at = last_response_at;
    http_method = raw.http_method;
    http_body = raw.http_body;
    http_headers = raw.http_headers;
    auth_username = raw.auth_username;
    auth_password = raw.auth_password;
    keyword = raw.keyword;
    port = port;
    dns_record_type = raw.dns_record_type;
    dns_expected_values = raw.dns_expected_values;
    heartbeat_interval_minutes = heartbeat_interval;
    heartbeat_grace_minutes = heartbeat_grace;
    heartbeat_last_ping_at = heartbeat_last_ping;
    maintenance_active = maintenance;
  })

-- The receiver keeps its old value on an error: the caller sees the error alone.
unfoldable pub unmarshal_json : Decoder → String → Result DecodeError Monitoring
unmarshal_json d text = elim (d.unmarshal text) [
  | none ↦ err invalid_json
  | some raw ↦ from_raw d raw
]
