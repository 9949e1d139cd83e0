-- ===== src/Monitor/Decode/Laws.antt =====
-- What a decoded monitoring satisfies.
use webguard_instance.Base.{
  pos, String, Option, none, some, ◌≤ℤ◌, trim_space, ◌≡◌, refl, arith, ◌↔◌,
}
use webguard_instance.Base.Result.{ok, err}
use webguard_instance.Monitor.Types.{Monitoring}
use webguard_instance.Monitor.Flexible.{
  invalid_json, parse_string_flexible, parse_int_flexible, parse_optional_int_flexible,
  parse_time_flexible, parse_bool_flexible,
}
use webguard_instance.Monitor.Decode.{Decoder, RawMonitoring, from_raw, unmarshal_json}

-- What each reader gave for the fields of a decoded monitoring.
pub record Reads (d : Decoder) (raw : RawMonitoring) (m : Monitoring) : Type 0 where
  pub id_read : parse_string_flexible d.out_of_range raw.id "id" ≡ ok m.id
  pub timeout_read : parse_int_flexible d.out_of_range raw.timeout "timeout" ≡ ok m.timeout
  pub interval_read :
      parse_int_flexible d.out_of_range raw.check_interval_seconds "check_interval_seconds"
      ≡ ok m.check_interval_seconds
  pub interval_valid : pos 0 ≤ℤ m.check_interval_seconds
  pub last_response_read :
      parse_time_flexible d.rfc3339 raw.last_response_at "last_response_at" ≡ ok m.last_response_at
  pub port_read : parse_int_flexible d.out_of_range raw.port "port" ≡ ok m.port
  pub maintenance_read :
      parse_bool_flexible raw.maintenance_active "maintenance_active" ≡ ok m.maintenance_active
  pub heartbeat_interval_read :
      parse_optional_int_flexible d.out_of_range raw.heartbeat_interval_minutes
        "heartbeat_interval_minutes"
      ≡ ok m.heartbeat_interval_minutes
  pub heartbeat_grace_read :
      parse_optional_int_flexible d.out_of_range raw.heartbeat_grace_minutes
        "heartbeat_grace_minutes"
      ≡ ok m.heartbeat_grace_minutes
  pub heartbeat_ping_read :
      parse_time_flexible d.rfc3339 raw.heartbeat_last_ping_at "heartbeat_last_ping_at"
      ≡ ok m.heartbeat_last_ping_at
  pub preferred_location_trimmed : m.preferred_location ≡ trim_space raw.preferred_location
  pub type_kept : m.type ≡ raw.type
  pub preferred_locations_kept : m.preferred_locations ≡ raw.preferred_locations
  pub target_kept : m.target ≡ raw.target
  pub http_method_kept : m.http_method ≡ raw.http_method
  pub http_body_kept : m.http_body ≡ raw.http_body
  pub http_headers_kept : m.http_headers ≡ raw.http_headers
  pub auth_username_kept : m.auth_username ≡ raw.auth_username
  pub auth_password_kept : m.auth_password ≡ raw.auth_password
  pub keyword_kept : m.keyword ≡ raw.keyword
  pub dns_record_type_kept : m.dns_record_type ≡ raw.dns_record_type
  pub dns_expected_values_kept : m.dns_expected_values ≡ raw.dns_expected_values

from_raw-Reads :
    (d : Decoder) (raw : RawMonitoring) (m : Monitoring) → from_raw d raw ≡ ok m → Reads d raw m
unfolding from_raw
from_raw-Reads d raw m h = ground arith

Reads-from_raw :
    (d : Decoder) (raw : RawMonitoring) (m : Monitoring) → Reads d raw m → from_raw d raw ≡ ok m
unfolding from_raw
Reads-from_raw d raw m h = ground arith

-- Decoding gives the monitoring `m` exactly when json.Unmarshal gives a raw record whose fields the
-- readers accept with the values of `m`, the check interval not being negative.
pub unmarshal_json-Reads :
    (d : Decoder) (text : String) (m : Monitoring)
    → (unmarshal_json d text ≡ ok m)
      ↔ ((raw : RawMonitoring) × (d.unmarshal text ≡ some raw) × Reads d raw m)
unfolding unmarshal_json
unmarshal_json-Reads d text m = split (d.unmarshal text)
  where
    split :
        (o : Option RawMonitoring)
        → ((elim o [ none ↦ err invalid_json | some raw ↦ from_raw d raw ]) ≡ ok m)
          ↔ ((raw : RawMonitoring) × (o ≡ some raw) × Reads d raw m)
    split none = ((λ h. cc), λ h. cc (h.1))
    split (some raw) = (
      (λ h. (raw, refl, from_raw-Reads d raw m h)),
      λ h. ground (arith, Reads-from_raw d h.0 m h.2),
    )
