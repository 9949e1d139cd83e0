-- ===== src/Monitor/Types.antt =====
-- The types of internal/domain/monitor/types.go. Go's named string types are texts, since Core may
-- send any value; `int` is ℤ; an instant is a ℤ of nanoseconds since Go's zero time, so that
-- `IsZero` is a comparison with 0; a pointer to a value is an `Option`.
use webguard_instance.Base.{ℕ, ℤ, pos, String, Bool, Option, List, eqb_ℤ}

abbrev pub type_http : String
type_http = "http"

abbrev pub type_ping : String
type_ping = "ping"

abbrev pub type_keyword : String
type_keyword = "keyword"

abbrev pub type_port : String
type_port = "port"

abbrev pub type_dns_record : String
type_dns_record = "dns_record"

abbrev pub type_heartbeat : String
type_heartbeat = "heartbeat"

abbrev pub type_domain_expiration : String
type_domain_expiration = "domain_expiration"

abbrev pub status_up : String
status_up = "up"

abbrev pub status_down : String
status_down = "down"

abbrev pub status_unknown : String
status_unknown = "unknown"

-- A finite float64: (-1)^negative * mantissa * 2^exponent. JSON has no infinities and no NaN.
pub record Float64 : Type 0 where
  pub negative : Bool
  pub mantissa : ℕ
  pub exponent : ℤ

abbrev pub Instant : Type 0
Instant = ℤ

abbrev pub is_zero : Instant → Bool
is_zero t = eqb_ℤ t (pos 0)

-- A Go value of type `any`, as far as the program tells such values apart.
mutual
  pub data AnyValue : Type 0 where
    nil_value : AnyValue
    bool_value : Bool → AnyValue
    float_value : Float64 → AnyValue
    int64_value : ℤ → AnyValue
    int_value : ℤ → AnyValue
    number_value : String → AnyValue
    string_value : String → AnyValue
    time_value : Instant → AnyValue
    array_value : AnyItems → AnyValue
    object_value : AnyFields → AnyValue

  pub data AnyItems : Type 0 where
    no_items : AnyItems
    item : AnyValue → AnyItems → AnyItems

  pub data AnyFields : Type 0 where
    no_fields : AnyFields
    field : String → AnyValue → AnyFields → AnyFields

pub record Monitoring : Type 0 where
  pub id : String
  pub type : String
  pub preferred_location : String
  pub preferred_locations : List String
  pub target : String
  pub timeout : ℤ
  pub check_interval_seconds : ℤ
  pub last_response_at : Option Instant
  pub http_method : String
  pub http_body : AnyValue
  pub http_headers : AnyValue
  pub auth_username : String
  pub auth_password : String
  pub keyword : String
  pub port : ℤ
  pub dns_record_type : String
  pub dns_expected_values : List String
  pub heartbeat_interval_minutes : Option ℤ
  pub heartbeat_grace_minutes : Option ℤ
  pub heartbeat_last_ping_at : Option Instant
  pub maintenance_active : Bool

pub record RawObservation : Type 0 where
  pub type : String
  pub observed_at : Instant
  pub http_status_code : Option ℤ
  pub response_time : Option Float64
  pub transport_error : Option String
  pub connected : Option Bool
  pub keyword_matched : Option Bool
  pub dns_record_type : String
  pub dns_expected_values : List String
  pub dns_observed_values : List String
  pub dns_matched : Option Bool
  pub metadata : List (String × String)

pub record MonitoringResponsePayload : Type 0 where
  pub monitoring_id : String
  pub idempotency_key : String
  pub status : String
  pub response_time : Option Float64
  pub http_status_code : Option ℤ
  pub check_interval_seconds : Option ℤ
  pub observation : Option RawObservation

pub record SslResultPayload : Type 0 where
  pub monitoring_id : String
  pub idempotency_key : String
  pub is_valid : Bool
  pub expires_at : Option Instant
  pub issuer : Option String
  pub issued_at : Option Instant

pub record DomainResultPayload : Type 0 where
  pub monitoring_id : String
  pub idempotency_key : String
  pub is_valid : Bool
  pub expires_at : Option Instant
  pub registrar : Option String
  pub checked_at : Instant

pub record ClaimedJob : Type 0 where
  pub id : String
  pub phase : String
  pub lease_expires_at : Instant
  pub attempt : ℤ
  pub idempotency_key : String
  pub monitoring : Monitoring

pub record ClaimMonitoringJobsRequest : Type 0 where
  pub location : String
  pub instance_id : String
  pub capabilities : List String
  pub capacity : ℤ
  pub max_batch_size : ℤ

pub record JobResult : Type 0 where
  pub response : Option MonitoringResponsePayload
  pub ssl : Option SslResultPayload
  pub domain : Option DomainResultPayload

pub record CompleteMonitoringJobRequest : Type 0 where
  pub attempt : ℤ
  pub result : JobResult

pub record ReleaseMonitoringJobRequest : Type 0 where
  pub attempt : ℤ
  pub reason : String

pub record ExtendMonitoringJobRequest : Type 0 where
  pub attempt : ℤ
