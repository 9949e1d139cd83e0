-- ===== src/CoreApi.antt =====
-- internal/adapters/coreapi/client.go: the client of Core's instance API. net/url, encoding/json and the
-- checks of http.NewRequest are a parameter (`Library`); what Core answers, what the key file holds when it
-- is read, and whether the context is done are arguments of each call. A call gives its result and the
-- exchanges with Core, in order; each is one request that is sent and counted by the telemetry.
pub mod Http
pub mod Calls
pub mod Callbacks
pub mod Monitorings
pub mod Gateway
pub mod Origin
pub mod Samples
pub mod Examples
use webguard_instance.Base.{
  ℕ, ℤ, pos, ltb_ℤ, String, Bool, true, false, not, ◌&&◌, ◌||◌, Option, none, some, List, [], ◌∷◌,
  ◌++◌, codes, contains, length, leb, ltb, ◌==◌, str_eq, trim_space, if◌then◌else◌, ◌+s◌, zero, suc,
}
use webguard_instance.Base.Chars.{is_slash, byte_length, equal_fold, trim, trim_end}
use webguard_instance.Base.Result.{Result, ok, err}
use webguard_instance.Monitor.Types.{
  Monitoring, ClaimedJob, ClaimMonitoringJobsRequest, CompleteMonitoringJobRequest,
  ReleaseMonitoringJobRequest, ExtendMonitoringJobRequest, MonitoringResponsePayload,
  SslResultPayload, DomainResultPayload,
}
use webguard_instance.Target.{Url}

abbrev pub max_response_body_bytes : ℕ
max_response_body_bytes = 4194304

abbrev pub max_claim_batch_size : ℕ
max_claim_batch_size = 256

abbrev pub max_api_key_file_bytes : ℕ
max_api_key_file_bytes = 8192

abbrev pub default_instance_api_base_path : String
default_instance_api_base_path = "/api/instances"

-- The connection, its timeout and the telemetry are not part of the state here.
pub record Client : Type 0 where
  pub base_url : String
  pub api_key : String
  pub api_key_file : String
  pub instance_code : String
  pub instance_api_path : String

-- The errors by which the retry of callbacks tells them apart; `canceled` is that of the context.
pub data Failure : Type 0 where
  message : String → Failure
  http_status_error : ℕ → String → Failure
  transport_error : String → Failure
  canceled : Failure

pub data Payload : Type 0 where
  no_body : Payload
  claim_body : ClaimMonitoringJobsRequest → Payload
  complete_body : CompleteMonitoringJobRequest → Payload
  release_body : ReleaseMonitoringJobRequest → Payload
  extend_body : ExtendMonitoringJobRequest → Payload
  response_body : MonitoringResponsePayload → Payload
  ssl_body : SslResultPayload → Payload
  domain_body : DomainResultPayload → Payload

-- A header is the empty text where it is not set.
pub record Request : Type 0 where
  pub method : String
  pub url : Url
  pub body : Option String
  pub accept : String
  pub content_type : String
  pub key : String
  pub code : String
  pub idempotency_key : String

pub record Library : Type 0 where
  pub parse_url : String → Result String Url
  pub encode_query : List (String × String) → String
  pub path_escape : String → String
  pub marshal : Payload → Result String String
  pub request_error : String → Url → Option String

-- What comes back for a request: no response, a response whose body cannot be read, or a response with a
-- status and a body, of which one byte more than the limit is read.
pub data Reply : Type 0 where
  refused : String → Reply
  broken : String → Reply
  answered : ℕ → String → Reply

pub record Exchange : Type 0 where
  pub operation : String
  pub request : Request
  pub reply : Reply

abbrev pub Sending : Type 0 → Type 0
Sending A = List Exchange × Result Failure A

-- `none` where the file cannot be opened or read, else the number of bytes read and the text.
abbrev pub KeyFile : Type 0
KeyFile = Option (ℕ × String)

unfoldable pub new_client : String → String → String → Client
unfolding trim_space trim_end
new_client base_url api_key instance_code = record {
  base_url = trim_end is_slash base_url;
  api_key = trim_space api_key;
  api_key_file = "";
  instance_code = trim_space instance_code;
  instance_api_path = default_instance_api_base_path;
}

unfoldable pub normalize_instance_api_path : String → Result Failure String
unfolding trim trim_space
normalize_instance_api_path path =
    let normalized = "/" +s trim is_slash (trim_space path) in
    if str_eq normalized default_instance_api_base_path
    then ok normalized
    else err (message "unsupported WEBGUARD_INSTANCE_API_BASE_PATH")

unfoldable pub with_path : Client → Result Failure String → Client × Result Failure (Unit {0})
with_path c (ok path) = (record c { instance_api_path = path }, ok tt)
with_path c (err e) = (c, err e)

unfoldable pub set_instance_api_path : Client → String → Client × Result Failure (Unit {0})
unfolding normalize_instance_api_path with_path
set_instance_api_path c path = with_path c (normalize_instance_api_path path)

unfoldable pub path_or_empty : Client × Result Failure (Unit {0}) → Client
path_or_empty (c, ok done) = c
path_or_empty (c, err e) = record c { instance_api_path = "" }

unfoldable pub new_client_with_instance_api_path : String → String → String → String → Client
unfolding new_client set_instance_api_path path_or_empty
new_client_with_instance_api_path base_url api_key instance_code path =
    path_or_empty (set_instance_api_path (new_client base_url api_key instance_code) path)

unfoldable pub set_api_key_file : Client → String → Client
unfolding trim_space
set_api_key_file c path = record c { api_key_file = trim_space path }

file_key : KeyFile → Result Failure String
file_key none = err (message "read WEBGUARD_CORE_API_KEY_FILE")
file_key (some (bytes, content)) =
    if ltb max_api_key_file_bytes bytes
    then err (message "WEBGUARD_CORE_API_KEY_FILE exceeds 8192 bytes")
    else if str_eq (trim_space content) ""
    then err (message "WEBGUARD_CORE_API_KEY_FILE is empty")
    else ok (trim_space content)

unfoldable pub configured_api_key : Client → KeyFile → Result Failure String
unfolding file_key
configured_api_key c file = if str_eq c.api_key_file "" then ok c.api_key else file_key file

unfoldable pub instance_api_endpoint : Client → String → String
instance_api_endpoint c suffix = c.instance_api_path +s suffix

-- An error of a library becomes one of the client.
unfoldable pub as_failure : {A : Type 0} → Result String A → Result Failure A
as_failure (ok a) = ok a
as_failure (err e) = err (message e)

-- The checks of newRequest on the parsed endpoint.
unfoldable pub check_endpoint : Url → Result Failure Url
check_endpoint endpoint =
    if not (str_eq endpoint.scheme "http") && not (str_eq endpoint.scheme "https")
    then err (message "WEBGUARD_CORE_API_URL must use HTTP or HTTPS")
    else if str_eq endpoint.host ""
    then err (message "WEBGUARD_CORE_API_URL must include a host")
    else if endpoint.user
    then err (message "WEBGUARD_CORE_API_URL must not contain credentials")
    else if not (str_eq endpoint.raw_query "") || not (str_eq endpoint.fragment "")
    then err (message "WEBGUARD_CORE_API_URL must not contain a query or fragment")
    else ok endpoint
