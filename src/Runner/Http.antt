-- ===== src/Runner/Http.antt =====
-- The request of performHTTPRequest in internal/adapters/runner/runner.go: its method, headers and body.
-- encoding/json, fmt and net are a parameter (`Formats`).
pub mod Variants
pub mod Rounds
pub mod Perform
pub mod Judged
pub mod Attempts
pub mod Examples
use webguard_instance.Base.{
  ℕ, zero, suc, ◌+◌, leb, ltb, ℤ, pos, ltb_ℤ, String, Bool, true, false, not, ◌&&◌, ◌||◌, Option,
  none, some, List, [], ◌∷◌, ◌++◌, codes, lower, upper, contains, length, str_eq, trim_space, ◌==◌,
  if◌then◌else◌, ◌+s◌,
}
use Prim.Native.String
use webguard_instance.Base.Chars.{byte_length, has_part, has_prefix, to_lower, trim_one}
use webguard_instance.Base.Result.{Result, ok, err, ◌>>=◌}
use webguard_instance.Monitor.Types.{
  Monitoring, AnyValue, AnyFields, nil_value, string_value, object_value, no_fields, field,
}
use webguard_instance.Target.{Url, Ip, Parsers, EgressPolicy, http_url, validate_host}

pub record Formats : Type 0 where
  pub is_ip : String → Bool
  pub port : Url → String
  pub show_value : AnyValue → String
  pub unmarshal_object : String → Option AnyFields
  pub unmarshal_marshal : String → Option String
  pub marshal : AnyValue → Option String

abbrev pub Headers : Type 0
Headers = List (String × String)

header_fields : Formats → AnyFields → Headers
header_fields f no_fields = []
header_fields f (field key value fields) = (key, f.show_value value) ∷ header_fields f fields

parsed_headers : Formats → Option AnyFields → Headers
unfolding header_fields
parsed_headers f none = []
parsed_headers f (some fields) = header_fields f fields

-- A map from the decoder has no key twice. A map[string]string is not a value that Core's JSON gives.
unfoldable pub normalize_headers : Formats → AnyValue → Headers
unfolding parsed_headers header_fields trim_space
normalize_headers f (string_value text) =
    if str_eq (trim_space text) "" then [] else parsed_headers f (f.unmarshal_object text)
normalize_headers f (object_value fields) = header_fields f fields
normalize_headers f value = []

or_brackets : Option String → String
or_brackets none = "[]"
or_brackets (some text) = text

unfoldable pub normalize_body : Formats → AnyValue → String
unfolding or_brackets trim_space
normalize_body f nil_value = "[]"
normalize_body f (string_value text) =
    if str_eq (trim_space text) ""
    then "[]"
    else or_brackets (f.unmarshal_marshal (trim_space text))
normalize_body f value = or_brackets (f.marshal value)

unfoldable pub header_bytes : Headers → ℕ
header_bytes [] = 0
header_bytes ((name, value) ∷ headers) =
    byte_length (codes name) + byte_length (codes value) + header_bytes headers

-- headers[name], the empty text where it is missing
header : Headers → String → String
header [] name = ""
header ((key, value) ∷ headers) name =
    let rest = header headers name in if str_eq key name then value else rest

with_content_type : Headers → String → Headers
unfolding header
with_content_type headers body =
    if not (str_eq body "")
      && str_eq (header headers "Content-Type") ""
      && str_eq (header headers "content-type") ""
    then ("Content-Type", "application/json") ∷ headers
    else headers

pub record HttpRequest : Type 0 where
  pub method : String
  pub url : Url
  pub headers : Headers
  pub body : String
  pub auth : Option (String × String)

unfoldable pub http_method : String → String
unfolding to_lower trim_space
http_method given =
    let method = to_lower (trim_space given) in
    if str_eq method "" || not (contains ("get" ∷ "post" ∷ "put" ∷ "patch" ∷ "delete" ∷ []) method)
    then "get"
    else method

-- The name of the method in capitals; there are five.
method_name : String → String
method_name method =
    if str_eq method "post"
    then "POST"
    else if str_eq method "put"
    then "PUT"
    else if str_eq method "patch"
    then "PATCH"
    else if str_eq method "delete"
    then "DELETE"
    else "GET"

basic_auth : Monitoring → Option (String × String)
basic_auth m =
    if not (str_eq m.auth_username "") && not (str_eq m.auth_password "")
    then some (m.auth_username, m.auth_password)
    else none

sent_body : String → String → String
sent_body method body = if str_eq method "get" || str_eq method "delete" then "" else body

unfoldable pub http_request : Monitoring → String → Headers → String → Url → HttpRequest
unfolding method_name basic_auth with_content_type sent_body
http_request m method headers body u = record {
  method = method_name method;
  url = u;
  headers = with_content_type headers (sent_body method body);
  body = sent_body method body;
  auth = basic_auth m;
}

abbrev pub fixed_http_max_request_body_bytes : ℕ
fixed_http_max_request_body_bytes = 1048576

abbrev pub fixed_http_max_request_headers : ℕ
fixed_http_max_request_headers = 64

abbrev pub fixed_http_max_request_header_bytes : ℕ
fixed_http_max_request_header_bytes = 32768

unfoldable pub too_long : String → Bool
too_long body = ltb fixed_http_max_request_body_bytes (byte_length (codes body))

unfoldable pub too_many : Headers → Bool
unfolding header_bytes
too_many headers =
    ltb fixed_http_max_request_headers (length headers)
    || ltb fixed_http_max_request_header_bytes (header_bytes headers)
