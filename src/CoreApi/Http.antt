-- ===== src/CoreApi/Http.antt =====
-- newRequest, doJSON and readLimitedBody of internal/adapters/coreapi/client.go.
pub mod Sound
use webguard_instance.Base.{
  ℕ, ltb, leb, String, Bool, true, false, Option, none, some, List, [], ◌∷◌, codes, str_eq,
  if◌then◌else◌, ◌+s◌,
}
use webguard_instance.Base.Chars.{byte_length}
use webguard_instance.Base.Result.{Result, ok, err, ◌>>=◌}
use webguard_instance.Target.{Url}
use webguard_instance.CoreApi.{
  Client, Failure, message, http_status_error, transport_error, Payload, no_body, Request, Library,
  Reply, refused, broken, answered, Sending, KeyFile, as_failure, check_endpoint,
  configured_api_key, max_response_body_bytes,
}

unfoldable pub with_query : Library → Option (List (String × String)) → Url → Url
with_query lib none u = u
with_query lib (some query) u = record u { raw_query = lib.encode_query query }

abbrev pub has_body : Payload → Bool
has_body no_body = false
has_body p = true

encoded : Library → Payload → Result Failure (Option String)
unfolding as_failure
encoded lib p = do text ← as_failure (lib.marshal p); ok (some text)

unfoldable pub body_of : Library → Payload → Result Failure (Option String)
unfolding encoded
body_of lib p = let text = encoded lib p in if has_body p then text else ok none

accepted_request : Option String → Result Failure (Unit {0})
accepted_request none = ok tt
accepted_request (some e) = err (message e)

-- The request that the client sends, without the header for the idempotency key.
built : Client → String → Url → Payload → Option String → String → Request
built c method u p body key = record {
  method = method;
  url = u;
  body = body;
  accept = "application/json";
  content_type = if has_body p then "application/json" else "";
  key = key;
  code = c.instance_code;
  idempotency_key = "";
}

unfoldable pub new_request :
    Library
    → Client
    → KeyFile
    → String
    → String
    → Option (List (String × String))
    → Payload
    → Result Failure Request
unfolding check_endpoint configured_api_key with_query body_of accepted_request built as_failure
new_request lib c file method path query p =
    if str_eq c.base_url ""
    then err (message "WEBGUARD_CORE_API_URL is empty")
    else if str_eq c.instance_api_path ""
    then err (message "WEBGUARD_INSTANCE_API_BASE_PATH is invalid")
    else do
      parsed ← as_failure (lib.parse_url (c.base_url +s path))
      endpoint ← check_endpoint parsed
      let target = with_query lib query endpoint
      body ← body_of lib p
      accepted ← accepted_request (lib.request_error method target)
      key ← configured_api_key c file
      ok (built c method target p body key)

unfoldable pub read_limited_body : String → Result String String
read_limited_body raw =
    if ltb max_response_body_bytes (byte_length (codes raw))
    then err "response body exceeds 4194304 bytes"
    else ok raw

-- A response from 400 on is an error, any other a success, also one without content.
read_response :
    {A : Type 0} → (String → Result String A) → A → ℕ → Result String String → Result Failure A
unfolding as_failure
read_response decode empty status (err e) = err (transport_error e)
read_response decode empty status (ok raw) =
    if leb 400 status
    then err (http_status_error status raw)
    else if str_eq raw ""
    then ok empty
    else as_failure (decode raw)

unfoldable pub received : {A : Type 0} → (String → Result String A) → A → Reply → Result Failure A
unfolding read_limited_body read_response
received decode empty (refused e) = err (transport_error e)
received decode empty (broken e) = err (transport_error e)
received decode empty (answered status raw) =
    read_response decode empty status (read_limited_body raw)

-- `empty` is the value of `out` before the body is decoded into it. Where `out` is nil the body is not
-- looked at, as with a decoder that accepts every text.
unfoldable pub do_json :
    {A : Type 0} → (String → Result String A) → A → String → Request → Reply → Sending A
unfolding received
do_json decode empty operation request reply = (
  record { operation = operation; request = request; reply = reply } ∷ [],
  received decode empty reply,
)

abbrev pub no_output : String → Result String (Unit {0})
no_output raw = ok tt
