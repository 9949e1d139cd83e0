-- ===== src/CoreApi/Samples.antt =====
-- Data that the examples on the client share.
use webguard_instance.Base.{false, none}
use webguard_instance.Base.Result.{ok}
use webguard_instance.Target.{Url}
use webguard_instance.CoreApi.{Client, Library, answered}
use webguard_instance.CoreApi.Calls.{Answer}

abbrev pub core_url : Url
core_url = record {
  scheme = "https";
  user = false;
  host = "core.example";
  path = "/api/instances";
  raw_query = "";
  fragment = "";
}

abbrev pub sample_library : Library
sample_library = record {
  parse_url = λ text. ok core_url;
  encode_query = λ query. "location=eu-1";
  path_escape = λ text. text;
  marshal = λ p. ok "{}";
  request_error = λ method u. none;
}

abbrev pub sample_client : Client
sample_client = record {
  base_url = "https://core.example";
  api_key = "secret";
  api_key_file = "";
  instance_code = "eu-1";
  instance_api_path = "/api/instances";
}

abbrev pub sample_answer : Answer
sample_answer = record { file = none; reply = answered 200 "{}" }
