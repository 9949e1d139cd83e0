-- ===== src/Command/Main/Examples.antt =====
-- What main builds, at a concrete configuration.
use webguard_instance.Base.{
  ℕ, pos, String, true, false, Option, none, some, ◌∷◌, [], ◌≡◌, ◌≢◌, refl, trim_space,
}
use webguard_instance.Base.Result.{ok}
use webguard_instance.Config.{Config, is_ready, is_supported_instance_api_base_path, is_usable_key}
use webguard_instance.CoreApi.{Request, no_body}
use webguard_instance.CoreApi.Http.{new_request}
use webguard_instance.CoreApi.Monitorings.{get_monitorings, all_types}
use webguard_instance.CoreApi.Samples.{sample_library, sample_answer, core_url}
use webguard_instance.Command.Main.{core_client, main}
use webguard_instance.Command.Main.Identified.{core_client_lem}

abbrev ready_config : Config
ready_config = record {
  core_api_key = "";
  core_api_key_file = "/run/secrets/core";
  core_api_url = "https://core.example/";
  instance_api_base_path = "api/instances/";
  location = " eu-1";
  instance_id = "i-1";
  queue_default_workers = pos 10;
  run_max_concurrency = pos 10;
  job_leases_enabled = true;
  job_leases_dual_write = false;
  job_lease_max_batch = pos 10;
  allow_private_targets = false;
  shutdown_drain_timeout = pos 30000000000;
  address = ":8080";
}

abbrev read_secret : String → Option (ℕ × String)
read_secret name = some (7, "secret\n")

abbrev ready_request : Request
ready_request = record {
  method = "GET";
  url = core_url;
  body = none;
  accept = "application/json";
  content_type = "";
  key = "secret";
  code = "eu-1";
  idempotency_key = "";
}

core_client_lem_example :
    (ready_request.key ≢ "")
    × (ready_request.code ≡ trim_space ready_config.location)
    × (ready_request.code ≢ "")
    × ((core_client ready_config).instance_api_path ≡ "/api/instances")
    × (get_monitorings sample_library
          (core_client ready_config)
          (λ raw. ok [])
          (λ type. sample_answer)
          ready_config.location
          ("http" ∷ [])
        ≡ all_types sample_library
            (core_client ready_config)
            (λ raw. ok [])
            (λ type. sample_answer)
            (trim_space ready_config.location)
            ("http" ∷ []))
unfolding is_ready is_supported_instance_api_base_path trim_space core_client new_request
    is_usable_key
core_client_lem_example =
    core_client_lem read_secret ready_config sample_library "GET" "/api/instances/monitorings" none
      no_body ready_request (λ raw. ok []) (λ type. sample_answer) ("http" ∷ []) refl refl

unknown_command_test : main ("check" ∷ []) (pos 0) none ≡ pos 1
unfolding main
unknown_command_test = refl
