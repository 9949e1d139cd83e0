-- ===== src/Config/Examples.antt =====
-- The theorems on the configuration at concrete inputs, and tests.
use webguard_instance.Base.{
  ℕ, String, true, Option, none, ◌≡◌, ◌↔◌, refl, str_eq, trim_space, if◌then◌else◌,
}
use webguard_instance.Config.{from_env, is_ready, is_supported_instance_api_base_path}
use webguard_instance.Config.Ready.{IsReady, is_ready_lem}

abbrev sample_environment : String → String
sample_environment name = if str_eq name "QUEUE_DEFAULT_WORKERS" then "500" else ""

base_path_test : is_supported_instance_api_base_path " api/instances// " ≡ true
unfolding is_supported_instance_api_base_path trim_space
base_path_test = refl

abbrev no_file : String → Option (ℕ × String)
no_file name = none

is_ready_lem_example :
    (is_ready no_file (from_env sample_environment) ≡ true)
    ↔ IsReady no_file (from_env sample_environment)
is_ready_lem_example = is_ready_lem no_file (from_env sample_environment)
