-- ===== src/Command/Main.antt =====
-- main of cmd/webguard-instance/main.go: the parts that it builds, and its exit code.
pub mod Identified
pub mod Examples
use webguard_instance.Base.{ℤ, String, Option, List}
use webguard_instance.Config.{Config, from_env}
use webguard_instance.Application.Telemetry.{new_telemetry}
use webguard_instance.Application.Controller.{ExecutionController, new_execution_controller}
use webguard_instance.CoreApi.{Client, new_client_with_instance_api_path, set_api_key_file}
use webguard_instance.Runner.Registry.{Checks, new_executor_registry}
use webguard_instance.Runner.Service.{MonitoringService, new_with_telemetry}
use webguard_instance.Command.{Exit, run}

unfoldable pub core_client : Config → Client
unfolding new_client_with_instance_api_path set_api_key_file
core_client cfg =
    set_api_key_file
      (new_client_with_instance_api_path cfg.core_api_url cfg.core_api_key cfg.location
        cfg.instance_api_base_path)
      cfg.core_api_key_file

pub record Program : Type 0 where
  pub cfg : Config
  pub client : Client
  pub controller : ExecutionController
  pub service : MonitoringService

unfoldable pub new_program : (String → String) → Checks → Program
unfolding core_client new_execution_controller new_telemetry new_with_telemetry
    new_executor_registry
new_program getenv checks =
    let cfg = from_env getenv in
    record {
      cfg = cfg;
      client = core_client cfg;
      controller = new_execution_controller cfg.run_max_concurrency new_telemetry;
      service = new_with_telemetry cfg (new_executor_registry checks);
    }

-- `served` is the exit code of runServe, `err` the error of the controller's RunMonitoring.
unfoldable pub main : List String → ℤ → Option String → ℤ
unfolding run
main args served err = (run args served err).code
