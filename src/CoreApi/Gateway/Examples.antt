-- ===== src/CoreApi/Gateway/Examples.antt =====
-- Runs over the client of Core at concrete inputs.
use webguard_instance.Base.{
  String, pos, none, List, [], ◌∷◌, refl, IsDistinct, str_eq, if◌then◌else◌, true,
}
use webguard_instance.Base.Result.{ok}
use webguard_instance.Config.{from_env}
use webguard_instance.Monitor.Types.{ClaimedJob}
use webguard_instance.Runner.Samples.{sample_job, sample_monitoring, sample_checks}
use webguard_instance.Runner.Registry.{new_executor_registry}
use webguard_instance.Runner.Service.{MonitoringService, new_with_telemetry, run_phases}
use webguard_instance.Runner.Gateway.{Gateway, Times, run_leased, round_of}
use webguard_instance.Runner.Gateway.Leased.{leased}
use webguard_instance.Runner.Gateway.Listed.{queued_ids}
use webguard_instance.CoreApi.Samples.{sample_library, sample_client, sample_answer}
use webguard_instance.CoreApi.Gateway.{core_gateway}
use webguard_instance.CoreApi.Gateway.Runs.{run_phases_once}

abbrev sample_gateway : Gateway
sample_gateway =
    core_gateway sample_library sample_client (λ failure. "failed")
      (λ raw. ok (sample_monitoring ∷ [])) (λ raw. ok (sample_job ∷ [])) (λ type. sample_answer)
      sample_answer

abbrev sample_environment : String → String
sample_environment name =
    if str_eq name "WEBGUARD_LOCATION"
    then "eu-1"
    else if str_eq name "WEBGUARD_INSTANCE_ID"
    then "i-1"
    else ""

abbrev leased_jobs : List ClaimedJob
leased_jobs =
    leased (run_leased sample_gateway (new_with_telemetry (from_env sample_environment) [])).given

abbrev sample_service : MonitoringService
sample_service =
    new_with_telemetry (from_env sample_environment) (new_executor_registry sample_checks)

abbrev sample_times : Times
sample_times = record {
  ssl_at = pos 1;
  domain_at = pos 2;
  work = λ m. record {
    looked_at = pos 3;
    started_at = pos 4;
    random = none;
    slot_acquired = true;
    elapsed = pos 5;
  };
}

run_phases_once_example :
    IsDistinct (
      queued_ids
        (run_phases sample_service (round_of sample_gateway sample_service sample_times)).response)
    × IsDistinct (
        queued_ids
          (run_phases sample_service (round_of sample_gateway sample_service sample_times)).ssl)
    × IsDistinct (
        queued_ids
          (run_phases sample_service
            (round_of sample_gateway sample_service sample_times)).domain_expiration)
unfolding new_with_telemetry
run_phases_once_example =
    run_phases_once sample_library sample_client (λ failure. "failed")
      (λ raw. ok (sample_monitoring ∷ [])) (λ raw. ok (sample_job ∷ [])) (λ type. sample_answer)
      sample_answer sample_checks sample_service sample_times refl
