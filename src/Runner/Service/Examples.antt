-- ===== src/Runner/Service/Examples.antt =====
-- A run at a concrete input: Core refuses the certificates.
use mathlib.Core.List.Permᴰ
use webguard_instance.Base.{String, pos, false, some, List, [], ◌≡◌, refl}
use webguard_instance.Base.Dict.{get}
use webguard_instance.Config.{Config, from_env}
use webguard_instance.Application.Coordinator.{PhaseResult, sent, join}
use webguard_instance.Runner.Samples.{sample_env}
use webguard_instance.Runner.Service.{
  MonitoringService, answers, refuses, Round, new_with_telemetry, run_phases, monitoring_phases,
  run_monitoring,
}
use webguard_instance.Runner.Service.Refusals.{refusals, last_run, run_monitoring_lem}

abbrev sample_config : Config
sample_config = record (from_env (λ name. "")) { job_leases_enabled = false }

abbrev sample_service : MonitoringService
sample_service = new_with_telemetry sample_config sample_env.executors

abbrev refused_certificates : Round
refused_certificates = record {
  ssl_at = pos 1;
  domain_at = pos 2;
  response_reply = answers [];
  ssl_reply = refuses "status 503";
  domain_reply = answers [];
  claimed = answers [];
}

abbrev in_order : List PhaseResult
in_order =
    sent 0 (monitoring_phases refused_certificates (run_phases sample_service refused_certificates))

run_monitoring_lem_example :
    ((run_monitoring sample_service refused_certificates in_order).err
      ≡ some (join (refusals sample_service refused_certificates)))
    × ((phase : String)
        → get
            (run_monitoring sample_service refused_certificates in_order).service.phase_last_runs
            phase
          ≡ last_run sample_service refused_certificates phase)
unfolding new_with_telemetry
run_monitoring_lem_example =
    run_monitoring_lem sample_service refused_certificates in_order refl (Permᴰ.refl in_order)
