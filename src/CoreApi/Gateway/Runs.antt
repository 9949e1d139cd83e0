-- ===== src/CoreApi/Gateway/Runs.antt =====
-- What a run of internal/adapters/runner does when its gateway is the client of internal/adapters/coreapi, as
-- main puts them together.
use webguard_instance.Base.{String, List, ◌≡◌, IsDistinct}
use webguard_instance.Base.Result.{Result}
use webguard_instance.Config.{from_env}
use webguard_instance.Monitor.Types.{Monitoring, ClaimedJob}
use webguard_instance.Runner.Registry.{Executor, Checks, new_executor_registry}
use webguard_instance.Runner.Service.{MonitoringService, new_with_telemetry, run_phases}
use webguard_instance.Runner.Gateway.{Gateway, Times, run_leased, round_of}
use webguard_instance.Runner.Gateway.Leased.{leased}
use webguard_instance.Runner.Gateway.Listed.{queued_ids, run_phases-IsDistinct}
use webguard_instance.CoreApi.{Client, Library, Failure}
use webguard_instance.CoreApi.Calls.{Answer}
use webguard_instance.CoreApi.Gateway.{core_gateway, core_gateway-ListsOnce}

module _ (lib : Library) (c : Client) (error_text : Failure → String)
    (decode_monitorings : String → Result String (List Monitoring))
    (decode_jobs : String → Result String (List ClaimedJob)) (list_answers : String → Answer)
    (claim_answer : Answer) where
  abbrev pub core : Gateway
  core = core_gateway lib c error_text decode_monitorings decode_jobs list_answers claim_answer

  abbrev pub given_jobs : (String → String) → List Executor → List ClaimedJob
  given_jobs getenv executors =
      leased (run_leased core (new_with_telemetry (from_env getenv) executors)).given

  -- Whatever Core answers to its client for each type, none of the phases of a run without job leases queues
  -- a monitoring twice, with the executors of the program.
  pub run_phases_once :
      (checks : Checks) (s : MonitoringService) (t : Times)
      → s.executors ≡ new_executor_registry checks
      → IsDistinct (queued_ids (run_phases s (round_of core s t)).response)
        × IsDistinct (queued_ids (run_phases s (round_of core s t)).ssl)
        × IsDistinct (queued_ids (run_phases s (round_of core s t)).domain_expiration)
  run_phases_once checks s t standard =
      run_phases-IsDistinct core
        (core_gateway-ListsOnce lib c error_text decode_monitorings decode_jobs list_answers
          claim_answer)
        checks s t standard
