-- ===== src/Runner/Service.antt =====
-- RunMonitoring of internal/adapters/runner/runner.go, which hands a run to the claimed jobs or to the
-- coordinator with three phases; monitoringPhase with its Name and Run is a Phase of
-- Application.Coordinator.
pub mod Refusals
pub mod Examples
use mathlib.Core.Option.{get_or}
use webguard_instance.Base.{
  String, Bool, true, false, Option, none, some, List, [], ◌∷◌, if◌then◌else◌,
}
use webguard_instance.Base.Dict
use webguard_instance.Base.Dict.{Dict}
use webguard_instance.Config.{Config}
use webguard_instance.Monitor.Types.{Instant, Monitoring, ClaimedJob}
use webguard_instance.Application.Telemetry.{Op}
use webguard_instance.Application.Coordinator.{Phase, PhaseResult}
use webguard_instance.Application.Coordinator
use webguard_instance.Runner.Registry.{Executor}
use webguard_instance.Runner.Legacy.{
  Work, PhaseRun, not_due, fetch_failed, dispatched, run_response, run_ssl, run_domain_expiration,
}
use webguard_instance.Runner.Lease.Batch

-- The fields that a run reads or writes outside its workers.
pub record MonitoringService : Type 0 where
  pub cfg : Config
  pub executors : List Executor
  pub phase_last_runs : Dict Instant

-- NewWithTelemetry, with its registry of executors
unfoldable pub new_with_telemetry : Config → List Executor → MonitoringService
new_with_telemetry cfg executors = record {
  cfg = cfg;
  executors = executors;
  phase_last_runs = Dict.empty;
}

-- An answer of Core, or its error.
pub data Reply (A : Type 0) : Type 0 where
  answers : A → Reply A
  refuses : String → Reply A

abbrev pub answer : {A : Type 0} → Reply A → Option A
answer (answers a) = some a
answer (refuses e) = none

-- What a run meets: the clocks of the auxiliary phases, and what Core answers to each call that the run
-- may make.
pub record Round : Type 0 where
  pub ssl_at : Instant
  pub domain_at : Instant
  pub response_reply : Reply (List (Work × Monitoring))
  pub ssl_reply : Reply (List (Work × Monitoring))
  pub domain_reply : Reply (List (Work × Monitoring))
  pub claimed : Reply (List ClaimedJob)

-- What the error of a phase is: that of GetMonitorings, where the phase called it.
abbrev pub phase_err : {A : Type 0} → Reply A → PhaseRun → Option String
phase_err (refuses e) fetch_failed = some e
phase_err _ run = none

-- The three phases, and the last runs after them. The two auxiliary phases write different keys.
pub record Phases : Type 0 where
  pub response : PhaseRun
  pub ssl : PhaseRun
  pub domain_expiration : PhaseRun
  pub last_runs : Dict Instant

unfoldable pub run_phases : MonitoringService → Round → Phases
unfolding run_response run_ssl run_domain_expiration
run_phases s w =
    let (after_ssl, ssl) = run_ssl s.executors s.phase_last_runs w.ssl_at (answer w.ssl_reply) in
    let (after_both, domain_expiration) =
      run_domain_expiration s.executors after_ssl w.domain_at (answer w.domain_reply) in
    record {
      response = run_response s.executors (answer w.response_reply);
      ssl = ssl;
      domain_expiration = domain_expiration;
      last_runs = after_both;
    }

unfoldable pub monitoring_phases : Round → Phases → List Phase
monitoring_phases w p =
    record { name = "response"; err = phase_err w.response_reply p.response }
    ∷ record { name = "SSL"; err = phase_err w.ssl_reply p.ssl }
    ∷ record { name = "domain expiration"; err = phase_err w.domain_reply p.domain_expiration }
    ∷ []

-- What a run gives its workers: the jobs that were claimed with their telemetry, or what the phases
-- queue.
pub data Given : Type 0 where
  jobs : List ClaimedJob × List Op → Given
  phases : Phases → Given

-- The error of a run, as the texts that errors.Join joins; the outer `none` is a panic.
pub record Ran : Type 0 where
  pub service : MonitoringService
  pub given : Given
  pub err : Option (Option (List String))

unfoldable pub run_claimed_jobs : MonitoringService → Reply (List ClaimedJob) → Ran
run_claimed_jobs s reply = record {
  service = s;
  given = jobs (get_or (Batch.dispatch (answer reply)) ([], []));
  err = some (elim reply [ answers claimed ↦ none | refuses e ↦ some (e ∷ []) ]);
}

-- `arrived` is the order in which the results of the phases reach the coordinator.
unfoldable pub run_monitoring : MonitoringService → Round → List PhaseResult → Ran
unfolding run_phases monitoring_phases run_claimed_jobs
run_monitoring s w arrived =
    if s.cfg.job_leases_enabled
    then run_claimed_jobs s w.claimed
    else let ran = run_phases s w in
      record {
        service = record s { phase_last_runs = ran.last_runs };
        given = phases ran;
        err = Coordinator.run (monitoring_phases w ran) arrived;
      }
