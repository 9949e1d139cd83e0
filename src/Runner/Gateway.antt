-- ===== src/Runner/Gateway.antt =====
-- MonitoringGateway of internal/application/ports.go as a run uses it: the two calls whose answers decide
-- what a run does. The client of Core fills it in CoreApi.Gateway. The calls that report results are the
-- effects of Runner.Trace. `ListsOnce` and `ClaimsFew` are properties that the interface does not ask for,
-- and that the client has.
pub mod Leased
pub mod Listed
use webguard_instance.Base.{String, pos, ◌≤ℤ◌, List, [], ◌∷◌, ◌≡◌, length, IsDistinct}
use webguard_instance.Monitor.Types.{Instant, Monitoring, ClaimedJob, ClaimMonitoringJobsRequest}
use webguard_instance.Runner.Lease.Batch.{claim_request}
use webguard_instance.Runner.Execution.{phase_response, phase_ssl, phase_domain_expiration}
use webguard_instance.Runner.Registry.{types}
use webguard_instance.Runner.Legacy.{Work}
use webguard_instance.Runner.Service.{
  MonitoringService, Reply, answers, refuses, Round, Ran, run_claimed_jobs,
}

abbrev pub monitoring_ids : List Monitoring → List String
monitoring_ids [] = []
monitoring_ids (m ∷ ms) = m.id ∷ monitoring_ids ms

pub record Gateway : Type 0 where
  pub get_monitorings : String → List String → Reply (List Monitoring)
  pub claim_monitoring_jobs : ClaimMonitoringJobsRequest → Reply (List ClaimedJob)

-- A list for at least one type has no monitoring twice.
abbrev pub ListsOnce : Gateway → Type 0
ListsOnce g =
    (location type : String) (types : List String) (ms : List Monitoring)
    → g.get_monitorings location (type ∷ types) ≡ answers ms
    → IsDistinct (monitoring_ids ms)

-- A claim gives no more jobs than it asked for.
abbrev pub ClaimsFew : Gateway → Type 0
ClaimsFew g =
    (p : ClaimMonitoringJobsRequest) (jobs : List ClaimedJob)
    → g.claim_monitoring_jobs p ≡ answers jobs
    → pos (length jobs) ≤ℤ p.max_batch_size

-- runClaimedJobs with the gateway that the service holds
unfoldable pub run_leased : Gateway → MonitoringService → Ran
unfolding run_claimed_jobs claim_request
run_leased g s = run_claimed_jobs s (g.claim_monitoring_jobs (claim_request s.cfg))

-- What a run meets besides the gateway: the clocks of the auxiliary phases, and those of each check.
pub record Times : Type 0 where
  pub ssl_at : Instant
  pub domain_at : Instant
  pub work : Monitoring → Work

abbrev with_work : (Monitoring → Work) → List Monitoring → List (Work × Monitoring)
with_work work [] = []
with_work work (m ∷ ms) = (work m, m) ∷ with_work work ms

abbrev pub work_reply :
    (Monitoring → Work) → Reply (List Monitoring) → Reply (List (Work × Monitoring))
work_reply work (answers ms) = answers (with_work work ms)
work_reply work (refuses e) = refuses e

-- GetMonitorings as a phase calls it.
unfoldable pub list_for :
    Gateway → MonitoringService → Times → String → Reply (List (Work × Monitoring))
list_for g s t phase =
    work_reply t.work (g.get_monitorings s.cfg.location (types s.executors phase))

unfoldable pub round_of : Gateway → MonitoringService → Times → Round
unfolding list_for
round_of g s t = record {
  ssl_at = t.ssl_at;
  domain_at = t.domain_at;
  response_reply = list_for g s t phase_response;
  ssl_reply = list_for g s t phase_ssl;
  domain_reply = list_for g s t phase_domain_expiration;
  claimed = g.claim_monitoring_jobs (claim_request s.cfg);
}
