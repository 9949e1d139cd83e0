-- ===== src/Runner/Legacy.antt =====
-- executeMonitoring, runResponse, runSSL and runDomainExpiration of internal/adapters/runner/runner.go:
-- the phases of a run without job leases. Of each phase the dispatcher's walk over the monitorings is a
-- function, and so is what a worker does with one of them; dispatcher and workers run at once.
pub mod Examples
pub mod Gauges
pub mod Dispatched
use webguard_instance.Base.{
  ℤ, String, Bool, true, false, not, Option, none, some, List, [], ◌∷◌, ◌++◌, if◌then◌else◌,
}
use webguard_instance.Base.Dict.{Dict}
use webguard_instance.Monitor.Types.{Instant, Monitoring}
use webguard_instance.Application.Telemetry.{queues, starts, finishes, drops}
use webguard_instance.Runner.Cadence.{try_start, response_due, allow_auxiliary_phase}
use webguard_instance.Runner.Idempotency.{Bytes16}
use webguard_instance.Runner.Execution.{
  Execution, no_execution, maintenance_execution, execution_outcome, phase_response, phase_ssl,
  phase_domain_expiration,
}
use webguard_instance.Runner.Registry.{Executor, supports, execute}
use webguard_instance.Runner.Lease.Publish.{publish_execution}
use webguard_instance.Runner.Trace.{Effect, tel, Traced, pure, note, ◌>>=◌, ◌>>◌}

-- What the environment decides for one monitoring: the clock at the dispatcher and at the worker, the
-- random bytes of a key, whether an execution slot is got, and the time measured.
pub record Work : Type 0 where
  pub looked_at : Instant
  pub started_at : Instant
  pub random : Option Bytes16
  pub slot_acquired : Bool
  pub elapsed : ℤ

abbrev outcome : Execution × Bool → String
outcome (e, supported) = if supported then execution_outcome e else "unsupported"

checked : Work → String → Execution × Bool → Traced (Execution × Bool)
checked w phase result = do note (finishes phase (outcome result) w.elapsed); pure result

canceled : Work → String → Traced (Execution × Bool)
canceled w phase = do note (finishes phase "canceled" w.elapsed); pure (no_execution, false)

unfoldable pub execute_monitoring :
    List Executor → Work → String → Monitoring → Traced (Execution × Bool)
unfolding checked canceled
execute_monitoring executors w phase m = do
  note starts
  if w.slot_acquired then checked w phase (execute executors phase m) else canceled w phase

-- What a worker of the SSL phase or the domain phase does with a monitoring.
unfoldable pub work : List Executor → Work → String → Monitoring → Traced Execution
unfolding execute_monitoring
work executors w phase m = do
  result ← execute_monitoring executors w phase m
  publish_execution w.random result.0 []

-- What a worker of the response phase does; the map of starts is the cadence's.
unfoldable pub work_response :
    String → List Executor → Work → Dict Instant → Monitoring → Dict Instant × List Effect
unfolding work
work_response location executors w before m =
    let (after, went) = try_start before m location w.started_at in
    if went
    then (after, (work executors w phase_response m).1)
    else (after, tel (drops phase_response "cadence") ∷ [])

-- A dispatcher's walk: the monitorings that it queues, and its effects.
abbrev pub Dispatch : Type 0
Dispatch = List (Work × Monitoring) × List Effect

queue : Work → Monitoring → Dispatch → Dispatch
queue w m rest = ((w, m) ∷ rest.0, tel queues ∷ rest.1)

skip : List Effect → Dispatch → Dispatch
skip effects rest = (rest.0, effects ++ rest.1)

maintenance_effects : Work → String → Monitoring → List Effect
maintenance_effects w phase m = (publish_execution w.random (maintenance_execution phase m.id) []).1

unfoldable pub dispatch_response : List Executor → List (Work × Monitoring) → Dispatch
unfolding queue skip maintenance_effects
dispatch_response executors [] = ([], [])
dispatch_response executors ((w, m) ∷ ms) =
    let rest = dispatch_response executors ms in
    if not (supports executors phase_response m.type)
    then skip [] rest
    else if not (response_due m w.looked_at)
    then skip [] rest
    else if m.maintenance_active
    then skip (maintenance_effects w phase_response m) rest
    else queue w m rest

unfoldable pub dispatch_ssl : List Executor → List (Work × Monitoring) → Dispatch
unfolding queue skip
dispatch_ssl executors [] = ([], [])
dispatch_ssl executors ((w, m) ∷ ms) =
    let rest = dispatch_ssl executors ms in
    if not (supports executors phase_ssl m.type)
    then skip [] rest
    else if m.maintenance_active
    then skip [] rest
    else queue w m rest

unfoldable pub dispatch_domain_expiration : List Executor → List (Work × Monitoring) → Dispatch
unfolding queue skip maintenance_effects
dispatch_domain_expiration executors [] = ([], [])
dispatch_domain_expiration executors ((w, m) ∷ ms) =
    let rest = dispatch_domain_expiration executors ms in
    if not (supports executors phase_domain_expiration m.type)
    then skip [] rest
    else if m.maintenance_active
    then skip (maintenance_effects w phase_domain_expiration m) rest
    else queue w m rest

-- How a phase ends: it is not due, GetMonitorings fails, or the monitorings are dispatched.
pub data PhaseRun : Type 0 where
  not_due fetch_failed : PhaseRun
  dispatched : Dispatch → PhaseRun

fetched : (List (Work × Monitoring) → Dispatch) → Option (List (Work × Monitoring)) → PhaseRun
fetched walk none = fetch_failed
fetched walk (some monitorings) = dispatched (walk monitorings)

unfoldable pub run_response : List Executor → Option (List (Work × Monitoring)) → PhaseRun
unfolding fetched
run_response executors reply = fetched (dispatch_response executors) reply

-- The auxiliary phases; the map holds the last runs of the phases.
auxiliary :
    Dict Instant × Bool
    → (List (Work × Monitoring) → Dispatch)
    → Option (List (Work × Monitoring))
    → Dict Instant × PhaseRun
unfolding fetched
auxiliary (runs, allowed) walk reply =
    if allowed then (runs, fetched walk reply) else (runs, not_due)

unfoldable pub run_ssl :
    List Executor
    → Dict Instant
    → Instant
    → Option (List (Work × Monitoring))
    → Dict Instant × PhaseRun
unfolding auxiliary
run_ssl executors runs now reply =
    auxiliary (allow_auxiliary_phase runs phase_ssl now) (dispatch_ssl executors) reply

unfoldable pub run_domain_expiration :
    List Executor
    → Dict Instant
    → Instant
    → Option (List (Work × Monitoring))
    → Dict Instant × PhaseRun
unfolding auxiliary
run_domain_expiration executors runs now reply =
    auxiliary (allow_auxiliary_phase runs phase_domain_expiration now)
      (dispatch_domain_expiration executors) reply
