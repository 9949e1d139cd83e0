-- ===== src/Runner/Service/Refusals.antt =====
-- What a run without job leases returns.
use mathlib.Core.List.{Permᴰ}
use webguard_instance.Base.{
  String, Bool, true, false, Option, none, some, List, [], ◌∷◌, ◌≡◌, refl, ap, ◌∙◌, arith, str_eq,
  eq_iff, if◌then◌else◌, if_false, ◌&&◌,
}
use webguard_instance.Base.Dict.{Dict, get, get-put}
use webguard_instance.Monitor.Types.{Instant, Monitoring}
use webguard_instance.Application.Coordinator
use webguard_instance.Application.Coordinator.{Phase, PhaseResult, sent, join}
use webguard_instance.Application.Coordinator.Arrival.{named_failure, failures_of, run_lem}
use webguard_instance.Runner.Execution.{phase_ssl, phase_domain_expiration}
use webguard_instance.Runner.Cadence.{allow_auxiliary_phase}
use webguard_instance.Runner.Legacy.{Work, run_response, run_ssl, run_domain_expiration}
use webguard_instance.Runner.Service.{
  MonitoringService, Reply, answers, refuses, answer, Round, phase_err, phases, run_phases,
  monitoring_phases, Ran, run_monitoring,
}

-- An auxiliary phase is due when its last run is five minutes ago.
abbrev pub due : MonitoringService → String → Instant → Bool
due s phase now = (allow_auxiliary_phase s.phase_last_runs phase now).1

-- The error of Core, where it was asked.
abbrev pub refusal : {A : Type 0} → Bool → Reply A → Option String
refusal false reply = none
refusal true (answers a) = none
refusal true (refuses e) = some e

-- The failures of the three phases, in their order.
abbrev pub refusals : MonitoringService → Round → List (Option String)
refusals s w =
    named_failure "response" (refusal true w.response_reply)
    ∷ named_failure "SSL" (refusal (due s phase_ssl w.ssl_at) w.ssl_reply)
    ∷ named_failure "domain expiration"
        (refusal (due s phase_domain_expiration w.domain_at) w.domain_reply)
    ∷ []

-- One phase does not see what the other writes.
allow_other :
    (runs : Dict Instant) (phase other : String) (at now : Instant)
    → str_eq phase other ≡ false
    → (allow_auxiliary_phase (allow_auxiliary_phase runs phase at).0 other now).1
      ≡ (allow_auxiliary_phase runs other now).1
unfolding allow_auxiliary_phase
allow_other runs phase other at now differ = ground (arith, get-put runs phase other at)

response_err :
    (s : MonitoringService) (reply : Reply (List (Work × Monitoring)))
    → phase_err reply (run_response s.executors (answer reply)) ≡ refusal true reply
unfolding run_response
response_err s (answers ms) = refl
response_err s (refuses e) = refl

ssl_err :
    (s : MonitoringService) (runs : Dict Instant) (now : Instant)
    (reply : Reply (List (Work × Monitoring)))
    → phase_err reply (run_ssl s.executors runs now (answer reply)).1
      ≡ refusal (allow_auxiliary_phase runs phase_ssl now).1 reply
unfolding run_ssl
ssl_err s runs now (answers ms) = ground arith
ssl_err s runs now (refuses e) = ground arith

domain_err :
    (s : MonitoringService) (runs : Dict Instant) (now : Instant)
    (reply : Reply (List (Work × Monitoring)))
    → phase_err reply (run_domain_expiration s.executors runs now (answer reply)).1
      ≡ refusal (allow_auxiliary_phase runs phase_domain_expiration now).1 reply
unfolding run_domain_expiration
domain_err s runs now (answers ms) = ground arith
domain_err s runs now (refuses e) = ground arith

ssl_runs :
    (s : MonitoringService) (now : Instant) (reply : Option (List (Work × Monitoring)))
    → (run_ssl s.executors s.phase_last_runs now reply).0
      ≡ (allow_auxiliary_phase s.phase_last_runs phase_ssl now).0
unfolding run_ssl
ssl_runs s now reply = ground arith

domain_due :
    (s : MonitoringService) (w : Round)
    → (allow_auxiliary_phase
        (run_ssl s.executors s.phase_last_runs w.ssl_at (answer w.ssl_reply)).0
        phase_domain_expiration
        w.domain_at).1
      ≡ due s phase_domain_expiration w.domain_at
domain_due s w =
    ap (λ (runs : Dict Instant). (allow_auxiliary_phase runs phase_domain_expiration w.domain_at).1)
      (ssl_runs s w.ssl_at (answer w.ssl_reply))
    ∙ allow_other s.phase_last_runs phase_ssl phase_domain_expiration w.ssl_at w.domain_at refl

failures_lem :
    (s : MonitoringService) (w : Round)
    → failures_of (monitoring_phases w (run_phases s w)) ≡ refusals s w
unfolding monitoring_phases run_phases
failures_lem s w =
    let third : phase_err w.domain_reply (run_phases s w).domain_expiration
        ≡ refusal (due s phase_domain_expiration w.domain_at) w.domain_reply =
      domain_err s (run_ssl s.executors s.phase_last_runs w.ssl_at (answer w.ssl_reply)).0
        w.domain_at w.domain_reply
      ∙ ap (λ (b : Bool). refusal b w.domain_reply) (domain_due s w) in
    let second : phase_err w.ssl_reply (run_phases s w).ssl
        ≡ refusal (due s phase_ssl w.ssl_at) w.ssl_reply =
      ssl_err s s.phase_last_runs w.ssl_at w.ssl_reply in
    cc (response_err s w.response_reply, second, third)

-- The last run of a phase after a run.
abbrev pub last_run : MonitoringService → Round → String → Option Instant
last_run s w phase =
    if str_eq phase_ssl phase && due s phase_ssl w.ssl_at
    then some w.ssl_at
    else if str_eq phase_domain_expiration phase && due s phase_domain_expiration w.domain_at
    then some w.domain_at
    else get s.phase_last_runs phase

get-allow :
    (runs : Dict Instant) (phase k : String) (now : Instant)
    → get (allow_auxiliary_phase runs phase now).0 k ≡ (
        if str_eq phase k && (allow_auxiliary_phase runs phase now).1 then some now else get runs k)
unfolding allow_auxiliary_phase
get-allow runs phase k now = ground (arith, get-put runs phase k now)

domain_runs :
    (s : MonitoringService) (runs : Dict Instant) (now : Instant)
    (reply : Option (List (Work × Monitoring)))
    → (run_domain_expiration s.executors runs now reply).0
      ≡ (allow_auxiliary_phase runs phase_domain_expiration now).0
unfolding run_domain_expiration
domain_runs s runs now reply = ground arith

last_runs_lem :
    (s : MonitoringService) (w : Round) (phase : String)
    → get (run_phases s w).last_runs phase ≡ last_run s w phase
unfolding run_phases
last_runs_lem s w phase =
    let before = (run_ssl s.executors s.phase_last_runs w.ssl_at (answer w.ssl_reply)).0 in
    let after : get (run_phases s w).last_runs phase
        ≡ get (allow_auxiliary_phase before phase_domain_expiration w.domain_at).0 phase =
      ap (λ (d : Dict Instant). get d phase)
        (domain_runs s before w.domain_at (answer w.domain_reply)) in
    let ssl : get before phase
        ≡ get (allow_auxiliary_phase s.phase_last_runs phase_ssl w.ssl_at).0 phase =
      ap (λ (d : Dict Instant). get d phase) (ssl_runs s w.ssl_at (answer w.ssl_reply)) in
    let differ : str_eq phase_ssl phase_domain_expiration ≡ false = refl in
    ground (
      arith,
      after,
      ssl,
      eq_iff phase_ssl phase_domain_expiration,
      get-allow before phase_domain_expiration phase w.domain_at,
      get-allow s.phase_last_runs phase_ssl phase w.ssl_at,
      domain_due s w,
      eq_iff phase_ssl phase,
      eq_iff phase_domain_expiration phase,
    )

-- Without job leases a run does not panic, whatever the order in which its phases end. It returns the
-- errors with which Core refused the monitorings of the response phase and of those auxiliary phases
-- that were due, in the order of the phases, each under its phase's name, and nil if there are none.
-- Exactly the auxiliary phases that were due have a new last run, also where Core refused.
pub run_monitoring_lem :
    (s : MonitoringService) (w : Round) (arrived : List PhaseResult)
    → s.cfg.job_leases_enabled ≡ false
    → Permᴰ (sent 0 (monitoring_phases w (run_phases s w))) arrived
    → ((run_monitoring s w arrived).err ≡ some (join (refusals s w)))
      × ((phase : String)
          → get (run_monitoring s w arrived).service.phase_last_runs phase ≡ last_run s w phase)
unfolding run_monitoring
run_monitoring_lem s w arrived legacy order =
    let ran =
      run_lem (monitoring_phases w (run_phases s w)) arrived order
      ∙ ap (λ (fs : List (Option String)). some (join fs)) (failures_lem s w) in
    let without : run_monitoring s w arrived ≡ (record {
      service = record s { phase_last_runs = (run_phases s w).last_runs };
      given = phases (run_phases s w);
      err = Coordinator.run (monitoring_phases w (run_phases s w)) arrived;
    }) =
      if_false s.cfg.job_leases_enabled _ _ legacy in
    (
      ap (λ (r : Ran). r.err) without ∙ ran,
      λ phase.
          ap (λ (r : Ran). get r.service.phase_last_runs phase) without ∙ last_runs_lem s w phase,
    )
