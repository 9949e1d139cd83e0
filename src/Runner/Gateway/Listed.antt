-- ===== src/Runner/Gateway/Listed.antt =====
-- What the phases of a run queue.
use webguard_instance.Base.{
  String, Bool, false, List, [], ◌∷◌, ◌≡◌, refl, ap, sym, subst, IsDistinct, contains, arith,
  if_elim,
}
use webguard_instance.Base.Dict.{Dict}
use webguard_instance.Monitor.Types.{Instant, Monitoring}
use webguard_instance.Runner.Cadence.{allow_auxiliary_phase}
use webguard_instance.Runner.Execution.{phase_response, phase_ssl, phase_domain_expiration}
use webguard_instance.Runner.Registry.{Executor, Checks, types, new_executor_registry}
use webguard_instance.Runner.Legacy.{
  Work, PhaseRun, dispatched, run_response, run_ssl, run_domain_expiration,
}
use webguard_instance.Runner.Legacy.Dispatched.{
  keep, runnable, runnable_response, dispatches_runnable,
}
use webguard_instance.Runner.Service.{
  MonitoringService, Reply, answers, refuses, answer, run_phases,
}
use webguard_instance.Runner.Gateway.{
  Gateway, ListsOnce, Times, monitoring_ids, with_work, work_reply, list_for, round_of,
}

abbrev pub work_ids : List (Work × Monitoring) → List String
work_ids [] = []
work_ids ((w, m) ∷ ms) = m.id ∷ work_ids ms

-- The IDs of the monitorings that a phase queues.
abbrev pub queued_ids : PhaseRun → List String
queued_ids (dispatched d) = work_ids d.0
queued_ids _ = []

contains-keep :
    (test : Work × Monitoring → Bool) (ms : List (Work × Monitoring)) (id : String)
    → contains (work_ids ms) id ≡ false
    → contains (work_ids (keep test ms)) id ≡ false
contains-keep test [] id h = refl
contains-keep test ((w, m) ∷ ms) id h = ground (arith, contains-keep test ms id)

IsDistinct-keep :
    (test : Work × Monitoring → Bool) (ms : List (Work × Monitoring))
    → IsDistinct (work_ids ms)
    → IsDistinct (work_ids (keep test ms))
IsDistinct-keep test [] d = tt
IsDistinct-keep test ((w, m) ∷ ms) (new, d) =
    ground (arith, IsDistinct-keep test ms d, contains-keep test ms m.id)

work_ids-with_work :
    (work : Monitoring → Work) (ms : List Monitoring)
    → work_ids (with_work work ms) ≡ monitoring_ids ms
work_ids-with_work work [] = refl
work_ids-with_work work (m ∷ ms) = ap (λ zs. m.id ∷ zs) (work_ids-with_work work ms)

-- An answer for a phase has no monitoring twice.
abbrev AnswersOnce : Reply (List (Work × Monitoring)) → Type 0
AnswersOnce (answers ms) = IsDistinct (work_ids ms)
AnswersOnce (refuses e) = Unit {0}

reply_once :
    (g : Gateway) (once : ListsOnce g) (work : Monitoring → Work) (location type : String)
    (rest : List String) (reply : Reply (List Monitoring))
    → g.get_monitorings location (type ∷ rest) ≡ reply
    → AnswersOnce (work_reply work reply)
reply_once g once work location type rest (answers ms) e =
    subst IsDistinct (sym (work_ids-with_work work ms)) (once location type rest ms e)
reply_once g once work location type rest (refuses text) e = tt

list_for_once :
    (g : Gateway) (once : ListsOnce g) (s : MonitoringService) (t : Times) (phase type : String)
    (rest : List String)
    → types s.executors phase ≡ type ∷ rest
    → AnswersOnce (list_for g s t phase)
unfolding list_for
list_for_once g once s t phase type rest e =
    subst
      (λ (ts : List String). AnswersOnce (work_reply t.work (g.get_monitorings s.cfg.location ts)))
      (sym e)
      (reply_once g once t.work s.cfg.location type rest
        (g.get_monitorings s.cfg.location (type ∷ rest)) refl)

response_once :
    (executors : List Executor) (reply : Reply (List (Work × Monitoring)))
    → AnswersOnce reply
    → IsDistinct (queued_ids (run_response executors (answer reply)))
unfolding run_response
response_once executors (answers ms) once =
    subst (λ (ws : List (Work × Monitoring)). IsDistinct (work_ids ws))
      (sym (dispatches_runnable executors ms).0.0)
      (IsDistinct-keep (runnable_response executors) ms once)
response_once executors (refuses e) once = tt

ssl_once :
    (executors : List Executor) (runs : Dict Instant) (now : Instant)
    (reply : Reply (List (Work × Monitoring)))
    → AnswersOnce reply
    → IsDistinct (queued_ids (run_ssl executors runs now (answer reply)).1)
unfolding run_ssl
ssl_once executors runs now (answers ms) once =
    if_elim (λ (r : Dict Instant × PhaseRun). IsDistinct (queued_ids r.1))
      (allow_auxiliary_phase runs phase_ssl now).1 _ _
      (λ due.
        subst (λ (ws : List (Work × Monitoring)). IsDistinct (work_ids ws))
          (sym (dispatches_runnable executors ms).1.0)
          (IsDistinct-keep (runnable executors phase_ssl) ms once))
      (λ early. tt)
ssl_once executors runs now (refuses e) once =
    if_elim (λ (r : Dict Instant × PhaseRun). IsDistinct (queued_ids r.1))
      (allow_auxiliary_phase runs phase_ssl now).1 _ _ (λ due. tt) (λ early. tt)

domain_once :
    (executors : List Executor) (runs : Dict Instant) (now : Instant)
    (reply : Reply (List (Work × Monitoring)))
    → AnswersOnce reply
    → IsDistinct (queued_ids (run_domain_expiration executors runs now (answer reply)).1)
unfolding run_domain_expiration
domain_once executors runs now (answers ms) once =
    if_elim (λ (r : Dict Instant × PhaseRun). IsDistinct (queued_ids r.1))
      (allow_auxiliary_phase runs phase_domain_expiration now).1 _ _
      (λ due.
        subst (λ (ws : List (Work × Monitoring)). IsDistinct (work_ids ws))
          (sym (dispatches_runnable executors ms).2.0)
          (IsDistinct-keep (runnable executors phase_domain_expiration) ms once))
      (λ early. tt)
domain_once executors runs now (refuses e) once =
    if_elim (λ (r : Dict Instant × PhaseRun). IsDistinct (queued_ids r.1))
      (allow_auxiliary_phase runs phase_domain_expiration now).1 _ _ (λ due. tt) (λ early. tt)

-- For a gateway whose lists have no monitoring twice.
pub run_phases-IsDistinct :
    (g : Gateway) (once : ListsOnce g) (checks : Checks) (s : MonitoringService) (t : Times)
    → s.executors ≡ new_executor_registry checks
    → let ran = run_phases s (round_of g s t) in
      IsDistinct (queued_ids ran.response)
      × IsDistinct (queued_ids ran.ssl)
      × IsDistinct (queued_ids ran.domain_expiration)
unfolding run_phases round_of types new_executor_registry
run_phases-IsDistinct g once checks s t standard = (
  response_once s.executors (list_for g s t phase_response) (
      list_for_once g once s t phase_response _ _
        (ap (λ (es : List Executor). types es phase_response) standard)),
  ssl_once s.executors s.phase_last_runs t.ssl_at (list_for g s t phase_ssl) (
      list_for_once g once s t phase_ssl _ _
        (ap (λ (es : List Executor). types es phase_ssl) standard)),
  domain_once s.executors
      (run_ssl s.executors s.phase_last_runs t.ssl_at (answer (list_for g s t phase_ssl))).0
      t.domain_at (list_for g s t phase_domain_expiration)
      (list_for_once g once s t phase_domain_expiration _ _
        (ap (λ (es : List Executor). types es phase_domain_expiration) standard)),
)
