-- ===== src/Runner/Legacy/Dispatched.antt =====
-- Which monitorings the dispatchers of the phases queue.
use webguard_instance.Base.{
  String, Bool, true, false, not, ◌&&◌, List, [], ◌∷◌, ◌≡◌, refl, arith, ap, ◌∙◌, if◌then◌else◌,
}
use webguard_instance.Monitor.Types.{Monitoring}
use webguard_instance.Application.Telemetry.{Op, queues}
use webguard_instance.Runner.Cadence.{response_due}
use webguard_instance.Runner.Execution.{
  phase_response, phase_ssl, phase_domain_expiration, maintenance_execution,
}
use webguard_instance.Runner.Registry.{Executor, supports}
use webguard_instance.Runner.Trace.{Effect, ops, ops-append}
use webguard_instance.Runner.Lease.Publish.Laws.{ops-publish_execution}
use webguard_instance.Runner.Legacy.{
  Work, Dispatch, queue, skip, maintenance_effects, dispatch_response, dispatch_ssl,
  dispatch_domain_expiration,
}

-- A monitoring that a phase runs: it has an executor there and is not under maintenance.
abbrev pub runnable : List Executor → String → Work × Monitoring → Bool
runnable executors phase (w, m) = supports executors phase m.type && not m.maintenance_active

-- For the response phase it is due as well.
abbrev pub runnable_response : List Executor → Work × Monitoring → Bool
runnable_response executors (w, m) =
    runnable executors phase_response (w, m) && response_due m w.looked_at

abbrev pub keep : (Work × Monitoring → Bool) → List (Work × Monitoring) → List (Work × Monitoring)
keep test [] = []
keep test (x ∷ xs) = if test x then x ∷ keep test xs else keep test xs

abbrev pub queue_calls : List (Work × Monitoring) → List Op
queue_calls [] = []
queue_calls (x ∷ xs) = queues ∷ queue_calls xs

-- Exactly these are queued, and the gauge is told of each once.
abbrev pub Queues : List (Work × Monitoring) → Dispatch → Type 0
Queues chosen d = (d.0 ≡ chosen) × (ops d.1 ≡ queue_calls chosen)

Queues-skip :
    (chosen : List (Work × Monitoring)) (effects : List Effect) (d : Dispatch)
    → ops effects ≡ []
    → Queues chosen d
    → Queues chosen (skip effects d)
unfolding skip
Queues-skip chosen effects d h (same, calls) = (same, ops-append effects d.1 ∙ rw h calls)

Queues-queue :
    (chosen : List (Work × Monitoring)) (w : Work) (m : Monitoring) (d : Dispatch)
    → Queues chosen d
    → Queues ((w, m) ∷ chosen) (queue w m d)
unfolding queue
Queues-queue chosen w m d (same, calls) =
    (ap (λ xs. (w, m) ∷ xs) same, ap (λ os. queues ∷ os) calls)

ops-maintenance_effects :
    (w : Work) (phase : String) (m : Monitoring) → ops (maintenance_effects w phase m) ≡ []
unfolding maintenance_effects
ops-maintenance_effects w phase m =
    ops-publish_execution w.random (maintenance_execution phase m.id) []

-- The tests of a dispatcher, in its order.
Queues-decided :
    (supported due maintenance : Bool) (w : Work) (m : Monitoring) (es : List Effect)
    (chosen : List (Work × Monitoring)) (rest : Dispatch)
    → ops es ≡ []
    → Queues chosen rest
    → Queues (if (supported && not maintenance) && due then (w, m) ∷ chosen else chosen) (
        if not supported
        then skip [] rest
        else if not due
        then skip [] rest
        else if maintenance
        then skip es rest
        else queue w m rest)
Queues-decided false due maintenance w m es chosen rest h ih = Queues-skip chosen [] rest refl ih
Queues-decided true false true w m es chosen rest h ih = Queues-skip chosen [] rest refl ih
Queues-decided true false false w m es chosen rest h ih = Queues-skip chosen [] rest refl ih
Queues-decided true true true w m es chosen rest h ih = Queues-skip chosen es rest h ih
Queues-decided true true false w m es chosen rest h ih = Queues-queue chosen w m rest ih

and_true : (b : Bool) → (b && true) ≡ b
and_true b = ground arith

Queues-response :
    (executors : List Executor) (ms : List (Work × Monitoring))
    → Queues (keep (runnable_response executors) ms) (dispatch_response executors ms)
unfolding dispatch_response
Queues-response executors [] = (refl, refl)
Queues-response executors ((w, m) ∷ ms) =
    Queues-decided (supports executors phase_response m.type) (response_due m w.looked_at)
      m.maintenance_active w m (maintenance_effects w phase_response m)
      (keep (runnable_response executors) ms) (dispatch_response executors ms)
      (ops-maintenance_effects w phase_response m) (Queues-response executors ms)

Queues-ssl :
    (executors : List Executor) (ms : List (Work × Monitoring))
    → Queues (keep (runnable executors phase_ssl) ms) (dispatch_ssl executors ms)
unfolding dispatch_ssl
Queues-ssl executors [] = (refl, refl)
Queues-ssl executors ((w, m) ∷ ms) =
    rw (← and_true (supports executors phase_ssl m.type && not m.maintenance_active)) (
      Queues-decided (supports executors phase_ssl m.type) true m.maintenance_active w m []
        (keep (runnable executors phase_ssl) ms) (dispatch_ssl executors ms) refl
        (Queues-ssl executors ms))

Queues-domain_expiration :
    (executors : List Executor) (ms : List (Work × Monitoring))
    → Queues
        (keep (runnable executors phase_domain_expiration) ms)
        (dispatch_domain_expiration executors ms)
unfolding dispatch_domain_expiration
Queues-domain_expiration executors [] = (refl, refl)
Queues-domain_expiration executors ((w, m) ∷ ms) =
    rw (← and_true (supports executors phase_domain_expiration m.type && not m.maintenance_active))
      (Queues-decided (supports executors phase_domain_expiration m.type) true m.maintenance_active
        w m (maintenance_effects w phase_domain_expiration m)
        (keep (runnable executors phase_domain_expiration) ms)
        (dispatch_domain_expiration executors ms)
        (ops-maintenance_effects w phase_domain_expiration m)
        (Queues-domain_expiration executors ms))

-- Each phase queues exactly the monitorings that have an executor in it and are not under maintenance,
-- and for the response phase are due, in the order in which they came, and tells the gauge of queued
-- jobs of each of them once and of nothing else.
pub dispatches_runnable :
    (executors : List Executor) (ms : List (Work × Monitoring))
    → Queues (keep (runnable_response executors) ms) (dispatch_response executors ms)
      × Queues (keep (runnable executors phase_ssl) ms) (dispatch_ssl executors ms)
      × Queues
          (keep (runnable executors phase_domain_expiration) ms)
          (dispatch_domain_expiration executors ms)
dispatches_runnable executors ms =
    (Queues-response executors ms, Queues-ssl executors ms, Queues-domain_expiration executors ms)
