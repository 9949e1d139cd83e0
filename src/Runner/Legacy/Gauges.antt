-- ===== src/Runner/Legacy/Gauges.antt =====
-- The phases of a run without job leases, seen from the gauges of queued and active jobs.
use webguard_instance.Base.{
  ℕ, suc, subst, sym, ◌+◌, ◌<◌, pos, String, List, [], ◌∷◌, ◌++◌, ◌≡◌, refl, All, length, if_elim,
  Bool-cases, inl, inr,
}
use webguard_instance.Base.Dict.{Dict}
use webguard_instance.Monitor.Types.{Instant, Monitoring}
use webguard_instance.Application.Telemetry.{Telemetry, Op, apply_all}
use webguard_instance.Application.Telemetry.Life.{idle, queued, life, IsLife, Interleaving}
use webguard_instance.Application.Telemetry.Gauges.{gauges-Interleaving}
use webguard_instance.Runner.Cadence.{try_start}
use webguard_instance.Runner.Execution.{phase_response, phase_ssl, phase_domain_expiration}
use webguard_instance.Runner.Registry.{Executor}
use webguard_instance.Runner.Trace.{Effect, ops}
use webguard_instance.Runner.Lease.Publish.{publish_execution}
use webguard_instance.Runner.Lease.Publish.Laws.{ops-publish_execution}
use webguard_instance.Runner.Legacy.{
  Work, Dispatch, checked, canceled, execute_monitoring, work, work_response, dispatch_response,
  dispatch_ssl, dispatch_domain_expiration,
}
use webguard_instance.Runner.Legacy.Dispatched.{
  Queues, queue_calls, keep, runnable, runnable_response, dispatches_runnable,
}

-- A job is started and finished, or dropped.
abbrev IsWork : List Op → Type 0
IsWork os = (life os ≡ queued) × IsLife os

abbrev IsWorked : List Effect → Type 0
IsWorked es = IsWork (ops es)

execute_monitoring-IsWork :
    (executors : List Executor) (w : Work) (phase : String) (m : Monitoring) (after : List Effect)
    → ops after ≡ []
    → IsWorked ((execute_monitoring executors w phase m).1 ++ after)
unfolding execute_monitoring checked canceled
execute_monitoring-IsWork executors w phase m after h = elim (Bool-cases w.slot_acquired) [
  | inl e ↦ rw (e, h) (refl, (refl, (refl, tt)))
  | inr e ↦ rw (e, h) (refl, (refl, (refl, tt)))
]

work-IsWork :
    (executors : List Executor) (w : Work) (phase : String) (m : Monitoring)
    → IsWorked (work executors w phase m).1
unfolding work
work-IsWork executors w phase m =
    execute_monitoring-IsWork executors w phase m
      (publish_execution w.random (execute_monitoring executors w phase m).0.0 []).1
      (ops-publish_execution w.random (execute_monitoring executors w phase m).0.0 [])

work_response-IsWork :
    (location : String) (executors : List Executor) (w : Work) (before : Dict Instant)
    (m : Monitoring)
    → IsWorked (work_response location executors w before m).1
unfolding work_response
work_response-IsWork location executors w before m =
    if_elim (λ (r : Dict Instant × List Effect). IsWorked r.1)
      (try_start before m location w.started_at).1 _ _
      (λ _. work-IsWork executors w phase_response m) (λ _. (refl, (refl, tt)))

-- What the workers of the response phase do with the monitorings that are queued: the map of starts is as the
-- other workers have left it when a worker takes the monitoring of a place in the queue.
abbrev pub response_works :
    String → List Executor → (ℕ → Dict Instant) → ℕ → List (Work × Monitoring) → List (List Op)
response_works location executors starts place [] = []
response_works location executors starts place ((w, m) ∷ ms) =
    ops (work_response location executors w (starts place) m).1
    ∷ response_works location executors starts (suc place) ms

-- What the workers of another phase do.
abbrev pub works : List Executor → String → List (Work × Monitoring) → List (List Op)
works executors phase [] = []
works executors phase ((w, m) ∷ ms) = ops (work executors w phase m).1 ∷ works executors phase ms

-- The calls of a dispatcher and those of its workers, as parts whose order is fixed: the dispatcher's calls
-- come in turn before the workers' that take the monitorings, one each.
abbrev pub handed : List Op → List (List Op) → List (List Op)
handed [] workers = workers
handed (op ∷ calls) [] = (op ∷ []) ∷ handed calls []
handed (op ∷ calls) (worker ∷ workers) = (op ∷ worker) ∷ handed calls workers

-- A phase, with what its dispatcher has done.
abbrev pub response_parts :
    String → List Executor → (ℕ → Dict Instant) → List (Work × Monitoring) → List (List Op)
response_parts location executors starts ms =
    let d = dispatch_response executors ms in
    handed (ops d.1) (response_works location executors starts 0 d.0)

abbrev pub ssl_parts : List Executor → List (Work × Monitoring) → List (List Op)
ssl_parts executors ms =
    let d = dispatch_ssl executors ms in handed (ops d.1) (works executors phase_ssl d.0)

abbrev pub domain_parts : List Executor → List (Work × Monitoring) → List (List Op)
domain_parts executors ms =
    let d = dispatch_domain_expiration executors ms in
    handed (ops d.1) (works executors phase_domain_expiration d.0)

-- What the gauges need of the parts.
abbrev AreLives : List (List Op) → Type 0
AreLives parts = All IsLife parts × All (λ os. life os ≡ idle) parts

AreLives-append : (xs ys : List (List Op)) → AreLives xs → AreLives ys → AreLives (xs ++ ys)
AreLives-append [] ys hx hy = hy
AreLives-append (x ∷ xs) ys ((lx, lxs), (ix, ixs)) hy =
    let (ls, is) = AreLives-append xs ys (lxs, ixs) hy in ((lx, ls), (ix, is))

response_works-AreLives :
    (location : String) (executors : List Executor) (starts : ℕ → Dict Instant) (place : ℕ)
    (ms : List (Work × Monitoring))
    → AreLives (handed (queue_calls ms) (response_works location executors starts place ms))
response_works-AreLives location executors starts place [] = (tt, tt)
response_works-AreLives location executors starts place ((w, m) ∷ ms) =
    let (ls, is) = response_works-AreLives location executors starts (suc place) ms in
    ((work_response-IsWork location executors w (starts place) m, ls), (refl, is))

works-AreLives :
    (executors : List Executor) (phase : String) (ms : List (Work × Monitoring))
    → AreLives (handed (queue_calls ms) (works executors phase ms))
works-AreLives executors phase [] = (tt, tt)
works-AreLives executors phase ((w, m) ∷ ms) =
    let (ls, is) = works-AreLives executors phase ms in
    ((work-IsWork executors w phase m, ls), (refl, is))

-- What a dispatcher queues and the calls that it makes, taken together.
queued-AreLives :
    (chosen : List (Work × Monitoring)) (d : Dispatch)
    (workers : List (Work × Monitoring) → List (List Op))
    → Queues chosen d
    → AreLives (handed (queue_calls chosen) (workers chosen))
    → AreLives (handed (ops d.1) (workers d.0))
queued-AreLives chosen d workers (same, calls) h =
    subst (λ (os : List Op). AreLives (handed os (workers d.0))) (sym calls)
      (subst
        (λ (ms : List (Work × Monitoring)). AreLives (handed (queue_calls chosen) (workers ms)))
        (sym same) h)

abbrev pub phase_parts :
    String
    → List Executor
    → (ℕ → Dict Instant)
    → List (Work × Monitoring)
    → List (Work × Monitoring)
    → List (Work × Monitoring)
    → List (List Op)
phase_parts location executors starts response ssl domain =
    response_parts location executors starts response
    ++ (ssl_parts executors ssl ++ domain_parts executors domain)

parts-AreLives :
    (location : String) (executors : List Executor) (starts : ℕ → Dict Instant)
    (response ssl domain : List (Work × Monitoring))
    → AreLives (phase_parts location executors starts response ssl domain)
parts-AreLives location executors starts response ssl domain =
    let chosen = keep (runnable_response executors) response in
    AreLives-append (response_parts location executors starts response) _
      (queued-AreLives chosen (dispatch_response executors response)
        (response_works location executors starts 0) (dispatches_runnable executors response).0
        (response_works-AreLives location executors starts 0 chosen))
      (AreLives-append (ssl_parts executors ssl) (domain_parts executors domain)
        (queued-AreLives (keep (runnable executors phase_ssl) ssl) (dispatch_ssl executors ssl)
          (works executors phase_ssl) (dispatches_runnable executors ssl).1
          (works-AreLives executors phase_ssl (keep (runnable executors phase_ssl) ssl)))
        (queued-AreLives (keep (runnable executors phase_domain_expiration) domain)
          (dispatch_domain_expiration executors domain) (works executors phase_domain_expiration)
          (dispatches_runnable executors domain).2
          (works-AreLives executors phase_domain_expiration
            (keep (runnable executors phase_domain_expiration) domain))))

-- Whatever the dispatchers of the three phases are given, and however their calls and those of the workers
-- interleave, where each call of a dispatcher comes before those of the worker that takes what it queued,
-- both gauges end where they began, if they, which count other work, are not negative and cannot reach 2^63
-- with these jobs.
pub gauges-phases :
    (location : String) (executors : List Executor) (starts : ℕ → Dict Instant) (t : Telemetry)
    (q a : ℕ) (response ssl domain : List (Work × Monitoring)) (history : List Op)
    → t.jobs_queued ≡ pos q
    → t.jobs_active ≡ pos a
    → q + length (phase_parts location executors starts response ssl domain) < 9223372036854775808
    → a + length (phase_parts location executors starts response ssl domain) < 9223372036854775808
    → Interleaving (phase_parts location executors starts response ssl domain) history
    → ((apply_all t history).jobs_queued ≡ pos q) × ((apply_all t history).jobs_active ≡ pos a)
gauges-phases location executors starts t q a response ssl domain history eq ea hq ha h =
    let (lives, idles) = parts-AreLives location executors starts response ssl domain in
    gauges-Interleaving t q a (phase_parts location executors starts response ssl domain) history eq
      ea hq ha lives idles h
