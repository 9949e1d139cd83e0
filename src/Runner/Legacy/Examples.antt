-- ===== src/Runner/Legacy/Examples.antt =====
-- The theorems on the phases at concrete inputs.
use webguard_instance.Base.{
  ℕ, ◌+◌, ◌<◌, length, subst, sym, pos, true, some, List, [], ◌∷◌, ◌++◌, ◌≡◌, refl, arith,
}
use webguard_instance.Base.Dict
use webguard_instance.Base.Dict.{Dict}
use webguard_instance.Monitor.Types.{Instant, Monitoring}
use webguard_instance.Application.Telemetry.{Op, queues, new_telemetry, apply_all}
use webguard_instance.Application.Telemetry.Life.{finished, next, Interleaving}
use webguard_instance.Runner.Execution.{
  phase_ssl, phase_domain_expiration, maintenance_execution, set_execution_idempotency_key,
}
use webguard_instance.Runner.Registry.{supports, find, new_executor_registry}
use webguard_instance.Runner.Cadence.{response_due}
use webguard_instance.Runner.Lease.Publish.{publish_execution}
use webguard_instance.Runner.Idempotency.{new_idempotency_key}
use webguard_instance.Runner.Samples.{sample_monitoring, sample_env, sample_bytes}
use webguard_instance.Runner.Trace.{ops}
use webguard_instance.Runner.Legacy.{
  Work, work, work_response, dispatch_response, dispatch_ssl, dispatch_domain_expiration,
}
use webguard_instance.Runner.Legacy.Gauges.{phase_parts, gauges-phases}
use webguard_instance.Runner.Legacy.Dispatched.{
  Queues, keep, runnable, runnable_response, dispatches_runnable,
}

abbrev sample_work : Work
sample_work = record {
  looked_at = pos 100000000000;
  started_at = pos 100000000001;
  random = some sample_bytes;
  slot_acquired = true;
  elapsed = pos 3;
}

abbrev sample_monitorings : List (Work × Monitoring)
sample_monitorings =
    (sample_work, sample_monitoring)
    ∷ (sample_work, record sample_monitoring { maintenance_active = true })
    ∷ []

dispatches_runnable_example :
    Queues
      (keep (runnable_response sample_env.executors) sample_monitorings)
      (dispatch_response sample_env.executors sample_monitorings)
    × Queues
        (keep (runnable sample_env.executors phase_ssl) sample_monitorings)
        (dispatch_ssl sample_env.executors sample_monitorings)
    × Queues
        (keep (runnable sample_env.executors phase_domain_expiration) sample_monitorings)
        (dispatch_domain_expiration sample_env.executors sample_monitorings)
dispatches_runnable_example = dispatches_runnable sample_env.executors sample_monitorings

abbrev sample_starts : ℕ → Dict Instant
sample_starts place = Dict.empty

-- The response phase and the SSL phase with the monitorings above.
abbrev sample_parts : List (List Op)
sample_parts =
    phase_parts "de-1" sample_env.executors sample_starts sample_monitorings sample_monitorings []

abbrev response_part : List Op
response_part =
    queues
    ∷ ops (work_response "de-1" sample_env.executors sample_work Dict.empty sample_monitoring).1

abbrev ssl_part : List Op
ssl_part = queues ∷ ops (work sample_env.executors sample_work phase_ssl sample_monitoring).1

two_parts : sample_parts ≡ response_part ∷ ssl_part ∷ []
unfolding dispatch_response dispatch_ssl dispatch_domain_expiration supports find
    new_executor_registry response_due publish_execution maintenance_execution new_idempotency_key
    set_execution_idempotency_key
two_parts = refl

one_left : (history : List Op) → Interleaving ([] ∷ history ∷ []) history
one_left [] = finished ([] ∷ [] ∷ []) (refl, (refl, tt))
one_left (op ∷ history) = next ([] ∷ []) op history [] refl (one_left history)

-- One part after the other.
in_turn : (xs ys : List Op) → Interleaving (xs ∷ ys ∷ []) (xs ++ ys)
in_turn [] ys = one_left ys
in_turn (op ∷ xs) ys = next [] op xs (ys ∷ []) refl (in_turn xs ys)

few_parts : 0 + length sample_parts < 9223372036854775808
few_parts =
    subst (λ (parts : List (List Op)). 0 + length parts < 9223372036854775808) (sym two_parts)
      (omega arith)

gauges-phases_example :
    ((apply_all new_telemetry (response_part ++ ssl_part)).jobs_queued ≡ pos 0)
    × ((apply_all new_telemetry (response_part ++ ssl_part)).jobs_active ≡ pos 0)
unfolding new_telemetry
gauges-phases_example =
    gauges-phases "de-1" sample_env.executors sample_starts new_telemetry 0 0 sample_monitorings
      sample_monitorings [] (response_part ++ ssl_part) refl refl few_parts few_parts
      (subst (λ (parts : List (List Op)). Interleaving parts (response_part ++ ssl_part))
        (sym two_parts) (in_turn response_part ssl_part))
