-- ===== src/Runner/Examples.antt =====
-- The theorems on cadence, keys and the registry at concrete inputs, and tests.
use webguard_instance.Base.{
  All, ℤ, pos, String, true, false, List, [], ◌∷◌, ◌≡◌, ◌⊎◌, refl, wrap64, ◌*ℤ◌, arith,
}
use webguard_instance.Base.Dict
use webguard_instance.Base.Dict.{Dict, get}
use webguard_instance.Base.Time.{minute, seconds}
use webguard_instance.Monitor.Types.{Instant, Monitoring, type_http}
use webguard_instance.Runner.Execution.{Execution, phase_response, no_execution}
use webguard_instance.Runner.Cadence.{response_check_interval, cadence_key}
use webguard_instance.Runner.Cadence.Spacing.{SpacedFrom, granted, granted-SpacedFrom}
use webguard_instance.Runner.Idempotency.{is_uuid_v4, new_idempotency_key}
use webguard_instance.Runner.Idempotency.Laws.{is_uuid_v4-new_idempotency_key}
use webguard_instance.Runner.Registry.{Executor, execute, new_executor_registry}
use webguard_instance.Runner.Registry.Laws.{IsCut, IsReported, IsFor, IsFirst, execute_lem}
use webguard_instance.Runner.Samples.{sample_key, sample_monitoring, sample_checks, sample_bytes}

accepts : is_uuid_v4 sample_key ≡ true
unfolding is_uuid_v4
accepts = refl

-- A pair of dashes in place of hex digits is accepted as well.
extra_dashes : is_uuid_v4 "--234567-89ab-4cde-8f01-23456789abcd" ≡ true
unfolding is_uuid_v4
extra_dashes = refl

is_uuid_v4-new_idempotency_key_example : is_uuid_v4 "01234567-89ab-4def-8123-456789abcdff" ≡ true
unfolding new_idempotency_key
is_uuid_v4-new_idempotency_key_example =
    is_uuid_v4-new_idempotency_key sample_bytes "01234567-89ab-4def-8123-456789abcdff" (omega arith)
      (omega arith) refl

abbrev sample_calls : List (Monitoring × Instant)
sample_calls =
    (sample_monitoring, pos 100000000000)
    ∷ (sample_monitoring, pos 130000000000)
    ∷ (sample_monitoring, pos 170000000000)
    ∷ []

abbrev starts_before : Dict Instant
starts_before = Dict.empty

abbrev sample_cadence_key : String
sample_cadence_key = cadence_key sample_monitoring "de-1"

granted-SpacedFrom_example :
    SpacedFrom minute
      (get starts_before sample_cadence_key)
      (granted "de-1" sample_cadence_key starts_before sample_calls)
unfolding response_check_interval seconds wrap64 ◌*ℤ◌
granted-SpacedFrom_example =
    granted-SpacedFrom "de-1" sample_cadence_key minute starts_before sample_calls (omega arith)
      ((λ _. refl), ((λ _. refl), ((λ _. refl), tt)))

abbrev sample_executors : List Executor
sample_executors = new_executor_registry sample_checks

execute_lem_example :
    (All (λ e. ¬ IsFor phase_response type_http e) sample_executors
      × (execute sample_executors phase_response sample_monitoring ≡ (no_execution, false)))
    ⊎ ((e : Executor) × (timeout : ℤ) × (result : Execution) × IsFirst sample_executors
          phase_response type_http e
        × IsCut sample_monitoring.timeout timeout
        × (e.execute (record sample_monitoring { timeout = timeout }) ≡ result)
        × ((execute sample_executors phase_response sample_monitoring).1 ≡ true)
        × ((execute sample_executors phase_response sample_monitoring).0.ssl ≡ result.ssl)
        × ((execute sample_executors phase_response sample_monitoring).0.domain ≡ result.domain)
        × IsReported sample_monitoring.check_interval_seconds result.response
            (execute sample_executors phase_response sample_monitoring).0.response)
execute_lem_example = execute_lem sample_executors phase_response sample_monitoring
