-- ===== src/Health/Examples.antt =====
-- The endpoints at concrete inputs.
use webguard_instance.Base.{
  ◌≢◌, pos, String, true, false, Option, none, some, List, [], ◌∷◌, ◌≡◌, ℕ, refl, sym, ap, arith,
  is_some, str_eq, ◌+s◌, wrap64, ◌+ℤ◌,
}
use webguard_instance.Base.Dict
use webguard_instance.Base.Dict.{Dict, get, put, get-put, get-empty}
use webguard_instance.Base.Range.{Visits, Visits-SameMap}
use webguard_instance.Base.Order.{sort}
use webguard_instance.Monitor.Numbers.{format_int}
use webguard_instance.Application.Telemetry.{
  Telemetry, Op, queues, starts, finishes, requests, apply, apply_all, new_telemetry, bump,
  DurationMetric, RequestMetric,
}
use webguard_instance.Application.Telemetry.Snapshot.{Memory, Ranges, RangesOver, SameMetrics, view}
use webguard_instance.Application.Telemetry.Tallies.{calls, apply_all-Tallies}
use webguard_instance.Health.Metrics.{Verbs, write_labeled_counter, write_request_metrics}
use webguard_instance.Health.Metrics.Labels.{ends, outcome_line, rendered, executors_labeled}
use webguard_instance.Health.{Serving, new_handler}
use webguard_instance.Health.Endpoints.{Serves, new_handler-SameMetrics}

abbrev sample_verbs : Verbs
sample_verbs = record { quote = λ s. "\"" +s s +s "\""; seconds = λ d. format_int d }

abbrev sample_memory : Memory
sample_memory = record {
  goroutines = pos 9;
  heap_alloc_bytes = 4096;
  heap_in_use_bytes = 8192;
  sys_bytes = 65536;
}

abbrev leases_order : List String → Ranges
leases_order order = record {
  runs = [];
  executors = [];
  job_duration = [];
  transitions = [];
  scheduler_runs = [];
  core = [];
  leases = order;
}

-- The same two events, counted in either order.
abbrev claimed_renewed : Telemetry
claimed_renewed = apply_all new_telemetry (Op.leases "claimed" ∷ Op.leases "renewed" ∷ [])

abbrev renewed_claimed : Telemetry
renewed_claimed = apply_all new_telemetry (Op.leases "renewed" ∷ Op.leases "claimed" ∷ [])

abbrev first_serving : Serving
first_serving = record {
  memory = sample_memory;
  cloning = leases_order ("claimed" ∷ "renewed" ∷ []);
  rendering = leases_order ("renewed" ∷ "claimed" ∷ []);
}

abbrev second_serving : Serving
second_serving = record {
  memory = sample_memory;
  cloning = leases_order ("renewed" ∷ "claimed" ∷ []);
  rendering = leases_order ("renewed" ∷ "claimed" ∷ []);
}

empty-Visits : (V : Type 0) → Visits {V = V} Dict.empty []
empty-Visits V = (tt, λ k. ap (λ (o : Option V). is_some o) (sym (get-empty k)))

leases_same : (k : String) → get claimed_renewed.leases k ≡ get renewed_claimed.leases k
unfolding calls
leases_same k = ground (
  arith,
  (apply_all-Tallies (Op.leases "claimed" ∷ Op.leases "renewed" ∷ [])).leases k,
  (apply_all-Tallies (Op.leases "renewed" ∷ Op.leases "claimed" ∷ [])).leases k,
)

-- The two texts are not the same.
claimed_distinct : str_eq "claimed" "renewed" ≡ false
claimed_distinct = refl

claimed-Visits : Visits claimed_renewed.leases ("claimed" ∷ "renewed" ∷ [])
unfolding calls
claimed-Visits = (
  (refl, (refl, tt)),
  λ k.
      ground (arith, (apply_all-Tallies (Op.leases "claimed" ∷ Op.leases "renewed" ∷ [])).leases k),
)

renewed-Visits : Visits claimed_renewed.leases ("renewed" ∷ "claimed" ∷ [])
unfolding calls
renewed-Visits = (
  (refl, (refl, tt)),
  λ k.
      ground (arith, (apply_all-Tallies (Op.leases "claimed" ∷ Op.leases "renewed" ∷ [])).leases k),
)

leases_RangesOver :
    (leases : Dict ℕ) (order : List String)
    → Visits leases order
    → RangesOver
        (view (record new_telemetry { leases = leases }) sample_memory)
        (leases_order order)
unfolding new_telemetry
leases_RangesOver leases order visits = record {
  runs_visits = empty-Visits ℕ;
  executors_visits = empty-Visits ℕ;
  job_duration_visits = empty-Visits DurationMetric;
  transitions_visits = empty-Visits ℕ;
  scheduler_runs_visits = empty-Visits ℕ;
  core_visits = empty-Visits RequestMetric;
  leases_visits = visits;
}

first-Serves : Serves claimed_renewed first_serving
unfolding apply_all apply
first-Serves = record {
  cloning_over = leases_RangesOver _ ("claimed" ∷ "renewed" ∷ []) claimed-Visits;
  rendering_over = leases_RangesOver _ ("renewed" ∷ "claimed" ∷ []) renewed-Visits;
}

renewed-Visits_other : Visits renewed_claimed.leases ("renewed" ∷ "claimed" ∷ [])
renewed-Visits_other =
    Visits-SameMap renewed_claimed.leases claimed_renewed.leases ("renewed" ∷ "claimed" ∷ [])
      (λ k. sym (leases_same k)) renewed-Visits

second-Serves : Serves renewed_claimed second_serving
unfolding apply_all apply
second-Serves = record {
  cloning_over = leases_RangesOver _ ("renewed" ∷ "claimed" ∷ []) renewed-Visits_other;
  rendering_over = leases_RangesOver _ ("renewed" ∷ "claimed" ∷ []) renewed-Visits_other;
}

same_metrics : SameMetrics (view claimed_renewed sample_memory) (view renewed_claimed sample_memory)
unfolding apply_all apply
same_metrics = record {
  runs_same = λ k. refl;
  run_duration_same = refl;
  jobs_active_same = refl;
  jobs_queued_same = refl;
  executors_same = λ k. refl;
  job_duration_same = λ k. refl;
  transitions_same = λ k. refl;
  scheduler_runs_same = λ k. refl;
  scheduler_delay_same = refl;
  scheduler_duration_same = refl;
  lease_wait_same = refl;
  core_same = λ k. refl;
  leases_same = leases_same;
  memory_same = refl;
}

new_handler-SameMetrics_example :
    new_handler sample_verbs none (some claimed_renewed) first_serving "GET" "/metrics"
    ≡ new_handler sample_verbs none (some renewed_claimed) second_serving "GET" "/metrics"
new_handler-SameMetrics_example =
    new_handler-SameMetrics sample_verbs none claimed_renewed renewed_claimed first_serving
      second_serving "GET" "/metrics" same_metrics first-Serves second-Serves

abbrev sample_history : List Op
sample_history = queues ∷ starts ∷ finishes "response" "up" (pos 7) ∷ []

abbrev ended : Telemetry
ended = apply_all new_telemetry sample_history

one_end : calls (ends "response" "up") sample_history ≢ 0
unfolding calls
one_end h = ground arith

executors_order : Visits ended.executors ("response/up" ∷ [])
unfolding calls
executors_order = ((refl, tt), λ k. ground (arith, (apply_all-Tallies sample_history).executors k))

abbrev executors_ranges : Ranges
executors_ranges = record (leases_order []) { executors = "response/up" ∷ [] }

executors_labeled_example :
    (before : String) × (after : String) × (rendered sample_verbs sample_history "response" "up"
        sample_memory executors_ranges executors_ranges
      ≡ before
        +s outcome_line sample_verbs "response" "up" (calls (ends "response" "up") sample_history)
        +s after)
executors_labeled_example =
    executors_labeled sample_verbs sample_history "response" "up" sample_memory executors_ranges
      executors_ranges
      (tt, (tt, ((refl, (refl, (refl, (refl, (refl, (refl, (refl, (refl, tt)))))))), tt)))
      (refl, (refl, (refl, (refl, (refl, (refl, (refl, (refl, tt)))))))) one_end executors_order
      executors_order

-- The lines are those that Go writes, in the order of the keys.
lease_lines :
    write_labeled_counter sample_verbs "events" "event" claimed_renewed.leases
      ("renewed" ∷ "claimed" ∷ [])
    ≡ "events{event=\"claimed\"} 1\n" ∷ "events{event=\"renewed\"} 1\n" ∷ []
unfolding write_labeled_counter apply_all apply bump new_telemetry get put Dict.empty format_int
    sort
lease_lines = refl

-- Requests of two operations.
abbrev two_operations : Telemetry
two_operations =
    apply_all new_telemetry (requests "claim" (pos 3) false ∷ requests "post" (pos 4) true ∷ [])

abbrev operation_line : String → String → String → String
operation_line name operation value =
    "webguard_instance_core_request" +s name +s "{operation=\"" +s operation +s "\"} " +s value
    +s "\n"

-- The lines of one metric do not stand together.
interleaved_groups :
    write_request_metrics sample_verbs two_operations.core ("claim" ∷ "post" ∷ [])
    ≡ ("# HELP webguard_instance_core_request_duration_seconds Time spent making Core API requests by "
        +s "bounded operation.\n# TYPE webguard_instance_core_request_duration_seconds summary\n")
      ∷ operation_line "s_total" "claim" "1"
      ∷ operation_line "_errors_total" "claim" "0"
      ∷ operation_line "_duration_seconds_count" "claim" "1"
      ∷ operation_line "_duration_seconds_sum" "claim" "3"
      ∷ operation_line "s_total" "post" "1"
      ∷ operation_line "_errors_total" "post" "1"
      ∷ operation_line "_duration_seconds_count" "post" "1"
      ∷ operation_line "_duration_seconds_sum" "post" "4"
      ∷ []
unfolding write_request_metrics apply_all apply new_telemetry get put Dict.empty format_int sort
    wrap64 ◌+ℤ◌
interleaved_groups = refl
