-- ===== src/Runner/Registry/Laws.antt =====
-- What the registry supports, and what an executor is given.
use webguard_instance.Base.{
  ◌<ℤ◌, All, ap, sym, subst, if_true, if_false, ◌&&◌, contains-append, IsDistinct, ℤ, pos, ◌≤ℤ◌,
  String, true, false, ◌||◌, Option, none, some, List, [], ◌∷◌, ◌++◌, str_eq, contains, is_some,
  ◌≡◌, refl, arith, eq_iff, Bool-cases, inl, inr, ◌⊎◌, Option-cases, ◌∙◌,
}
use webguard_instance.Monitor.Types.{Monitoring, MonitoringResponsePayload, type_heartbeat}
use webguard_instance.Runner.Execution.{Execution, no_execution}
use webguard_instance.Runner.Registry.{
  Executor, find, supports, add_types, types_from, types, bounded_monitoring_timeout,
  report_interval, set_interval, run_executor, execute, Checks, new_executor_registry,
}

contains-add_types :
    (us ts : List String) (s : String)
    → contains (add_types us ts) s ≡ (contains us s || contains ts s)
unfolding add_types
contains-add_types us [] s = ground arith
contains-add_types us (t ∷ ts) s = elim (Bool-cases (contains us t)) [
  | inl seen ↦ rw seen (contains-add_types us ts s ∙ ground (arith, eq_iff t s))
  | inr new ↦
      rw new
        (contains-add_types (us ++ t ∷ []) ts s ∙ rw (contains-append us (t ∷ []) s) (ground arith))
]

contains-types_from :
    (ts : List String) (es : List Executor) (phase s : String)
    → contains (types_from ts es phase) s ≡ (contains ts s || is_some (find es phase s))
unfolding types_from find
contains-types_from ts [] phase s = ground arith
contains-types_from ts (e ∷ es) phase s = elim (Bool-cases (str_eq e.phase phase)) [
  | inl here ↦ rw here (
      contains-types_from (add_types ts e.monitoring_types) es phase s
      ∙ rw (contains-add_types ts e.monitoring_types s) (ground arith))
  | inr other ↦ rw other (contains-types_from ts es phase s)
]

IsDistinct-snoc :
    (xs : List String) (t : String)
    → contains xs t ≡ false
    → IsDistinct xs
    → IsDistinct (xs ++ t ∷ [])
IsDistinct-snoc [] t h d = (refl, tt)
IsDistinct-snoc (x ∷ xs) t h d = (
  rw contains-append (ground (arith, eq_iff x t, eq_iff t x)),
  IsDistinct-snoc xs t (ground arith) d.1,
)

add_types-IsDistinct : (us ts : List String) → IsDistinct us → IsDistinct (add_types us ts)
unfolding add_types
add_types-IsDistinct us [] d = d
add_types-IsDistinct us (t ∷ ts) d = elim (Bool-cases (contains us t)) [
  | inl seen ↦ rw seen (add_types-IsDistinct us ts d)
  | inr new ↦ rw new (add_types-IsDistinct (us ++ t ∷ []) ts (IsDistinct-snoc us t new d))
]

types_from-IsDistinct :
    (ts : List String) (es : List Executor) (phase : String)
    → IsDistinct ts
    → IsDistinct (types_from ts es phase)
unfolding types_from
types_from-IsDistinct ts [] phase d = d
types_from-IsDistinct ts (e ∷ es) phase d = elim (Bool-cases (str_eq e.phase phase)) [
  | inl here ↦ rw here (
      types_from-IsDistinct (add_types ts e.monitoring_types) es phase
        (add_types-IsDistinct ts e.monitoring_types d))
  | inr other ↦ rw other (types_from-IsDistinct ts es phase d)
]

-- The types that are asked for in a phase are exactly those that have an executor in it, each once.
pub types_lem :
    (executors : List Executor) (phase : String)
    → ((type : String) → contains (types executors phase) type ≡ supports executors phase type)
      × IsDistinct (types executors phase)
unfolding types supports
types_lem executors phase =
    (contains-types_from [] executors phase, types_from-IsDistinct [] executors phase tt)

-- A heartbeat monitoring is passive: no phase has an executor for it.
pub heartbeat_unsupported :
    (checks : Checks) (phase : String)
    → supports (new_executor_registry checks) phase type_heartbeat ≡ false
unfolding supports find new_executor_registry
heartbeat_unsupported checks phase = ground arith

-- The timeout is cut to the range from 0 to 60 seconds.
abbrev pub IsCut : ℤ → ℤ → Type 0
IsCut timeout cut =
    ((timeout <ℤ pos 0) × (cut ≡ pos 0))
    ⊎ ((pos 60 <ℤ timeout) × (cut ≡ pos 60))
    ⊎ ((pos 0 ≤ℤ timeout) × (timeout ≤ℤ pos 60) × (cut ≡ timeout))

bounded_monitoring_timeout-IsCut :
    (timeout : ℤ) → IsCut timeout (bounded_monitoring_timeout timeout)
unfolding bounded_monitoring_timeout
bounded_monitoring_timeout-IsCut timeout = ground arith

-- The response of an executor as it is reported: with the interval of the monitoring, if that is positive.
abbrev pub IsReported :
    ℤ → Option MonitoringResponsePayload → Option MonitoringResponsePayload → Type 0
IsReported interval none reported = reported ≡ none
IsReported interval (some p) reported =
    ((pos 0 <ℤ interval) × (reported ≡ some (record p { check_interval_seconds = some interval })))
    ⊎ ((interval ≤ℤ pos 0) × (reported ≡ some p))

report_interval-IsReported :
    (m : Monitoring) (o : Option MonitoringResponsePayload)
    → IsReported m.check_interval_seconds o (report_interval m o)
unfolding report_interval set_interval
report_interval-IsReported m none = refl
report_interval-IsReported m (some p) = ground arith

-- An executor is registered for the type in the phase.
abbrev pub IsFor : String → String → Executor → Type 0
IsFor phase type e = (e.phase ≡ phase) × (contains e.monitoring_types type ≡ true)

-- The first executor for the type in the phase.
abbrev pub IsFirst : List Executor → String → String → Executor → Type 0
IsFirst executors phase type e =
    (before : List Executor) × (after : List Executor) × (executors ≡ before ++ e ∷ after)
    × All (λ d. ¬ IsFor phase type d) before
    × IsFor phase type e

not-IsFor :
    (d : Executor) (phase type : String)
    → (str_eq d.phase phase && contains d.monitoring_types type) ≡ false
    → ¬ IsFor phase type d
not-IsFor d phase type h fits = ground (arith, eq_iff d.phase phase, fits.0, fits.1)

find-IsFirst :
    (executors : List Executor) (phase type : String) (e : Executor)
    → find executors phase type ≡ some e
    → IsFirst executors phase type e
unfolding find
find-IsFirst [] phase type e h = absurd (ground arith)
find-IsFirst (d ∷ es) phase type e h =
    elim (Bool-cases (str_eq d.phase phase && contains d.monitoring_types type)) [
      | inl here ↦
          (let same : d ≡ e =
              grind (arith, sym (if_true _ (some d) (find es phase type) here) ∙ h) in
            subst (IsFirst (d ∷ es) phase type) same
              ([], es, refl, tt, (ground (arith, eq_iff d.phase phase), ground arith)))
      | inr not_here ↦
          (let (before, after, split, none_before, fits) =
              find-IsFirst es phase type e
                (sym (if_false _ (some d) (find es phase type) not_here) ∙ h) in
            (
              d ∷ before,
              after,
              ap (λ (xs : List Executor). d ∷ xs) split,
              (not-IsFor d phase type not_here, none_before),
              fits,
            ))
    ]

find-none :
    (executors : List Executor) (phase type : String)
    → find executors phase type ≡ none
    → All (λ d. ¬ IsFor phase type d) executors
unfolding find
find-none [] phase type h = tt
find-none (d ∷ es) phase type h =
    elim (Bool-cases (str_eq d.phase phase && contains d.monitoring_types type)) [
      | inl here ↦ absurd (grind (arith, sym (if_true _ (some d) (find es phase type) here) ∙ h))
      | inr not_here ↦ (
        not-IsFor d phase type not_here,
        find-none es phase type (sym (if_false _ (some d) (find es phase type) not_here) ∙ h),
      )
    ]

-- A monitoring is run by the first executor that is registered for its type in the phase, with its timeout
-- cut to the range from 0 to 60 seconds and else as it came; the SSL result and the domain result are
-- passed on unchanged, and so is the response but for the interval of the monitoring, which is added if it
-- is positive. Without such an executor there is no result.
pub execute_lem :
    (executors : List Executor) (phase : String) (m : Monitoring)
    → (All (λ e. ¬ IsFor phase m.type e) executors
        × (execute executors phase m ≡ (no_execution, false)))
      ⊎ ((e : Executor) × (timeout : ℤ) × (result : Execution) × IsFirst executors phase m.type e
          × IsCut m.timeout timeout
          × (e.execute (record m { timeout = timeout }) ≡ result)
          × ((execute executors phase m).1 ≡ true)
          × ((execute executors phase m).0.ssl ≡ result.ssl)
          × ((execute executors phase m).0.domain ≡ result.domain)
          × IsReported m.check_interval_seconds result.response
              (execute executors phase m).0.response)
unfolding execute run_executor
execute_lem executors phase m = elim (Option-cases (find executors phase m.type)) [
  | inl e ↦ inl (find-none executors phase m.type e, rw (e, execute))
  | inr (e, h) ↦
      (let cut = bounded_monitoring_timeout m.timeout in
        let result = e.execute (record m { timeout = cut }) in
        inr (
          e,
          cut,
          result,
          find-IsFirst executors phase m.type e h,
          bounded_monitoring_timeout-IsCut m.timeout,
          refl,
          rw (h, execute),
          rw (h, execute),
          rw (h, execute),
          rw (h, execute) (report_interval-IsReported (record m { timeout = cut }) result.response),
        ))
]
