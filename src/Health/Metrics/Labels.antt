-- ===== src/Health/Metrics/Labels.antt =====
-- The labels of the executor outcomes: a key of the telemetry is taken apart where it was put together.
use webguard_instance.Base.{
  ℕ, Bool, false, ◌&&◌, str_eq, ap, ◌∙◌, contains, Option, u64, String, true, some, List, [], ◌∷◌,
  ◌≡◌, ◌≢◌, refl, sym, arith, All, is_some, eq_iff, ◌+s◌,
}
use webguard_instance.Base.Dict.{get}
use webguard_instance.Base.Cut.{cut, Avoids, cut-join}
use webguard_instance.Application.Telemetry.{
  Telemetry, Op, finishes, drops, queues, apply_all, new_telemetry,
}
use webguard_instance.Application.Telemetry.Tallies.{tally, calls, ends_as, apply_all-Tallies}
use webguard_instance.Health.Metrics.{
  Verbs, sample, counter_value, label, split_line, write_split_counter, render_jobs, render_metrics,
  render_runs, render_scheduler, render_core, render_leases, render_process,
}
use webguard_instance.Health.Metrics.Lines.{
  Writes, Writes-left, Writes-right, each-Writes, concat-Writes,
}
use webguard_instance.Base.Range.{Visits, copy_into-SameMap, each_sorted}
use webguard_instance.Base.Order.Laws.{contains-sort}
use webguard_instance.Base.Order.{sort}
use webguard_instance.Application.Telemetry.Snapshot.{
  TelemetrySnapshot, Memory, Ranges, snapshot, clone_map,
}

-- The phase of a call that ends or drops a job has no slash, as those of the program have none.
abbrev pub HasPlainPhase : Op → Type 0
HasPlainPhase (finishes phase outcome duration) = Avoids "/" phase
HasPlainPhase (drops phase outcome) = Avoids "/" phase
HasPlainPhase _ = Unit

-- Calls that end or drop a job of the phase with the outcome.
abbrev pub ends : String → String → Op → Bool
ends phase outcome (finishes p o duration) = str_eq p phase && str_eq o outcome
ends phase outcome (drops p o) = str_eq p phase && str_eq o outcome
ends phase outcome _ = false

both : {a b : Bool} → (a ≡ true → b ≡ true) → (b ≡ true → a ≡ true) → a ≡ b
both {a = true} {b = true} f g = refl
both {a = true} {b = false} f g = sym (f refl)
both {a = false} {b = true} f g = g refl
both {a = false} {b = false} f g = refl

some_pair :
    (p q o r : String)
    → ◌≡◌ {A = Option (String × String)} (some (p, o)) (some (q, r))
    → (p ≡ q) × (o ≡ r)
some_pair p q o r h = ground arith

-- Two pairs of a phase and an outcome have one key only if they are the same.
same_key :
    (p o phase outcome : String)
    → Avoids "/" p
    → Avoids "/" phase
    → str_eq (p +s "/" +s o) (phase +s "/" +s outcome) ≡ (str_eq p phase && str_eq o outcome)
same_key p o phase outcome hp hq =
    let joined = cut-join "/" "" p o hp in
    let other = cut-join "/" "" phase outcome hq in
    both
      (λ h.
        let pair = sym joined ∙ ap (cut "/") ((eq_iff _ _).0 h) ∙ other in
        let (same_phase, same_outcome) = some_pair p phase o outcome pair in
        ground (arith, same_phase, same_outcome, eq_iff p phase, eq_iff o outcome))
      (λ h.
        let p_same : p ≡ phase = ground (arith, eq_iff p phase) in
        let o_same : o ≡ outcome = ground (arith, eq_iff o outcome) in
        (eq_iff _ _).1 (ap (λ t. t +s "/" +s o) p_same ∙ ap (λ t. phase +s "/" +s t) o_same))

ends_as-ends :
    (phase outcome : String) (op : Op)
    → Avoids "/" phase
    → HasPlainPhase op
    → ends_as (phase +s "/" +s outcome) op ≡ ends phase outcome op
ends_as-ends phase outcome (finishes p o duration) h plain = same_key p o phase outcome plain h
ends_as-ends phase outcome (drops p o) h plain = same_key p o phase outcome plain h
ends_as-ends phase outcome queues h plain = refl
ends_as-ends phase outcome _ h plain = refl

calls-ends :
    (phase outcome : String) (history : List Op)
    → Avoids "/" phase
    → All HasPlainPhase history
    → calls (ends_as (phase +s "/" +s outcome)) history ≡ calls (ends phase outcome) history
unfolding calls
calls-ends phase outcome [] h plain = refl
calls-ends phase outcome (op ∷ ops) h (plain, rest) =
    let same = ends_as-ends phase outcome op h plain in
    let later = calls-ends phase outcome ops h rest in rw same (omega (arith, later))

some-tally : (n : ℕ) → n ≢ 0 → tally n ≡ some (u64 n)
some-tally n h = ground arith

-- The line of the metrics on the jobs that ended so.
abbrev pub outcome_line : Verbs → String → String → ℕ → String
outcome_line v phase outcome n =
    sample
      ("webguard_instance_executor_outcomes_total"
        +s "{"
        +s label v "phase" phase
        +s ","
        +s label v "outcome" outcome
        +s "}")
      (counter_value (u64 n))

render_jobs-Writes :
    (v : Verbs) (s : TelemetrySnapshot) (order : Ranges) (line : String)
    → Writes
        (write_split_counter v "webguard_instance_executor_outcomes_total" s.executors
          order.executors "phase" "outcome")
        line
    → Writes (render_jobs v s order) line
unfolding render_jobs
render_jobs-Writes v s order line w =
    Writes-right (_ ∷ _ ∷ []) _ line (Writes-left _ _ line (Writes-left _ _ line w))

render_metrics-Writes :
    (v : Verbs) (s : TelemetrySnapshot) (order : Ranges) (line : String)
    → Writes (render_jobs v s order) line
    → (before : String) × (after : String) × (render_metrics v s order ≡ before +s line +s after)
unfolding render_metrics
render_metrics-Writes v s order line w = concat-Writes _ line (
    Writes-left _ (render_process s.memory) line (
      Writes-left _ (render_leases v s order) line (
        Writes-left _ (render_core v s order) line (
          Writes-left _ (render_scheduler v s order) line
            (Writes-right (render_runs v s order) (render_jobs v s order) line w)))))

module _ (v : Verbs) (history : List Op) (phase outcome : String) (memory : Memory)
    (cloning rendering : Ranges) where
  abbrev counted : Telemetry
  counted = apply_all new_telemetry history

  abbrev pub rendered : String
  rendered = render_metrics v (snapshot (some counted) cloning memory) rendering

  abbrev key : String
  key = phase +s "/" +s outcome

  key_line :
      (n : ℕ)
      → Avoids "/" phase
      → split_line v "webguard_instance_executor_outcomes_total" "/" "phase" "outcome" key
          (some (u64 n))
        ≡ outcome_line v phase outcome n ∷ []
  unfolding split_line
  key_line n h = rw (cut-join "/" "" phase outcome h, split_line)

  shown :
      All HasPlainPhase history
      → Avoids "/" phase
      → calls (ends phase outcome) history ≢ 0
      → get counted.executors key ≡ some (u64 (calls (ends phase outcome) history))
  shown plain h some_call =
      (apply_all-Tallies history).executors key
      ∙ ap tally (calls-ends phase outcome history h plain)
      ∙ some-tally (calls (ends phase outcome) history) some_call

  -- After any history of calls, in which no phase has a slash, and for every outcome and every phase without
  -- a slash with which the history has ended or dropped a job, the text that RenderMetrics makes of a
  -- snapshot has the line of the executor outcomes with this phase, this outcome and the number of these
  -- calls modulo 2^64, if the loops over the executors visit each of their keys once.
  pub executors_labeled :
      All HasPlainPhase history
      → Avoids "/" phase
      → calls (ends phase outcome) history ≢ 0
      → Visits (apply_all new_telemetry history).executors cloning.executors
      → Visits (apply_all new_telemetry history).executors rendering.executors
      → (before : String) × (after : String) × (rendered
          ≡ before +s outcome_line v phase outcome (calls (ends phase outcome) history) +s after)
  unfolding write_split_counter each_sorted snapshot
  executors_labeled plain h some_call cloned visited =
      let n = calls (ends phase outcome) history in
      let there = shown plain h some_call in
      let copied = copy_into-SameMap counted.executors cloning.executors cloned key in
      let met : contains (sort rendering.executors) key ≡ true =
        contains-sort rendering.executors key
        ∙ visited.1 key
        ∙ ap (λ (o : Option ℕ). is_some o) there in
      let written =
        each-Writes
          (λ k.
            split_line v "webguard_instance_executor_outcomes_total" "/" "phase" "outcome" k
              (get (clone_map counted.executors cloning.executors) k))
          (sort rendering.executors) key (outcome_line v phase outcome n) met
          (ap (split_line v "webguard_instance_executor_outcomes_total" "/" "phase" "outcome" key)
              (copied ∙ there)
            ∙ key_line n h) in
      render_metrics-Writes v (snapshot (some counted) cloning memory) rendering
        (outcome_line v phase outcome n)
        (render_jobs-Writes v (snapshot (some counted) cloning memory) rendering
          (outcome_line v phase outcome n) written)
