-- ===== src/Health/Endpoints.antt =====
-- What the endpoints answer.
use webguard_instance.Base.{
  String, false, ◌≡◌, ◌≢◌, ◌↔◌, Option, none, some, sym, ◌∙◌, arith, eq_iff,
}
use webguard_instance.Application.Telemetry.{Telemetry}
use webguard_instance.Application.Telemetry.Snapshot.{
  SameMetrics, RangesOver, snapshot, view, snapshot-SameMetrics,
}
use webguard_instance.Health.Metrics.{Verbs, render_metrics}
use webguard_instance.Health.Metrics.Order.{render_metrics-SameMetrics, RangesOver-SameMetrics}
use webguard_instance.Health.{ReadinessFunc, Serving, new_handler}

-- The loops of a request run over maps with the entries of the telemetry.
pub record Serves (t : Telemetry) (w : Serving) : Type 0 where
  pub cloning_over : RangesOver (view t w.memory) w.cloning
  pub rendering_over : RangesOver (view t w.memory) w.rendering

body_lem :
    (v : Verbs) (t : Telemetry) (w : Serving)
    → Serves t w
    → render_metrics v (snapshot (some t) w.cloning w.memory) w.rendering
      ≡ render_metrics v (view t w.memory) w.rendering
body_lem v t w serves =
    let same = snapshot-SameMetrics t w.cloning w.memory serves.cloning_over in
    render_metrics-SameMetrics v (snapshot (some t) w.cloning w.memory) (view t w.memory)
      w.rendering w.rendering same
      (RangesOver-SameMetrics (snapshot (some t) w.cloning w.memory) (view t w.memory) w.rendering
        same serves.rendering_over)
      serves.rendering_over

-- Two requests for the same path with the same method get the same answer from counters that show the
-- same numbers and the same entries, whatever the order in which the loops over the maps run, both
-- when the maps are cloned and when their keys are collected.
pub new_handler-SameMetrics :
    (v : Verbs) (readiness : Option ReadinessFunc) (s t : Telemetry) (w x : Serving)
    (method path : String)
    → SameMetrics (view s w.memory) (view t x.memory)
    → Serves s w
    → Serves t x
    → new_handler v readiness (some s) w method path
      ≡ new_handler v readiness (some t) x method path
unfolding new_handler
new_handler-SameMetrics v readiness s t w x method path same serves_s serves_t =
    let body =
      body_lem v s w serves_s
      ∙ render_metrics-SameMetrics v (view s w.memory) (view t x.memory) w.rendering x.rendering
          same serves_s.rendering_over serves_t.rendering_over
      ∙ sym (body_lem v t x serves_t) in
    simp body

-- The status of an answer is 405 exactly for a method other than GET, 503 exactly for GET of /readyz
-- when a readiness is given that is a function which answers false, and else 200.
pub new_handler_status :
    (v : Verbs) (readiness : Option ReadinessFunc) (t : Option Telemetry) (w : Serving)
    (method path : String)
    → let status = (new_handler v readiness t w method path).status in
      ((status ≡ 405) ↔ (method ≢ "GET"))
      × ((status ≡ 503) ↔ ((method ≡ "GET") × (path ≡ "/readyz") × (readiness ≡ some (some false))))
      × ((status ≢ 405) → (status ≢ 503) → status ≡ 200)
unfolding new_handler
new_handler_status v none t w method path =
    ground (arith, eq_iff method "GET", eq_iff path "/readyz", eq_iff path "/metrics")
new_handler_status v (some none) t w method path =
    ground (arith, eq_iff method "GET", eq_iff path "/readyz", eq_iff path "/metrics")
new_handler_status v (some (some answer)) t w method path =
    ground (arith, eq_iff method "GET", eq_iff path "/readyz", eq_iff path "/metrics")
