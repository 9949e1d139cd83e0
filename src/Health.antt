-- ===== src/Health.antt =====
-- internal/adapters/health/operations.go: NewHandler and MetricsHandler; the rendering of the metrics
-- is in Metrics. http.ServeMux routes a clean path: a pattern matches the path that is spelled so,
-- and "/" every other. A Response is what the handler hands to its writer.
pub mod Metrics
pub mod Endpoints
pub mod Examples
use webguard_instance.Base.{
  ℕ, String, Bool, true, false, not, ◌&&◌, ◌||◌, Option, none, some, List, str_eq, if◌then◌else◌,
}
use webguard_instance.Application.Telemetry.{Telemetry}
use webguard_instance.Application.Telemetry.Snapshot.{Memory, Ranges, snapshot}
use webguard_instance.Health.Metrics.{Verbs, render_metrics}

pub record Response : Type 0 where
  pub status : ℕ
  pub content_type : Option String
  pub body : String

-- A ReadinessFunc is nil or answers when it is called.
abbrev pub ReadinessFunc : Type 0
ReadinessFunc = Option Bool

unfoldable pub ready : ReadinessFunc → Bool
ready none = true
ready (some answer) = answer

abbrev status_only : ℕ → Response
status_only status = record { status = status; content_type = none; body = "" }

abbrev plain : ℕ → String → Response
plain status body = record { status = status; content_type = none; body = body }

-- request.Method == http.MethodGet, or 405
abbrev only_get : String → Response → Response
only_get method r = if str_eq method "GET" then r else status_only 405

unfoldable pub live_response : String → Response
live_response method = only_get method (plain 200 "ok")

-- A Readiness is nil or there.
unfoldable pub ready_response : Option ReadinessFunc → String → Response
unfolding ready
ready_response readiness method = only_get method (elim readiness [
  | none ↦ plain 200 "ok"
  | some f ↦ if not (ready f) then plain 503 "not ready" else plain 200 "ok"
])

-- What the runtime decides while the metrics are served: its numbers, and the orders of the loops over
-- the maps of the telemetry and over those of the snapshot.
pub record Serving : Type 0 where
  pub memory : Memory
  pub cloning : Ranges
  pub rendering : Ranges

unfoldable pub metrics_handler : Verbs → Option Telemetry → Serving → String → Response
unfolding snapshot render_metrics
metrics_handler v telemetry w method = only_get method (record {
  status = 200;
  content_type = some "text/plain; version=0.0.4; charset=utf-8";
  body = render_metrics v (snapshot telemetry w.cloning w.memory) w.rendering;
})

-- NewHandler: the answer to a request of a method for a path.
unfoldable pub new_handler :
    Verbs → Option ReadinessFunc → Option Telemetry → Serving → String → String → Response
unfolding live_response ready_response metrics_handler
new_handler v readiness telemetry w method path =
    if str_eq path "/readyz"
    then ready_response readiness method
    else if str_eq path "/metrics"
    then metrics_handler v telemetry w method
    else live_response method
