-- ===== src/Runner/Trace.antt =====
-- What a run does to the world, in the order in which it does it: the telemetry calls and the calls
-- of application.MonitoringGateway (internal/application/ports.go). Log lines are left out.
use webguard_instance.Base.{ℤ, String, List, [], ◌∷◌, ◌++◌, ◌≡◌, refl, ap}
use webguard_instance.Application.Telemetry.{Op}
use webguard_instance.Monitor.Types.{
  MonitoringResponsePayload, SslResultPayload, DomainResultPayload, CompleteMonitoringJobRequest,
  ReleaseMonitoringJobRequest, ExtendMonitoringJobRequest,
}

pub data Effect : Type 0 where
  tel : Op → Effect
  completes : String → String → CompleteMonitoringJobRequest → Effect
  releases : String → ReleaseMonitoringJobRequest → Effect
  extends : String → ExtendMonitoringJobRequest → ℤ → Effect
  posts_response : MonitoringResponsePayload → Effect
  posts_ssl : SslResultPayload → Effect
  posts_domain : DomainResultPayload → Effect

-- A value, with the effects on the way to it.
abbrev pub Traced {ℓ} : Type ℓ → Type ℓ
Traced A = A × List Effect

infixl 5 ◌>>=◌ ◌>>◌
abbrev pub ◌>>=◌ {ℓ κ} : {A : Type ℓ} {B : Type κ} → Traced A → (A → Traced B) → Traced B
◌>>=◌ m f = ((f m.0).0, m.1 ++ (f m.0).1)

abbrev pub ◌>>◌ {ℓ} : {B : Type ℓ} → Traced (Unit {0}) → Traced B → Traced B
◌>>◌ m k = (k.0, m.1 ++ k.1)

abbrev pub pure {ℓ} : {A : Type ℓ} → A → Traced A
pure a = (a, [])

abbrev pub emit : Effect → Traced (Unit {0})
emit e = (tt, e ∷ [])

abbrev pub note : Op → Traced (Unit {0})
note op = emit (tel op)

-- The telemetry calls of a trace.
abbrev pub ops : List Effect → List Op
ops [] = []
ops (tel op ∷ es) = op ∷ ops es
ops (e ∷ es) = ops es

pub ops-append : (xs ys : List Effect) → ops (xs ++ ys) ≡ ops xs ++ ops ys
ops-append [] ys = refl
ops-append (tel op ∷ xs) ys = ap (λ os. op ∷ os) (ops-append xs ys)
ops-append (completes i k r ∷ xs) ys = ops-append xs ys
ops-append (releases i r ∷ xs) ys = ops-append xs ys
ops-append (extends i r t ∷ xs) ys = ops-append xs ys
ops-append (posts_response p ∷ xs) ys = ops-append xs ys
ops-append (posts_ssl p ∷ xs) ys = ops-append xs ys
ops-append (posts_domain p ∷ xs) ys = ops-append xs ys
