-- ===== src/Application.antt =====
-- internal/application: telemetry counters, the phase coordinator, the execution controller and its
-- limiter.
pub mod Examples
pub mod Telemetry
pub mod Controller
pub mod Limiter
pub mod Context
pub mod Coordinator
