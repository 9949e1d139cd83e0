-- ===== src/Runner.antt =====
-- internal/adapters/runner: cadence and phase schedule, idempotency keys, the executor registry, the
-- lease protocol, and the phases of a run without leases.
pub mod Cadence
pub mod Idempotency
pub mod Execution
pub mod Registry
pub mod Trace
pub mod Dns
pub mod Http
pub mod Checks
pub mod Samples
pub mod Examples
pub mod Lease
pub mod Legacy
pub mod Service
pub mod Gateway
