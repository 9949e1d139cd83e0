-- ===== src/Runner/Lease.antt =====
-- internal/adapters/runner/job_leases.go: the work that Core leases to this instance.
pub mod Examples
pub mod Validate
pub mod Renewal
pub mod Publish
pub mod Job
pub mod Batch
