-- ===== src/Runner/Lease/Job/Settlement.antt =====
-- How a claimed job is handed back to Core.
use webguard_instance.Base.{ℕ, if◌then◌else◌, ◌≡◌}
use webguard_instance.Monitor.Types.{ClaimedJob}
use webguard_instance.Runner.Execution.{Execution}
use webguard_instance.Runner.Trace.{Traced, ◌>>=◌}
use webguard_instance.Runner.Lease.Validate.{is_blank}
use webguard_instance.Runner.Lease.Publish.Laws.{settlements}

-- The number of settlements that a job calls for: one, unless it has no ID to name it by.
abbrev pub owed : ClaimedJob → ℕ
owed job = if is_blank job.id then 0 else 1

abbrev Settles : ClaimedJob → Traced (Unit {0}) → Type 0
Settles job m = settlements m.1 ≡ owed job
