-- ===== src/Runner/Cadence/Interval.antt =====
-- The interval between two checks of a monitoring.
use webguard_instance.Base.{pos, ◌*ℤ◌, ◌≤ℤ◌, ◌<ℤ◌, ◌≡◌, arith, wrap64, ◌*◌, pos_part}
use webguard_instance.Base.Time.{seconds, minute}
use webguard_instance.Monitor.Types.{Monitoring}
use webguard_instance.Runner.Cadence.{response_check_interval}

-- While the seconds fit into a duration (about 292 years), the interval is the configured one, or
-- five minutes if less than a minute is configured, and never less than a minute.
pub response_check_interval_lem :
    (m : Monitoring)
    → m.check_interval_seconds ≤ℤ pos 9223372036
    → (minute ≤ℤ response_check_interval m)
      × (pos 60 ≤ℤ m.check_interval_seconds
          → response_check_interval m ≡ pos (pos_part m.check_interval_seconds * 1000000000))
      × (m.check_interval_seconds <ℤ pos 60 → response_check_interval m ≡ pos 300000000000)
unfolding response_check_interval seconds ◌*ℤ◌ wrap64
response_check_interval_lem m h = ground arith
