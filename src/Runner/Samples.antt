-- ===== src/Runner/Samples.antt =====
-- Data that the examples share: monitorings, claimed jobs, and what one environment decides.
use webguard_instance.Base.{pos, String, true, false, none, some, [], ◌∷◌}
use webguard_instance.Monitor.Types.{Monitoring, ClaimedJob, nil_value, status_up, type_http}
use webguard_instance.Runner.Execution.{Execution, response_execution}
use webguard_instance.Runner.Registry.{Checks, new_executor_registry}
use webguard_instance.Runner.Idempotency.{Bytes16}
use webguard_instance.Runner.Lease.Job.{Env}

abbrev pub sample_key : String
sample_key = "01234567-89ab-4cde-8f01-23456789abcd"

abbrev pub sample_monitoring : Monitoring
sample_monitoring = record {
  id = "m-1";
  type = type_http;
  preferred_location = "de-1";
  preferred_locations = [];
  target = "https://example.org";
  timeout = pos 90;
  check_interval_seconds = pos 60;
  last_response_at = none;
  http_method = "get";
  http_body = nil_value;
  http_headers = nil_value;
  auth_username = "";
  auth_password = "";
  keyword = "";
  port = pos 0;
  dns_record_type = "";
  dns_expected_values = [];
  heartbeat_interval_minutes = none;
  heartbeat_grace_minutes = none;
  heartbeat_last_ping_at = none;
  maintenance_active = false;
}

abbrev pub sample_job : ClaimedJob
sample_job = record {
  id = "job-1";
  phase = "response";
  lease_expires_at = pos 120000000000;
  attempt = pos 2;
  idempotency_key = sample_key;
  monitoring = sample_monitoring;
}

-- A job that Core sent without an ID.
abbrev pub nameless_job : ClaimedJob
nameless_job = record sample_job { id = " " }

abbrev pub checked : Monitoring → Execution
checked m = response_execution m.id status_up none (some (pos 200))

abbrev pub sample_checks : Checks
sample_checks = record {
  http = checked;
  ping = checked;
  keyword = checked;
  port = checked;
  dns_record = checked;
  ssl = checked;
  domain_expiration = checked;
}

abbrev pub sample_bytes : Bytes16
sample_bytes = record {
  b0 = 1;
  b1 = 35;
  b2 = 69;
  b3 = 103;
  b4 = 137;
  b5 = 171;
  b6 = 205;
  b7 = 239;
  b8 = 1;
  b9 = 35;
  b10 = 69;
  b11 = 103;
  b12 = 137;
  b13 = 171;
  b14 = 205;
  b15 = 255;
}

-- The lease is extended once, the slot is got, and Core accepts the result.
abbrev pub sample_env : Env
sample_env = record {
  dual_write = true;
  executors = new_executor_registry sample_checks;
  checked_at = pos 60000000000;
  waited = pos 1000;
  elapsed = pos 2000;
  random = some sample_bytes;
  complete_accepted = true;
  release_accepted = true;
  rounds =
      record {
        now = pos 90000000000;
        canceled = false;
        reply = some (pos 240000000000);
        replied_at = pos 91000000000;
      }
      ∷ [];
  last_look = pos 92000000000;
  stopped_at = pos 93000000000;
  slot_acquired = true;
  parent_canceled = false;
}
