-- ===== src/Config.antt =====
-- internal/config/config.go. The environment variables are a function from names to texts, empty
-- where unset; reading the key file is a parameter too, `none` where opening, reading or closing it
-- fails, and at most one byte more than the limit is read.
pub mod Examples
pub mod Bounds
pub mod Ready
use webguard_instance.Base.{
  ℕ, ℤ, pos, min_ℤ, max_ℤ, String, Bool, true, false, not, ◌&&◌, ◌||◌, Option, none, some, List, [],
  ◌∷◌, ◌==◌, codes, codes_eq, lower, trim_space, str_eq, ltb, if◌then◌else◌, ◌+s◌,
}
use webguard_instance.Base.Chars.{trim, is_slash}
use webguard_instance.Base.Time.{seconds}
use webguard_instance.Monitor.Numbers.{parse_int}

pub record Config : Type 0 where
  pub core_api_key : String
  pub core_api_key_file : String
  pub core_api_url : String
  pub instance_api_base_path : String
  pub location : String
  pub instance_id : String
  pub queue_default_workers : ℤ
  pub run_max_concurrency : ℤ
  pub job_leases_enabled : Bool
  pub job_leases_dual_write : Bool
  pub job_lease_max_batch : ℤ
  pub allow_private_targets : Bool
  pub shutdown_drain_timeout : ℤ
  pub address : String

unfoldable pub clamp : ℤ → ℤ → ℤ → ℤ
unfolding min_ℤ max_ℤ
clamp value minimum maximum = min_ℤ maximum (max_ℤ minimum value)

unfoldable pub env : (String → String) → String → String → String
env getenv key fallback = if str_eq (getenv key) "" then fallback else getenv key

or_fallback : ℤ → Option ℤ → ℤ
or_fallback fallback none = fallback
or_fallback fallback (some n) = n

-- strconv.Atoi reads what ParseInt reads in base 10 for a 64-bit int.
unfoldable pub env_int : (String → String) → String → ℤ → ℤ
unfolding or_fallback
env_int getenv key fallback =
    if str_eq (getenv key) "" then fallback else or_fallback fallback (parse_int (getenv key))

bool_token : List ℕ → Bool → Bool
bool_token raw fallback =
    if codes_eq raw (codes "1")
      || codes_eq raw (codes "true")
      || codes_eq raw (codes "yes")
      || codes_eq raw (codes "on")
    then true
    else if codes_eq raw (codes "0")
        || codes_eq raw (codes "false")
        || codes_eq raw (codes "no")
        || codes_eq raw (codes "off")
    then false
    else fallback

-- The empty text is no token, so it gives the fallback as well.
unfoldable pub env_bool : (String → String) → String → Bool → Bool
unfolding bool_token
env_bool getenv key fallback = bool_token (lower (codes (trim_space (getenv key)))) fallback

unfoldable pub from_env : (String → String) → Config
from_env getenv =
    let port = env getenv "PORT" "8080" in
    let drain = max_ℤ (pos 1) (env_int getenv "SHUTDOWN_DRAIN_TIMEOUT_SECONDS" (pos 10)) in
    let workers = clamp (env_int getenv "QUEUE_DEFAULT_WORKERS" (pos 3)) (pos 1) (pos 64) in
    record {
      core_api_key = env getenv "WEBGUARD_CORE_API_KEY" "";
      core_api_key_file = env getenv "WEBGUARD_CORE_API_KEY_FILE" "";
      core_api_url = env getenv "WEBGUARD_CORE_API_URL" "";
      instance_api_base_path = env getenv "WEBGUARD_INSTANCE_API_BASE_PATH" "/api/instances";
      location = env getenv "WEBGUARD_LOCATION" "";
      instance_id = env getenv "WEBGUARD_INSTANCE_ID" "";
      queue_default_workers = workers;
      run_max_concurrency = clamp (env_int getenv "RUN_MAX_CONCURRENCY" workers) (pos 1) (pos 64);
      job_leases_enabled = env_bool getenv "WEBGUARD_JOB_LEASES_ENABLED" false;
      job_leases_dual_write = env_bool getenv "WEBGUARD_JOB_LEASES_DUAL_WRITE" false;
      job_lease_max_batch =
          clamp (env_int getenv "WEBGUARD_JOB_LEASE_MAX_BATCH" workers) (pos 1) (pos 256);
      allow_private_targets = env_bool getenv "WEBGUARD_ALLOW_PRIVATE_TARGETS" false;
      shutdown_drain_timeout = seconds drain;
      address = env getenv "BIND_ADDRESS" (":" +s port);
    }

unfoldable pub is_supported_instance_api_base_path : String → Bool
unfolding trim trim_space
is_supported_instance_api_base_path path =
    str_eq ("/" +s trim is_slash (trim_space path)) "/api/instances"

abbrev pub is_blank : String → Bool
is_blank s = str_eq (trim_space s) ""

-- The content that was read of the key file, with its length in bytes.
unfoldable pub is_usable_key : Option (ℕ × String) → Bool
is_usable_key none = false
is_usable_key (some (bytes, content)) = not (ltb 8192 bytes || is_blank content)

unfoldable pub is_ready : (String → Option (ℕ × String)) → Config → Bool
is_ready read c =
    let key_file = trim_space c.core_api_key_file in
    if is_blank c.core_api_key && is_blank c.core_api_key_file
    then false
    else if not (str_eq key_file "") && not (is_usable_key (read key_file))
    then false
    else if is_blank c.core_api_url || is_blank c.location
    then false
    else if not (is_supported_instance_api_base_path c.instance_api_base_path)
    then false
    else not c.job_leases_enabled || not (is_blank c.instance_id)
