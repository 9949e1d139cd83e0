-- ===== src/Config/Ready.antt =====
-- When a configuration is ready to be run.
use webguard_instance.Base.{
  ℕ, String, true, false, Bool-cases, inl, inr, ◌≡◌, ◌↔◌, Option, none, some, ◌≤◌, arith,
  trim_space, refl,
}
use webguard_instance.Config.{
  Config, is_ready, is_blank, is_usable_key, is_supported_instance_api_base_path,
}

pub record IsReady (read : String → Option (ℕ × String)) (c : Config) : Type 0 where
  pub key_given : is_blank c.core_api_key_file ≡ true → is_blank c.core_api_key ≡ false
  pub file_usable :
      is_blank c.core_api_key_file ≡ false
      → (bytes : ℕ) × (content : String) × (read (trim_space c.core_api_key_file)
          ≡ some (bytes, content))
        × (bytes ≤ 8192)
        × (is_blank content ≡ false)
  pub url_given : is_blank c.core_api_url ≡ false
  pub location_given : is_blank c.location ≡ false
  pub path_supported : is_supported_instance_api_base_path c.instance_api_base_path ≡ true
  pub instance_given : c.job_leases_enabled ≡ true → is_blank c.instance_id ≡ false

is_usable_key-some :
    (file : Option (ℕ × String))
    → is_usable_key file ≡ true
    → (bytes : ℕ) × (content : String) × (file ≡ some (bytes, content))
      × (bytes ≤ 8192)
      × (is_blank content ≡ false)
unfolding is_usable_key
is_usable_key-some (some (bytes, content)) h = (bytes, content, refl, ground arith, ground arith)
is_usable_key-some none h = ground arith

some-is_usable_key :
    (bytes : ℕ) (content : String)
    → bytes ≤ 8192
    → is_blank content ≡ false
    → is_usable_key (some (bytes, content)) ≡ true
unfolding is_usable_key
some-is_usable_key bytes content l h = ground arith

is_ready-IsReady :
    (read : String → Option (ℕ × String)) (c : Config) → is_ready read c ≡ true → IsReady read c
unfolding is_ready
is_ready-IsReady read c h = record {
  key_given = λ e. ground arith;
  file_usable = λ e. is_usable_key-some (read (trim_space c.core_api_key_file)) (ground arith);
  url_given = ground arith;
  location_given = ground arith;
  path_supported = ground arith;
  instance_given = λ e. ground arith;
}

ready_with_file :
    (read : String → Option (ℕ × String)) (c : Config)
    → IsReady read c
    → is_blank c.core_api_key_file ≡ false
    → (bytes : ℕ) × (content : String) × (read (trim_space c.core_api_key_file)
        ≡ some (bytes, content))
      × (bytes ≤ 8192)
      × (is_blank content ≡ false)
    → is_ready read c ≡ true
unfolding is_ready
ready_with_file read c r given (bytes, content, eq, l, h) =
    let usable : is_usable_key (read (trim_space c.core_api_key_file)) ≡ true =
      rw eq (some-is_usable_key bytes content l h) in
    ground (arith, usable, given, r.instance_given)

IsReady-is_ready :
    (read : String → Option (ℕ × String)) (c : Config) → IsReady read c → is_ready read c ≡ true
unfolding is_ready
IsReady-is_ready read c r = elim (Bool-cases (is_blank c.core_api_key_file)) [
  | inl blank ↦ ground (arith, r.key_given blank, r.instance_given)
  | inr given ↦ ready_with_file read c r given (r.file_usable given)
]

-- A configuration is ready exactly when it has a URL, a location and a supported base path, a key or
-- a key file, an instance ID if job leases are enabled, and, if a key file is named, that file can
-- be read, has at most 8 KiB and is not blank.
pub is_ready_lem :
    (read : String → Option (ℕ × String)) (c : Config) → (is_ready read c ≡ true) ↔ IsReady read c
is_ready_lem read c = (is_ready-IsReady read c, IsReady-is_ready read c)
