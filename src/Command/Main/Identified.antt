-- ===== src/Command/Main/Identified.antt =====
-- What the checks of readiness mean for the client that main builds.
use webguard_instance.Base.{
  ℕ, String, true, false, Bool-cases, inl, inr, Option, some, List, ◌≡◌, ◌≢◌, refl, ap, sym, arith,
  subst, str_eq, eq_iff, eq_refl, ◌+s◌, trim_space, if_elim,
}
use webguard_instance.Base.Result.{Result, ok}
use webguard_instance.Base.Chars.{trim, is_slash}
use webguard_instance.Config.{Config, is_ready, is_blank, is_supported_instance_api_base_path}
use webguard_instance.Config.Ready.{IsReady, is_ready_lem}
use webguard_instance.Monitor.Types.{Monitoring}
use webguard_instance.CoreApi.{
  Client, Library, Payload, Request, Failure, KeyFile, configured_api_key,
  normalize_instance_api_path, set_instance_api_path, new_client, with_path, path_or_empty,
  new_client_with_instance_api_path, set_api_key_file,
}
use webguard_instance.CoreApi.Calls.{Answer}
use webguard_instance.CoreApi.Http.{new_request}
use webguard_instance.CoreApi.Http.Sound.{new_request-IsBuilt}
use webguard_instance.CoreApi.Monitorings.{get_monitorings, all_types}
use webguard_instance.Command.Main.{core_client}

normalize-supported :
    (path : String)
    → is_supported_instance_api_base_path path ≡ true
    → normalize_instance_api_path path ≡ ok "/api/instances"
unfolding is_supported_instance_api_base_path normalize_instance_api_path
normalize-supported path h =
    let normalized = "/" +s trim is_slash (trim_space path) in
    let same = (eq_iff normalized "/api/instances").0 h in
    if_elim (λ (r : Result Failure String). r ≡ ok "/api/instances")
      (str_eq normalized "/api/instances") _ _ (λ equal. ap ok same)
      (λ different. absurd (ground arith))

-- The client of a configuration whose path is supported.
abbrev usual_client : Config → Client
usual_client cfg = record (new_client cfg.core_api_url cfg.core_api_key cfg.location) {
  api_key_file = trim_space cfg.core_api_key_file;
  instance_api_path = "/api/instances";
}

core_client-usual :
    (cfg : Config)
    → is_supported_instance_api_base_path cfg.instance_api_base_path ≡ true
    → core_client cfg ≡ usual_client cfg
unfolding core_client new_client_with_instance_api_path set_api_key_file set_instance_api_path
    with_path path_or_empty
core_client-usual cfg h =
    ap
      (λ (n : Result Failure String).
        set_api_key_file
          (path_or_empty (with_path (new_client cfg.core_api_url cfg.core_api_key cfg.location) n))
          cfg.core_api_key_file)
      (normalize-supported cfg.instance_api_base_path h)

file_key_given :
    (c : Client) (file : KeyFile) (bytes : ℕ) (content key : String)
    → str_eq c.api_key_file "" ≡ false
    → file ≡ some (bytes, content)
    → is_blank content ≡ false
    → configured_api_key c file ≡ ok key
    → key ≢ ""
unfolding configured_api_key
file_key_given c file bytes content key given same full h =
    let known : configured_api_key c (some (bytes, content)) ≡ ok key =
      subst (λ (f : KeyFile). configured_api_key c f ≡ ok key) same h in
    λ empty. ground (arith, known, eq_iff key "")

own_key_given :
    (c : Client) (file : KeyFile) (key : String)
    → str_eq c.api_key_file "" ≡ true
    → str_eq c.api_key "" ≡ false
    → configured_api_key c file ≡ ok key
    → key ≢ ""
unfolding configured_api_key
own_key_given c file key blank given h = λ empty. ground (arith, eq_iff c.api_key "", eq_iff key "")

usual_key_given :
    (read : String → KeyFile) (cfg : Config) (key : String)
    → IsReady read cfg
    → configured_api_key (usual_client cfg) (read (usual_client cfg).api_key_file) ≡ ok key
    → key ≢ ""
unfolding new_client
usual_key_given read cfg key ready h = elim (Bool-cases (is_blank cfg.core_api_key_file)) [
  | inl blank ↦ own_key_given (usual_client cfg) _ key blank (ready.key_given blank) h
  | inr given ↦
      (let (bytes, content, same, few, full) = ready.file_usable given in
        file_key_given (usual_client cfg) _ bytes content key given same full h)
]

-- What the client of a ready configuration sends and asks for.
abbrev Identified : (String → KeyFile) → Config → Client → Type 0
Identified read cfg c =
    (lib : Library) (method path : String) (query : Option (List (String × String))) (p : Payload)
    (r : Request)
    → new_request lib c (read c.api_key_file) method path query p ≡ ok r
    → (r.key ≢ "") × (r.code ≡ trim_space cfg.location) × (r.code ≢ "")

usual-Identified :
    (read : String → KeyFile) (cfg : Config)
    → IsReady read cfg
    → Identified read cfg (usual_client cfg)
unfolding new_client
usual-Identified read cfg ready lib method path query p r h =
    let built = new_request-IsBuilt lib (usual_client cfg) _ method path query p r h in
    (
      usual_key_given read cfg r.key ready built.key_same,
      built.code_same,
      λ empty.
          ground
            (arith, built.code_same, ready.location_given, eq_iff (trim_space cfg.location) ""),
    )

-- The guards of GetMonitorings let the configured location through.
usual_listing :
    (read : String → KeyFile) (cfg : Config) (lib : Library)
    (decode : String → Result String (List Monitoring)) (answers : String → Answer)
    (types : List String)
    → IsReady read cfg
    → get_monitorings lib (usual_client cfg) decode answers cfg.location types
      ≡ all_types lib (usual_client cfg) decode answers (trim_space cfg.location) types
unfolding get_monitorings new_client
usual_listing read cfg lib decode answers types ready =
    rw ready.location_given (rw (eq_refl (trim_space cfg.location)) refl)

-- If the configuration is ready, and the key file is as it was when that was found, then every request
-- that the client of main builds carries a key and, as the instance code, the configured location without
-- surrounding space, which is not empty; the client's base path is /api/instances, and its checks of the
-- location do not stop a list of monitorings for the configured location.
pub core_client_lem :
    (read : String → KeyFile) (cfg : Config) (lib : Library) (method path : String)
    (query : Option (List (String × String))) (p : Payload) (r : Request)
    (decode : String → Result String (List Monitoring)) (answers : String → Answer)
    (types : List String)
    → is_ready read cfg ≡ true
    → new_request lib (core_client cfg) (read (core_client cfg).api_key_file) method path query p
      ≡ ok r
    → (r.key ≢ "")
      × (r.code ≡ trim_space cfg.location)
      × (r.code ≢ "")
      × ((core_client cfg).instance_api_path ≡ "/api/instances")
      × (get_monitorings lib (core_client cfg) decode answers cfg.location types
          ≡ all_types lib (core_client cfg) decode answers (trim_space cfg.location) types)
core_client_lem read cfg lib method path query p r decode answers types h built =
    let ready = (is_ready_lem read cfg).0 h in
    let usual = sym (core_client-usual cfg ready.path_supported) in
    let sent =
      subst (Identified read cfg) usual (usual-Identified read cfg ready) lib method path query p r
        built in
    (
      sent.0,
      sent.1,
      sent.2,
      sym (ap (λ (c : Client). c.instance_api_path) usual),
      subst
          (λ (c : Client).
            get_monitorings lib c decode answers cfg.location types
            ≡ all_types lib c decode answers (trim_space cfg.location) types)
          usual (usual_listing read cfg lib decode answers types ready),
    )
