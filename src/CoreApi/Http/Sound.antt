-- ===== src/CoreApi/Http/Sound.antt =====
-- What a request is made of that newRequest of internal/adapters/coreapi/client.go returns.
use webguard_instance.Base.{
  String, false, Option, List, str_eq, eq_iff, ◌+s◌, ◌≡◌, ◌≢◌, ◌⊎◌, refl, ap, ◌∙◌, subst, arith,
}
use webguard_instance.Base.Result.{Result, ok, err, bind_inv, guard_inv, ok_inj}
use webguard_instance.Target.{Url}
use webguard_instance.CoreApi.{
  Client, message, Payload, Request, Library, KeyFile, as_failure, check_endpoint,
  configured_api_key,
}
use webguard_instance.CoreApi.Http.{new_request, with_query, body_of, built, accepted_request}

-- An endpoint of Core that the client agrees to talk to.
pub record IsEndpoint (u : Url) : Type 0 where
  pub scheme_http : (u.scheme ≡ "http") ⊎ (u.scheme ≡ "https")
  pub host_given : u.host ≢ ""
  pub no_user : u.user ≡ false
  pub no_query : u.raw_query ≡ ""
  pub no_fragment : u.fragment ≡ ""

check_endpoint-ok : (u v : Url) → check_endpoint u ≡ ok v → (u ≡ v) × IsEndpoint u
unfolding check_endpoint
check_endpoint-ok u v h = (
  ground arith,
  record {
    scheme_http = ground (arith, eq_iff u.scheme "http", eq_iff u.scheme "https");
    host_given = ground (arith, eq_iff u.host "");
    no_user = ground arith;
    no_query = ground (arith, eq_iff u.raw_query "");
    no_fragment = ground (arith, eq_iff u.fragment "");
  },
)

as_failure-ok : {A : Type 0} (r : Result String A) (a : A) → as_failure r ≡ ok a → r ≡ ok a
unfolding as_failure
as_failure-ok (ok b) a h = ap ok (ok_inj h)
as_failure-ok (err e) a h = grind arith

-- A request that is built goes to the endpoint and carries what the arguments say.
pub record IsBuilt (lib : Library) (c : Client) (file : KeyFile) (method path : String)
    (query : Option (List (String × String))) (p : Payload) (r : Request) : Type 0 where
  pub endpoint : Url
  pub parsed : lib.parse_url (c.base_url +s path) ≡ ok endpoint
  pub fine : IsEndpoint endpoint
  pub url_same : r.url ≡ with_query lib query endpoint
  pub method_same : r.method ≡ method
  pub body_same : body_of lib p ≡ ok r.body
  pub key_same : configured_api_key c file ≡ ok r.key
  pub code_same : r.code ≡ c.instance_code

pub new_request-IsBuilt :
    (lib : Library) (c : Client) (file : KeyFile) (method path : String)
    (query : Option (List (String × String))) (p : Payload) (r : Request)
    → new_request lib c file method path query p ≡ ok r
    → IsBuilt lib c file method path query p r
unfolding new_request built
new_request-IsBuilt lib c file method path query p r h =
    let (u, h1) =
      guard_inv (str_eq c.base_url "") (message "WEBGUARD_CORE_API_URL is empty") {a = r} h in
    let (v, h2) =
      guard_inv (str_eq c.instance_api_path "")
        (message "WEBGUARD_INSTANCE_API_BASE_PATH is invalid") {a = r} h1 in
    let (parsed, parse, h3) = bind_inv (as_failure (lib.parse_url (c.base_url +s path))) h2 in
    let (endpoint, check, h4) = bind_inv (check_endpoint parsed) h3 in
    let (body, coded, h5) = bind_inv (body_of lib p) h4 in
    let (done, passed, h6) =
      bind_inv (accepted_request (lib.request_error method (with_query lib query endpoint))) h5 in
    let (key, keyed, h7) = bind_inv (configured_api_key c file) h6 in
    let (same, fine) = check_endpoint-ok parsed endpoint check in
    subst (IsBuilt lib c file method path query p) (ok_inj h7) (record {
      endpoint = endpoint;
      parsed = as_failure-ok _ _ parse ∙ ap ok same;
      fine = subst IsEndpoint same fine;
      url_same = refl;
      method_same = refl;
      body_same = coded;
      key_same = keyed;
      code_same = refl;
    })
