-- ===== src/CoreApi/Monitorings.antt =====
-- GetMonitorings of internal/adapters/coreapi/client.go.
pub mod Listing
pub mod Once
use webguard_instance.Base.{
  String, not, some, List, [], ◌∷◌, ◌++◌, contains, str_eq, trim_space, if◌then◌else◌,
}
use webguard_instance.Base.Result.{Result, ok, err}
use webguard_instance.Monitor.Types.{Monitoring}
use webguard_instance.CoreApi.{Client, message, no_body, Library, Sending, instance_api_endpoint}
use webguard_instance.CoreApi.Http.{new_request}
use webguard_instance.CoreApi.Calls.{Answer, send}

module _ (lib : Library) (c : Client) where
  -- The query is empty of a type where none is asked for.
  monitorings_query : String → String → List (String × String)
  monitorings_query location type =
      if str_eq type ""
      then ("location", location) ∷ []
      else ("location", location) ∷ ("type", type) ∷ []

  unfoldable pub fetch_monitorings :
      (String → Result String (List Monitoring))
      → Answer
      → String
      → String
      → Sending (List Monitoring)
  unfolding send new_request monitorings_query instance_api_endpoint
  fetch_monitorings decode a location type = send decode [] "get_monitorings" a.reply (
      new_request lib c a.file "GET" (instance_api_endpoint c "/monitorings")
        (some (monitorings_query location type)) no_body)

-- A step and what follows it; an error ends the call.
unfoldable pub then_send : {A B : Type 0} → Sending A → (A → Sending B) → Sending B
then_send (es, err e) next = (es, err e)
then_send (es, ok a) next = let rest = next a in (es ++ rest.0, rest.1)

-- The loop over the monitorings of one answer: those with an ID that is new, and the IDs seen after it.
unfoldable pub new_monitorings : List String → List Monitoring → List Monitoring
new_monitorings seen [] = []
new_monitorings seen (m ∷ ms) =
    let rest = new_monitorings seen ms in
    if contains seen m.id then rest else m ∷ new_monitorings (m.id ∷ seen) ms

unfoldable pub seen_after : List String → List Monitoring → List String
seen_after seen [] = seen
seen_after seen (m ∷ ms) =
    let rest = seen_after seen ms in
    if contains seen m.id then rest else seen_after (m.id ∷ seen) ms

module _ (lib : Library) (c : Client) (decode : String → Result String (List Monitoring))
    (answers : String → Answer) where
  -- What is answered for the first request that names a type; no type is asked for twice.
  keep_new : List String → Sending (List Monitoring) → List Monitoring → Sending (List Monitoring)
  keep_new seen rest items = then_send rest (λ more. ([], ok (new_monitorings seen items ++ more)))

  unfoldable pub list_types :
      String → List String → List String → List String → Sending (List Monitoring)
  unfolding fetch_monitorings keep_new new_monitorings seen_after then_send
  list_types location seen_types seen [] = ([], ok [])
  list_types location seen_types seen (t ∷ ts) =
      let rest = list_types location seen_types seen ts in
      if contains seen_types t
      then rest
      else then_send (fetch_monitorings lib c decode (answers t) location t) (λ items.
        keep_new seen (list_types location (t ∷ seen_types) (seen_after seen items) ts) items)

  unfoldable pub all_types : String → List String → Sending (List Monitoring)
  unfolding list_types fetch_monitorings
  all_types location [] = fetch_monitorings lib c decode (answers "") location ""
  all_types location (t ∷ ts) = list_types location [] [] (t ∷ ts)

  unfoldable pub get_monitorings : String → List String → Sending (List Monitoring)
  unfolding all_types
  get_monitorings location types =
      if str_eq (trim_space location) ""
      then ([], err (message "WEBGUARD_LOCATION is empty"))
      else if str_eq c.instance_code ""
      then ([], err (message "WEBGUARD_LOCATION is empty"))
      else if not (str_eq (trim_space location) c.instance_code)
      then ([], err (message "location must match instance code"))
      else all_types (trim_space location) types
