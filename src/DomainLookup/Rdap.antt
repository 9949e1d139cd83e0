-- ===== src/DomainLookup/Rdap.antt =====
-- lookupRDAP and what it reads of a response, in internal/adapters/domainlookup/domainlookup.go.
use webguard_instance.Base.{
  ℕ, leb, String, Bool, true, false, not, ◌&&◌, ◌||◌, Option, none, some, List, [], ◌∷◌, str_eq,
  trim_space, ◌==◌, if◌then◌else◌,
}
use webguard_instance.Base.Chars.{equal_fold, to_lower}
use webguard_instance.Base.Result.{Result, ok, err}
use webguard_instance.Monitor.Types.{Instant, AnyItems, no_items, item, array_value, string_value}
use webguard_instance.DomainLookup.Whois.{Dates, parse_date}

pub record RdapEvent : Type 0 where
  pub event_action : String
  pub event_date : String

pub record RdapEntity : Type 0 where
  pub roles : List String
  pub vcard_array : AnyItems

pub record RdapDomainResponse : Type 0 where
  pub events : List RdapEvent
  pub entities : List RdapEntity

-- An error of the lookup: TemporaryError, or another one.
pub data LookupError : Type 0 where
  temporary other : LookupError

pub record DomainResult : Type 0 where
  pub domain : String
  pub registered : Bool
  pub expires_at : Option Instant
  pub registrar : Option String
  pub checked_at : Instant

abbrev pub unregistered : String → Instant → DomainResult
unregistered domain checked_at = record {
  domain = domain;
  registered = false;
  expires_at = none;
  registrar = none;
  checked_at = checked_at;
}

is_expiration : String → Bool
is_expiration action =
    str_eq action "expiration" || str_eq action "expiry" || str_eq action "registration expiration"

or_later : Option Instant → Option Instant → Option Instant
or_later none next = next
or_later (some t) next = some t

unfoldable pub parse_rdap_expiration : Dates → List RdapEvent → Option Instant
unfolding is_expiration or_later parse_date to_lower trim_space
parse_rdap_expiration d [] = none
parse_rdap_expiration d (event ∷ events) =
    let rest = parse_rdap_expiration d events in
    if is_expiration (to_lower (trim_space event.event_action))
    then or_later (parse_date d event.event_date) rest
    else rest

unfoldable pub has_role : List String → String → Bool
unfolding trim_space
has_role [] role = false
has_role (r ∷ roles) role = equal_fold (trim_space r) role || has_role roles role

-- The value of a property of the name fn: its fourth part, if that is a text that is not blank.
fn_value : AnyItems → Option String
unfolding trim_space
fn_value (item (string_value name) (item b (item c (item (string_value value) more)))) =
    if equal_fold name "fn" && not (str_eq (trim_space value) "")
    then some (trim_space value)
    else none
fn_value parts = none

or_more : Option String → Option String → Option String
or_more none next = next
or_more (some text) next = some text

first_fn : AnyItems → Option String
unfolding fn_value or_more
first_fn no_items = none
first_fn (item (array_value parts) more) = let rest = first_fn more in or_more (fn_value parts) rest
first_fn (item value more) = first_fn more

unfoldable pub parse_vcard_fn : AnyItems → Option String
unfolding first_fn
parse_vcard_fn (item a (item (array_value properties) more)) = first_fn properties
parse_vcard_fn vcard = none

unfoldable pub parse_rdap_registrar : List RdapEntity → Option String
unfolding has_role parse_vcard_fn or_more
parse_rdap_registrar [] = none
parse_rdap_registrar (entity ∷ entities) =
    let rest = parse_rdap_registrar entities in
    if has_role entity.roles "registrar"
    then or_more (parse_vcard_fn entity.vcard_array) rest
    else rest

-- What comes of a request: it cannot be built, there is no response, or a status and what the decoder makes
-- of at most two MiB of the body.
pub data RdapReply : Type 0 where
  unbuilt refused : RdapReply
  answered : ℕ → Option RdapDomainResponse → RdapReply

decoded : Dates → String → Instant → Option RdapDomainResponse → Result LookupError DomainResult
unfolding parse_rdap_expiration parse_rdap_registrar
decoded d domain checked_at none = err other
decoded d domain checked_at (some payload) = ok (record {
  domain = domain;
  registered = true;
  expires_at = parse_rdap_expiration d payload.events;
  registrar = parse_rdap_registrar payload.entities;
  checked_at = checked_at;
})

unfoldable pub lookup_rdap : Dates → String → Instant → RdapReply → Result LookupError DomainResult
unfolding decoded
lookup_rdap d domain checked_at unbuilt = err other
lookup_rdap d domain checked_at refused = err temporary
lookup_rdap d domain checked_at (answered status payload) =
    if status == 404
    then ok (unregistered domain checked_at)
    else if status == 429 || leb 500 status
    then err temporary
    else if leb 400 status
    then err other
    else decoded d domain checked_at payload
