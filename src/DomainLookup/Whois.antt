-- ===== src/DomainLookup/Whois.antt =====
-- ParseWHOIS and what it calls, in internal/adapters/domainlookup/domainlookup.go. time.Parse and the lines
-- that bufio.Scanner gives are a parameter (`Dates`). The patterns are written out: a name of a field stands
-- before the first colon of a line, between spaces, in any case of its letters, and a value after it.
use Prim.Native.Char.{Char, code}
use webguard_instance.Base.{
  ℕ, zero, suc, not, ltb_ℤ, String, Bool, true, false, ◌&&◌, ◌||◌, Option, none, some, List, [],
  ◌∷◌, codes, contains, lower, str_eq, trim_space, ◌==◌, if◌then◌else◌,
}
use webguard_instance.Base.Chars.{has_part, has_prefix, to_lower, trim, trim_one}
use webguard_instance.Monitor.Types.{Instant}

pub record Dates : Type 0 where
  pub parse_time : String → String → Option Instant
  pub scan_lines : String → List String

abbrev pub layouts : List String
layouts =
    "2006-01-02T15:04:05.999999999Z07:00" ∷ "2006-01-02T15:04:05Z07:00" ∷ "2006-01-02T15:04:05-0700"
    ∷ "2006-01-02T15:04:05" ∷ "2006-01-02 15:04:05 MST" ∷ "2006-01-02 15:04:05 -0700"
    ∷ "2006-01-02 15:04:05" ∷ "2006-01-02" ∷ "02-Jan-2006" ∷ "02-Jan-2006 15:04:05 MST"
    ∷ "2006.01.02" ∷ "02.01.2006" ∷ "January 2 2006" ∷ "2 January 2006" ∷ []

or_next : Option Instant → Option Instant → Option Instant
or_next none next = next
or_next (some t) next = some t

try_layouts : Dates → String → List String → Option Instant
unfolding or_next
try_layouts d value [] = none
try_layouts d value (layout ∷ rest) =
    let next = try_layouts d value rest in or_next (d.parse_time layout value) next

unfoldable pub parse_date : Dates → String → Option Instant
unfolding try_layouts trim_space
parse_date d value =
    if str_eq (trim_space value) "" then none else try_layouts d (trim_space value) layouts

-- The text before the first " (".
before_note : String → String
before_note String.[] = ""
before_note (String.◌∷◌ c s) =
    let rest = before_note s in
    if code c == b' ' && has_prefix (codes s) (codes "(") then "" else String.◌∷◌ c rest

unfoldable pub clean_date_value : String → String
unfolding before_note trim_one trim_space
clean_date_value value =
    let text = trim_one b'.' (trim_space value) in
    if has_part (codes text) (codes " (") then trim_space (before_note text) else text

-- \s of a pattern
abbrev pub is_blank_char : ℕ → Bool
is_blank_char c = c == 9 || c == 10 || c == 12 || c == 13 || c == 32

with_first : Char → Option (String × String) → Option (String × String)
with_first c none = none
with_first c (some (key, value)) = some (String.◌∷◌ c key, value)

-- The text before and after the first colon.
cut_colon : String → Option (String × String)
unfolding with_first
cut_colon String.[] = none
cut_colon (String.◌∷◌ c s) =
    let rest = cut_colon s in if code c == b':' then some ("", s) else with_first c rest

-- The value of a line whose field has one of the names; there is none if the value is empty.
field_of : List String → Option (String × String) → Option String
unfolding trim to_lower
field_of names none = none
field_of names (some (key, value)) =
    let text = trim is_blank_char value in
    if contains names (to_lower (trim is_blank_char key)) && not (str_eq text "")
    then some text
    else none

abbrev pub expiration_fields : List String
expiration_fields =
    "registry expiry date" ∷ "registrar registration expiration date" ∷ "expiration date"
    ∷ "paid-till" ∷ "expiry date" ∷ []

abbrev pub registrar_fields : List String
registrar_fields = "registrar" ∷ "sponsoring registrar" ∷ []

unfoldable pub field : List String → String → Option String
unfolding cut_colon field_of
field names line = field_of names (cut_colon line)

-- refer: and one word are the whole text, between spaces: the pattern has no flag for several lines.
drop_text : ℕ → String → String
drop_text zero s = s
drop_text (suc n) String.[] = ""
drop_text (suc n) (String.◌∷◌ c s) = drop_text n s

is_word : List ℕ → Bool
is_word [] = true
is_word (c ∷ cs) = not (is_blank_char c) && is_word cs

referred : String → Option String
unfolding is_word
referred word = if not (str_eq word "") && is_word (codes word) then some word else none

unfoldable pub whois_referral : String → Option String
unfolding drop_text referred trim
whois_referral raw =
    let text = trim is_blank_char raw in
    if has_prefix (lower (codes text)) (codes "refer:")
    then referred (trim is_blank_char (drop_text 6 text))
    else none

-- The earlier of the expiry so far and a date, which may be none.
unfoldable pub earlier : Option Instant → Option Instant → Option Instant
earlier known none = known
earlier none (some t) = some t
earlier (some e) (some t) = if ltb_ℤ t e then some t else some e

-- A registrar field counts unless there was one before; its value is trimmed of all spaces.
unfoldable pub or_registrar : Option String → Option String → Option String
unfolding trim_space
or_registrar (some r) found = some r
or_registrar none none = none
or_registrar none (some text) = if str_eq (trim_space text) "" then none else some (trim_space text)

date_of : Dates → Option String → Option Instant
unfolding parse_date clean_date_value
date_of d none = none
date_of d (some text) = parse_date d (clean_date_value text)

is_given : Option String → Bool
is_given none = false
is_given (some text) = true

unfoldable pub expiry_in : Dates → String → Option Instant
unfolding date_of field trim_space
expiry_in d line = date_of d (field expiration_fields (trim_space line))

-- A line with an expiry is no line with a registrar.
unfoldable pub registrar_in : String → Option String
unfolding is_given field trim_space
registrar_in line =
    let found = field registrar_fields (trim_space line) in
    if is_given (field expiration_fields (trim_space line)) then none else found

unfoldable pub parse_lines :
    Dates → Option Instant → Option String → List String → Option Instant × Option String
unfolding earlier or_registrar expiry_in registrar_in
parse_lines d expires registrar [] = (expires, registrar)
parse_lines d expires registrar (line ∷ lines) =
    parse_lines d (earlier expires (expiry_in d line)) (or_registrar registrar (registrar_in line))
      lines

unfoldable pub parse_whois : Dates → String → Option Instant × Option String
unfolding parse_lines
parse_whois d raw = parse_lines d none none (d.scan_lines raw)

any_part : List String → List ℕ → Bool
any_part [] text = false
any_part (marker ∷ markers) text = has_part text (codes marker) || any_part markers text

unfoldable pub looks_unavailable : String → Bool
unfolding any_part
looks_unavailable raw =
    any_part
      ("no match for" ∷ "not found" ∷ "no data found" ∷ "no entries found" ∷ "status: free"
        ∷ "domain not found" ∷ [])
      (lower (codes raw))
