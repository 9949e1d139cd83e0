-- ===== src/DomainLookup.antt =====
-- internal/adapters/domainlookup/domainlookup.go: names of domains. The expiry of a domain comes from RDAP
-- and WHOIS servers, asked for the name and for the names above it.
pub mod Whois
pub mod Rdap
pub mod Lookup
pub mod Exchange
pub mod Found
pub mod Examples
use webguard_instance.Base.{
  ℕ, leb, ltb, String, Bool, true, false, not, ◌&&◌, ◌||◌, List, [], ◌∷◌, codes, codes_eq, length,
  str_eq, trim_space, ◌==◌, if◌then◌else◌,
}
use webguard_instance.Base.Chars.{
  byte_length, has_part, has_prefix, has_suffix, join, split, to_lower, trim,
}

abbrev pub max_domain_length : ℕ
max_domain_length = 253

abbrev pub max_domain_labels : ℕ
max_domain_labels = 127

abbrev pub max_domain_label_length : ℕ
max_domain_label_length = 63

abbrev is_dot : ℕ → Bool
is_dot c = c == b'.'

unfoldable pub normalize_target : String → String
unfolding to_lower trim trim_space
normalize_target target = trim is_dot (trim_space (to_lower target))

is_label_char : ℕ → Bool
is_label_char c = (leb b'a' c && leb c b'z') || (leb b'0' c && leb c b'9') || c == b'-'

all_label_chars : List ℕ → Bool
unfolding is_label_char
all_label_chars [] = true
all_label_chars (c ∷ cs) = is_label_char c && all_label_chars cs

unfoldable pub valid_label : String → Bool
unfolding all_label_chars
valid_label label =
    not (
      str_eq label ""
      || ltb max_domain_label_length (byte_length (codes label))
      || has_prefix (codes label) (codes "-")
      || has_suffix (codes label) (codes "-"))
    && all_label_chars (codes label)

all_labels : List String → Bool
unfolding valid_label
all_labels [] = true
all_labels (label ∷ labels) = valid_label label && all_labels labels

unfoldable pub valid_domain_name : String → Bool
unfolding all_labels split
valid_domain_name domain =
    not (
      str_eq domain ""
      || ltb max_domain_length (byte_length (codes domain))
      || has_part (codes domain) (codes "/")
      || ltb max_domain_labels (length (split is_dot domain)))
    && all_labels (split is_dot domain)

-- The last of two labels or more.
last_label : List String → String
last_label [] = ""
last_label (label ∷ []) = label
last_label (label ∷ l ∷ labels) = last_label (l ∷ labels)

unfoldable pub tld : String → String
unfolding split last_label
tld domain = if ltb (length (split is_dot domain)) 2 then "" else last_label (split is_dot domain)

-- The names that end in at least two of the labels, the longest first.
unfoldable pub suffixes : List String → List String
unfolding join
suffixes [] = []
suffixes (label ∷ []) = []
suffixes (label ∷ l ∷ labels) = join "." (label ∷ l ∷ labels) ∷ suffixes (l ∷ labels)

unfoldable pub lookup_candidates : String → List String
unfolding split suffixes
lookup_candidates domain =
    let parts = split is_dot domain in if leb (length parts) 2 then domain ∷ [] else suffixes parts
