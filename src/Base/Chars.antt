-- ===== src/Base/Chars.antt =====
-- Go's strings package on texts read as lists of code points: prefixes, parts, splitting, joining.
use webguard_instance.Base.Tests.{ltb, leb, ◌==◌, if◌then◌else◌}
use webguard_instance.Base.Text.{codes, codes_eq, lower, str_eq, is_space, ◌+s◌}
use Prim.Native.Nat.{ℕ, zero, suc, ◌+◌, ◌-◌}
use Prim.Native.Char.{Char, code}
use Prim.Native.String.{String}
use mathlib.Core.Bool.{Bool, true, false, ◌&&◌, ◌||◌}
use mathlib.Core.List.{List, [], ◌∷◌}

-- len(s): the bytes of the UTF-8 encoding
abbrev width : ℕ → ℕ
width c = if ltb c 128 then 1 else if ltb c 2048 then 2 else if ltb c 65536 then 3 else 4

abbrev pub byte_length : List ℕ → ℕ
byte_length [] = 0
byte_length (c ∷ cs) = width c + byte_length cs

-- strings.EqualFold, on texts that differ in the case of ASCII letters at most
abbrev pub equal_fold : String → String → Bool
equal_fold s t = codes_eq (lower (codes s)) (lower (codes t))

abbrev pub has_prefix : List ℕ → List ℕ → Bool
has_prefix s [] = true
has_prefix [] (p ∷ ps) = false
has_prefix (c ∷ s) (p ∷ ps) = c == p && has_prefix s ps

abbrev pub has_suffix : List ℕ → List ℕ → Bool
has_suffix [] end = codes_eq [] end
has_suffix (c ∷ s) end = codes_eq (c ∷ s) end || has_suffix s end

-- strings.Contains
abbrev pub has_part : List ℕ → List ℕ → Bool
has_part [] part = has_prefix [] part
has_part (c ∷ s) part = has_prefix (c ∷ s) part || has_part s part

-- strings.ToLower: an ASCII capital is looked up in the alphabet.
abbrev char_at : String → ℕ → Char → Char
char_at String.[] i other = other
char_at (String.◌∷◌ c s) zero other = c
char_at (String.◌∷◌ c s) (suc i) other = char_at s i other

abbrev lower_char : Char → Char
lower_char c =
    if leb b'A' (code c) && leb (code c) b'Z'
    then char_at "abcdefghijklmnopqrstuvwxyz" (code c - b'A') c
    else c

unfoldable pub to_lower : String → String
to_lower String.[] = ""
to_lower (String.◌∷◌ c s) = String.◌∷◌ (lower_char c) (to_lower s)

-- strings.TrimLeft, strings.TrimRight and strings.Trim, with a test for the set of characters
abbrev pub trim_start : (ℕ → Bool) → String → String
trim_start test String.[] = ""
trim_start test (String.◌∷◌ c s) =
    let rest = trim_start test s in if test (code c) then rest else String.◌∷◌ c s

abbrev drop_last : (ℕ → Bool) → Char → String → String
drop_last test c String.[] = if test (code c) then "" else String.◌∷◌ c ""
drop_last test c (String.◌∷◌ d s) = String.◌∷◌ c (String.◌∷◌ d s)

unfoldable pub trim_end : (ℕ → Bool) → String → String
trim_end test String.[] = ""
trim_end test (String.◌∷◌ c s) = drop_last test c (trim_end test s)

unfoldable pub trim : (ℕ → Bool) → String → String
unfolding trim_end
trim test s = trim_end test (trim_start test s)

-- strings.TrimSuffix with one character
unfoldable pub trim_one : ℕ → String → String
trim_one e String.[] = ""
trim_one e (String.◌∷◌ c String.[]) = if code c == e then "" else String.◌∷◌ c ""
trim_one e (String.◌∷◌ c (String.◌∷◌ d s)) = String.◌∷◌ c (trim_one e (String.◌∷◌ d s))

-- The pieces of a text between the characters that a test marks (strings.Split at one character);
-- strings.Fields keeps those that are not empty.
abbrev add_first : Char → List String → List String
add_first c [] = String.◌∷◌ c "" ∷ []
add_first c (part ∷ parts) = String.◌∷◌ c part ∷ parts

unfoldable pub split : (ℕ → Bool) → String → List String
split test String.[] = "" ∷ []
split test (String.◌∷◌ c s) =
    let rest = split test s in if test (code c) then "" ∷ rest else add_first c rest

abbrev keep_full : List String → List String
keep_full [] = []
keep_full (part ∷ parts) =
    let rest = keep_full parts in if str_eq part "" then rest else part ∷ rest

unfoldable pub fields : String → List String
unfolding split is_space
fields s = keep_full (split is_space s)

-- strings.Join
unfoldable pub join : String → List String → String
join sep [] = ""
join sep (part ∷ []) = part
join sep (part ∷ p ∷ parts) = part +s sep +s join sep (p ∷ parts)

abbrev pub is_slash : ℕ → Bool
is_slash c = c == b'/'
