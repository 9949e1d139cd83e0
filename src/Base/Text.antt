-- ===== src/Base/Text.antt =====
-- Go's strings. A string of the program is a native text, that is valid UTF-8, as everything that
-- comes out of Go's JSON decoder is. `trim_space` is strings.TrimSpace, over all Unicode spaces;
-- `lower` and `upper` are strings.ToLower and strings.ToUpper on the code points, and change ASCII
-- letters only.
use Prim.Native.Nat.{ℕ, ◌+◌, ◌-◌}
use Prim.Native.Char.{Char, code}
use Prim.Native.String.{String}
use Prim.Native.String
use mathlib.Core.Path.{◌≡◌, refl}
use mathlib.Core.Logic.{◌≢◌}
use mathlib.Core.Bool.{Bool, true, false, ◌&&◌, ◌||◌}
use mathlib.Core.List.{List, [], ◌∷◌, map}
use native.Mathlib.Omega.{arith}
pub use text.Mathlib.Text.{◌==◌ as str_eq}
pub use text.Mathlib.TextEquality.{eq_iff}
pub use text.Mathlib.TextPositions.{eq_refl}
use webguard_instance.Base.Tests.{leb, ◌==◌, if◌then◌else◌}

-- The code points of a text.
abbrev pub codes : String → List ℕ
codes String.[] = []
codes (String.◌∷◌ c s) = code c ∷ codes s

abbrev pub codes_eq : List ℕ → List ℕ → Bool
codes_eq [] [] = true
codes_eq [] (b ∷ ys) = false
codes_eq (a ∷ xs) [] = false
codes_eq (a ∷ xs) (b ∷ ys) = a == b && codes_eq xs ys

pub codes_eq_refl : (xs : List ℕ) → codes_eq xs xs ≡ true
codes_eq_refl [] = refl
codes_eq_refl (x ∷ xs) = ground (arith, codes_eq_refl xs)

abbrev pub lower : List ℕ → List ℕ
lower = map (λ c. if leb b'A' c && leb c b'Z' then c + 32 else c)

abbrev pub upper : List ℕ → List ℕ
upper = map (λ c. if leb b'a' c && leb c b'z' then c - 32 else c)

-- unicode.IsSpace
unfoldable pub is_space : ℕ → Bool
is_space c =
    (leb 9 c && leb c 13)
    || c == 32
    || c == 0x85
    || c == 0xa0
    || c == 0x1680
    || (leb 0x2000 c && leb c 0x200a)
    || c == 0x2028
    || c == 0x2029
    || c == 0x202f
    || c == 0x205f
    || c == 0x3000

unfoldable pub trim_left : String → String
unfolding is_space
trim_left String.[] = String.[]
trim_left (String.◌∷◌ c s) =
    let rest = trim_left s in if is_space (code c) then rest else String.◌∷◌ c s

-- A space at the end goes if nothing but spaces follows it.
drop_space : Char → String → String
unfolding is_space
drop_space c String.[] = if is_space (code c) then String.[] else String.◌∷◌ c String.[]
drop_space c (String.◌∷◌ d s) = String.◌∷◌ c (String.◌∷◌ d s)

unfoldable pub trim_right : String → String
unfolding drop_space
trim_right String.[] = String.[]
trim_right (String.◌∷◌ c s) = drop_space c (trim_right s)

unfoldable pub trim_space : String → String
unfolding trim_left trim_right
trim_space s = trim_right (trim_left s)

-- A comparison of different texts fails.
pub ne_false : (s t : String) → s ≢ t → str_eq s t ≡ false
ne_false s t h = ground (arith, eq_iff s t)

infixl 65 ◌+s◌
abbrev pub ◌+s◌ : String → String → String
s +s t = String.◌++◌ s t

-- No character is a space.
abbrev pub NoSpaces : String → Type 0
NoSpaces String.[] = Unit
NoSpaces (String.◌∷◌ c s) = (is_space (code c) ≡ false) × NoSpaces s

trim_left-NoSpaces : (s : String) → NoSpaces s → trim_left s ≡ s
unfolding trim_left
trim_left-NoSpaces String.[] v = refl
trim_left-NoSpaces (String.◌∷◌ c s) v = rw v.0

drop_space-visible :
    (c : Char) (s : String) → is_space (code c) ≡ false → drop_space c s ≡ String.◌∷◌ c s
unfolding drop_space
drop_space-visible c String.[] v = rw v
drop_space-visible c (String.◌∷◌ d s) v = refl

trim_right-NoSpaces : (s : String) → NoSpaces s → trim_right s ≡ s
unfolding trim_right
trim_right-NoSpaces String.[] v = refl
trim_right-NoSpaces (String.◌∷◌ c s) v = rw (trim_right-NoSpaces s v.1) (drop_space-visible c s v.0)

pub trim_space-NoSpaces : (s : String) → NoSpaces s → trim_space s ≡ s
unfolding trim_space
trim_space-NoSpaces s v = rw (trim_left-NoSpaces s v) (trim_right-NoSpaces s v)
