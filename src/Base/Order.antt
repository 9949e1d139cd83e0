-- ===== src/Base/Order.antt =====
-- slices.Sort on texts, for internal/adapters/runner/dns_record_checker.go. Go compares strings byte by
-- byte, which is the order of their code points, since they are valid UTF-8.
pub mod Laws
use Prim.Native.Char.{Char, code}
use Prim.Native.String
use webguard_instance.Base.{
  ℕ, ltb, String, Bool, true, false, ◌&&◌, ◌||◌, List, [], ◌∷◌, ◌==◌, if◌then◌else◌,
}

unfoldable pub text_lt : String → String → Bool
text_lt String.[] String.[] = false
text_lt String.[] (String.◌∷◌ d t) = true
text_lt (String.◌∷◌ c s) String.[] = false
text_lt (String.◌∷◌ c s) (String.◌∷◌ d t) =
    ltb (code c) (code d) || (code c == code d && text_lt s t)

unfoldable pub insert : String → List String → List String
unfolding text_lt
insert x [] = x ∷ []
insert x (y ∷ ys) = let rest = insert x ys in if text_lt y x then y ∷ rest else x ∷ y ∷ ys

unfoldable pub sort : List String → List String
unfolding insert
sort [] = []
sort (x ∷ xs) = insert x (sort xs)
