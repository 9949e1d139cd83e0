-- ===== src/Base/Cut.antt =====
-- strings.SplitN(s, sep, 2), where a separator is found: what stands before its first occurrence, and
-- what stands after.
use Prim.Native.Char.{Char, code}
use Prim.Native.String.append
use webguard_instance.Base.{
  ℕ, zero, suc, String, true, false, Option, none, some, ◌≡◌, refl, arith, codes, ◌+s◌,
  if◌then◌else◌, length, ◌==◌,
}
use webguard_instance.Base.Chars.{has_prefix}

abbrev drop_chars : ℕ → String → String
drop_chars zero s = s
drop_chars (suc n) String.[] = ""
drop_chars (suc n) (String.◌∷◌ c s) = drop_chars n s

abbrev add_front : Char → Option (String × String) → Option (String × String)
add_front c none = none
add_front c (some (before, after)) = some (String.◌∷◌ c before, after)

unfoldable pub cut : String → String → Option (String × String)
cut sep String.[] = none
cut sep (String.◌∷◌ c s) =
    let rest = add_front c (cut sep s) in
    if has_prefix (codes (String.◌∷◌ c s)) (codes sep)
    then some ("", drop_chars (length (codes sep)) (String.◌∷◌ c s))
    else rest

cut_test : cut "->" ("a-b" +s "->" +s "c->d") ≡ some ("a-b", "c->d")
unfolding cut
cut_test = refl

drop_chars-append : (s t : String) → drop_chars (length (codes s)) (s +s t) ≡ t
drop_chars-append String.[] t = append.nil t
drop_chars-append (String.◌∷◌ c s) t = rw (append.cons c s t) (drop_chars-append s t)

has_prefix-append : (s t : String) → has_prefix (codes (s +s t)) (codes s) ≡ true
has_prefix-append String.[] t = refl
has_prefix-append (String.◌∷◌ c s) t =
    rw (append.cons c s t) (ground (arith, has_prefix-append s t))

-- The character does not stand in the text.
abbrev pub Avoids : Char → String → Type 0
Avoids e String.[] = Unit
Avoids e (String.◌∷◌ c s) = ((code c == code e) ≡ false) × Avoids e s

-- A text is cut where it was joined, if the part before the separator has not its first character.
pub cut-join :
    (e : Char) (sep p q : String)
    → Avoids e p
    → cut (String.◌∷◌ e sep) (p +s String.◌∷◌ e sep +s q) ≡ some (p, q)
unfolding cut
cut-join e sep String.[] q h =
    rw (append.nil (String.◌∷◌ e sep), append.cons e sep q)
      (ground (arith, has_prefix-append sep q, drop_chars-append sep q))
cut-join e sep (String.◌∷◌ c p) q h =
    rw (append.cons c p (String.◌∷◌ e sep), append.cons c (p +s String.◌∷◌ e sep) q)
      (ground (arith, cut-join e sep p q h.1))
