-- ===== src/Base/Order/Laws.antt =====
-- Lists of texts in increasing order, without repetition.
use Prim.Native.Char.{Char, code}
use Prim.Native.Nat.{compare, Ordering}
use text.Mathlib.TextPositions.{compare_self}
use text.Mathlib.TextEquality.{codes_equal}
use webguard_instance.Base.{
  String, true, false, ◌||◌, List, [], ◌∷◌, ◌≡◌, inl, inr, refl, sym, ap, subst, ◌∙◌, arith,
  contains, str_eq, eq_iff, eq_refl, All, if_elim, Bool-cases,
}
use webguard_instance.Base.{IsDistinct}
use webguard_instance.Base.Order.{text_lt, insert, sort}

text_lt-irreflexive : (s : String) → text_lt s s ≡ false
unfolding text_lt
text_lt-irreflexive String.[] = refl
text_lt-irreflexive (String.◌∷◌ c s) = ground (arith, text_lt-irreflexive s)

code_inj : (c d : Char) → code c ≡ code d → c ≡ d
code_inj c d h =
    codes_equal c d (subst (λ n. compare (code c) n ≡ Ordering.eq) h (compare_self (code c)))

text_lt-transitive : (s t u : String) → text_lt s t ≡ true → text_lt t u ≡ true → text_lt s u ≡ true
unfolding text_lt
text_lt-transitive String.[] String.[] String.[] h k = h
text_lt-transitive String.[] (String.◌∷◌ d t) String.[] h k = grind arith
text_lt-transitive String.[] t (String.◌∷◌ e u) h k = refl
text_lt-transitive (String.◌∷◌ c s) String.[] u h k = grind arith
text_lt-transitive (String.◌∷◌ c s) (String.◌∷◌ d t) String.[] h k = grind arith
text_lt-transitive (String.◌∷◌ c s) (String.◌∷◌ d t) (String.◌∷◌ e u) h k =
    ground (arith, text_lt-transitive s t u)

text_lt_total : (s t : String) → text_lt s t ≡ false → text_lt t s ≡ false → s ≡ t
unfolding text_lt
text_lt_total String.[] String.[] h k = refl
text_lt_total String.[] (String.◌∷◌ d t) h k = grind arith
text_lt_total (String.◌∷◌ c s) String.[] h k = grind arith
text_lt_total (String.◌∷◌ c s) (String.◌∷◌ d t) h k =
    let same : code c ≡ code d = ground arith in
    let rest : s ≡ t = text_lt_total s t (ground arith) (ground arith) in
    ap (λ e. String.◌∷◌ e s) (code_inj c d same) ∙ ap (λ u. String.◌∷◌ d u) rest

-- In increasing order, each text less than all that follow.
abbrev pub Increasing : List String → Type 0
Increasing [] = Unit
Increasing (x ∷ xs) = All (λ y. text_lt x y ≡ true) xs × Increasing xs

All-transitive :
    (x y : String) (ys : List String)
    → text_lt x y ≡ true
    → All (λ z. text_lt y z ≡ true) ys
    → All (λ z. text_lt x z ≡ true) ys
All-transitive x y [] h hs = tt
All-transitive x y (z ∷ zs) h (k, ks) = (text_lt-transitive x y z h k, All-transitive x y zs h ks)

All-insert :
    (P : String → Type 0) (x : String) (ys : List String) → P x → All P ys → All P (insert x ys)
unfolding insert
All-insert P x [] h hs = (h, tt)
All-insert P x (y ∷ ys) h (k, ks) =
    if_elim (All P) (text_lt y x) _ _ (λ e. (k, All-insert P x ys h ks)) (λ e. (h, (k, ks)))

Increasing-insert :
    (x : String) (ys : List String)
    → contains ys x ≡ false
    → Increasing ys
    → Increasing (insert x ys)
unfolding insert
Increasing-insert x [] new h = (tt, tt)
Increasing-insert x (y ∷ ys) new (k, ks) =
    if_elim Increasing (text_lt y x) _ _
      (λ e.
        (All-insert (λ z. text_lt y z ≡ true) x ys e k, Increasing-insert x ys (ground arith) ks))
      (λ e.
        let less : text_lt x y ≡ true = ground (arith, eq_iff y x, text_lt_total x y) in
        ((less, All-transitive x y ys less k), (k, ks)))

contains-insert :
    (x : String) (ys : List String) (v : String)
    → contains (insert x ys) v ≡ (str_eq x v || contains ys v)
unfolding insert
contains-insert x [] v = refl
contains-insert x (y ∷ ys) v = ground (arith, contains-insert x ys v)

pub contains-sort : (xs : List String) (v : String) → contains (sort xs) v ≡ contains xs v
unfolding sort
contains-sort [] v = refl
contains-sort (x ∷ xs) v =
    contains-insert x (sort xs) v ∙ ap (λ b. str_eq x v || b) (contains-sort xs v)

pub sort-Increasing : (xs : List String) → IsDistinct xs → Increasing (sort xs)
unfolding sort
sort-Increasing [] d = tt
sort-Increasing (x ∷ xs) (new, d) =
    Increasing-insert x (sort xs) (contains-sort xs x ∙ new) (sort-Increasing xs d)

-- A text less than all of a list is not in it.
below-All :
    (x : String) (ys : List String) → All (λ y. text_lt x y ≡ true) ys → contains ys x ≡ false
below-All x [] h = refl
below-All x (y ∷ ys) (k, ks) = elim (Bool-cases (str_eq y x)) [
  | inl e ↦
      (let loop : text_lt x x ≡ true = subst (λ z. text_lt x z ≡ true) ((eq_iff y x).0 e) k in
        ground (arith, text_lt-irreflexive x))
  | inr e ↦ ground (arith, below-All x ys ks)
]

-- The first text of one list is not less than that of the other, if both have the same members.
not_less :
    (x y : String) (xs ys : List String)
    → Increasing (y ∷ ys)
    → ((v : String) → contains (x ∷ xs) v ≡ contains (y ∷ ys) v)
    → text_lt x y ≡ false
not_less x y xs ys h same = elim (Bool-cases (text_lt x y)) [
  | inl e ↦
      (let out = below-All x (y ∷ ys) (e, All-transitive x y ys e h.0) in
        ground (arith, eq_refl x, same x))
  | inr e ↦ e
]

tails_same :
    (x : String) (xs ys : List String)
    → Increasing (x ∷ xs)
    → Increasing (x ∷ ys)
    → ((v : String) → contains (x ∷ xs) v ≡ contains (x ∷ ys) v)
    → (v : String) → contains xs v ≡ contains ys v
tails_same x xs ys h k same v = elim (Bool-cases (str_eq x v)) [
  | inl e ↦
      subst (λ z. contains xs z ≡ contains ys z) ((eq_iff x v).0 e)
        (below-All x xs h.0 ∙ sym (below-All x ys k.0))
  | inr e ↦ ground (arith, same v)
]

-- Two lists in increasing order with the same members are the same.
pub Increasing-ext :
    (xs ys : List String)
    → Increasing xs
    → Increasing ys
    → ((v : String) → contains xs v ≡ contains ys v)
    → xs ≡ ys
Increasing-ext [] [] h k same = refl
Increasing-ext [] (y ∷ ys) h k same = ground (arith, same y, eq_refl y)
Increasing-ext (x ∷ xs) [] h k same = ground (arith, same x, eq_refl x)
Increasing-ext (x ∷ xs) (y ∷ ys) h k same =
    let first : x ≡ y =
      text_lt_total x y (not_less x y xs ys k same) (not_less y x ys xs h (λ v. sym (same v))) in
    let behind : Increasing (x ∷ ys) = subst (λ z. Increasing (z ∷ ys)) (sym first) k in
    let alike : (v : String) → contains (x ∷ xs) v ≡ contains (x ∷ ys) v =
      subst (λ z. (v : String) → contains (x ∷ xs) v ≡ contains (z ∷ ys) v) (sym first) same in
    ap (λ zs. x ∷ zs) (Increasing-ext xs ys h.1 k.1 (tails_same x xs ys h behind alike))
    ∙ ap (λ z. z ∷ ys) first
