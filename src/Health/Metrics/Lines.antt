-- ===== src/Health/Metrics/Lines.antt =====
-- A line among those that a renderer of internal/adapters/health/operations.go writes.
use text.Mathlib.TextLemmas.{append_assoc}
use Prim.Native.String.append
use webguard_instance.Base.{
  String, true, List, [], ◌∷◌, ◌++◌, ◌≡◌, refl, ap, sym, ◌∙◌, arith, str_eq, eq_iff, contains,
  Bool-cases, inl, inr, ◌+s◌,
}
use webguard_instance.Base.Range.{each}
use webguard_instance.Health.Metrics.{concat_texts}

-- The text is one of those written.
abbrev pub Writes : List String → String → Type 0
Writes lines line =
    (before : List String) × (after : List String) × (lines ≡ before ++ line ∷ after)

lists_assoc : (xs ys zs : List String) → (xs ++ ys) ++ zs ≡ xs ++ (ys ++ zs)
lists_assoc [] ys zs = refl
lists_assoc (x ∷ xs) ys zs = ap (λ (us : List String). x ∷ us) (lists_assoc xs ys zs)

pub Writes-left : (xs ys : List String) (line : String) → Writes xs line → Writes (xs ++ ys) line
Writes-left xs ys line (before, after, e) = (
  before,
  after ++ ys,
  ap (λ (us : List String). us ++ ys) e ∙ lists_assoc before (line ∷ after) ys,
)

pub Writes-right : (xs ys : List String) (line : String) → Writes ys line → Writes (xs ++ ys) line
Writes-right xs ys line (before, after, e) = (
  xs ++ before,
  after,
  ap (λ (us : List String). xs ++ us) e ∙ sym (lists_assoc xs before (line ∷ after)),
)

-- A loop writes what its body writes for one of the keys.
pub each-Writes :
    (body : String → List String) (keys : List String) (k line : String)
    → contains keys k ≡ true
    → body k ≡ line ∷ []
    → Writes (each body keys) line
unfolding each
each-Writes body [] k line there e = absurd (ground arith)
each-Writes body (j ∷ keys) k line there e = elim (Bool-cases (str_eq j k)) [
  | inl same ↦
      Writes-left (body j) (each body keys) line ([], [], ap body ((eq_iff j k).0 same) ∙ e)
  | inr other ↦
      Writes-right (body j) (each body keys) line (each-Writes body keys k line (ground arith) e)
]

concat-append : (xs ys : List String) → concat_texts (xs ++ ys) ≡ concat_texts xs +s concat_texts ys
unfolding concat_texts
concat-append [] ys = sym (append.nil (concat_texts ys))
concat-append (x ∷ xs) ys =
    ap (λ s. x +s s) (concat-append xs ys)
    ∙ sym (append_assoc x (concat_texts xs) (concat_texts ys))

-- A line that is written stands in the text.
pub concat-Writes :
    (lines : List String) (line : String)
    → Writes lines line
    → (before : String) × (after : String) × (concat_texts lines ≡ before +s line +s after)
unfolding concat_texts
concat-Writes lines line (before, after, e) = (
  concat_texts before,
  concat_texts after,
  ap concat_texts e
      ∙ concat-append before (line ∷ after)
      ∙ sym (append_assoc (concat_texts before) line (concat_texts after)),
)
