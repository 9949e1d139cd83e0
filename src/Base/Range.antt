-- ===== src/Base/Range.antt =====
-- The range loop of Go over a map: it visits each key once, in an order that the program does not
-- choose.
use webguard_instance.Base.{
  String, Option, none, some, List, [], ◌∷◌, ◌≡◌, refl, inl, inr, arith, str_eq, eq_iff, ◌++◌, ◌∙◌,
  ap, sym, if◌then◌else◌, is_some, Option-cases, contains, IsDistinct,
}
use mathlib.Core.Path.{fun_ext}
use webguard_instance.Base.Dict
use webguard_instance.Base.Dict.{Dict, get, put, get-put, get-empty}
use webguard_instance.Base.Order.{sort}
use webguard_instance.Base.Order.Laws.{contains-sort, sort-Increasing, Increasing-ext}

module _ {ℓ} {V : Type ℓ} where
  -- An order in which a range loop over the map may visit its keys.
  abbrev pub Visits : Dict V → List String → Type 0
  Visits d keys = IsDistinct keys × ((k : String) → contains keys k ≡ is_some (get d k))

  -- Two maps with the same values under the same keys.
  abbrev pub SameMap : Dict V → Dict V → Type ℓ
  SameMap d e = (k : String) → get d k ≡ get e k

  -- The body of a loop that copies entries: copy[key] = value
  copy_entry : Dict V → Dict V → String → Dict V
  copy_entry source copy k = elim (get source k) [ none ↦ copy | some v ↦ put copy k v ]

  unfoldable pub copy_into : Dict V → Dict V → List String → Dict V
  unfolding copy_entry
  copy_into source copy [] = copy
  copy_into source copy (k ∷ keys) = copy_into source (copy_entry source copy k) keys

  -- The first of two options that is there.
  abbrev pub or_else : Option V → Option V → Option V
  or_else none other = other
  or_else (some v) other = some v

  get-copy_entry :
      (source copy : Dict V) (k j : String)
      → get (copy_entry source copy k) j
        ≡ (if str_eq k j then or_else (get source j) (get copy j) else get copy j)
  unfolding copy_entry
  get-copy_entry source copy k j = elim (Option-cases (get source k)) [
    | inl e ↦ ground (arith, eq_iff k j)
    | inr (v, e) ↦ ground (arith, eq_iff k j, get-put copy k j v)
  ]

  -- The copy has the source's value under each key that was visited.
  pub get-copy_into :
      (source copy : Dict V) (keys : List String) (j : String)
      → get (copy_into source copy keys) j
        ≡ (if contains keys j then or_else (get source j) (get copy j) else get copy j)
  unfolding copy_into
  get-copy_into source copy [] j = refl
  get-copy_into source copy (k ∷ keys) j = ground (
    arith,
    get-copy_into source (copy_entry source copy k) keys j,
    get-copy_entry source copy k j,
  )

  -- A loop that visits each key makes a copy.
  pub copy_into-SameMap :
      (source : Dict V) (keys : List String)
      → Visits source keys
      → SameMap (copy_into source Dict.empty keys) source
  copy_into-SameMap source keys visits j =
      ground (arith, get-copy_into source Dict.empty keys j, visits.1 j, get-empty {V = V} j)

  -- The keys in increasing order do not depend on the order of the visits.
  pub sort-Visits :
      (d e : Dict V) (ks ls : List String)
      → SameMap d e
      → Visits d ks
      → Visits e ls
      → sort ks ≡ sort ls
  sort-Visits d e ks ls same vd ve =
      Increasing-ext (sort ks) (sort ls) (sort-Increasing ks vd.0) (sort-Increasing ls ve.0)
        λ v. ground (arith, contains-sort ks v, contains-sort ls v, vd.1 v, ve.1 v, same v)

-- The texts that a loop over sorted keys writes.
unfoldable pub each : (String → List String) → List String → List String
each line [] = []
each line (k ∷ ks) = line k ++ each line ks

module _ {ℓ} {V : Type ℓ} where
  -- A loop over the sorted keys of a map, whose body reads the entry of its key.
  unfoldable pub each_sorted :
      (String → Option V → List String) → Dict V → List String → List String
  unfolding each
  each_sorted line d keys = each (λ k. line k (get d k)) (sort keys)

  pub each_sorted-Visits :
      (line : String → Option V → List String) (d e : Dict V) (ks ls : List String)
      → SameMap d e
      → Visits d ks
      → Visits e ls
      → each_sorted line d ks ≡ each_sorted line e ls
  unfolding each_sorted
  each_sorted-Visits line d e ks ls same vd ve =
      let lines : (λ k. line k (get d k)) ≡ (λ k. line k (get e k)) =
        fun_ext λ k. ap (λ v. line k v) (same k) in
      ap (λ (f : String → List String). each f (sort ks)) lines
      ∙ ap (λ (zs : List String). each (λ k. line k (get e k)) zs)
          (sort-Visits d e ks ls same vd ve)

  -- What visits a map visits every map with the same entries.
  pub Visits-SameMap : (d e : Dict V) (ks : List String) → SameMap d e → Visits e ks → Visits d ks
  Visits-SameMap d e ks same ve =
      (ve.0, λ k. ve.1 k ∙ ap (λ (v : Option V). is_some v) (sym (same k)))
