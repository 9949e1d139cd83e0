-- ===== src/Runner/Dns/NormalForm.antt =====
-- The normal forms of the values of a record, in internal/adapters/runner/dns_record_checker.go.
use webguard_instance.Base.{
  String, Bool, true, false, ◌||◌, List, [], ◌∷◌, contains, str_eq, eq_iff, eq_refl, if◌then◌else◌,
  ◌≡◌, inl, inr, refl, sym, ap, subst, ◌∙◌, arith, Bool-cases, if_true, if_false,
}
use webguard_instance.Base.Result.{Result, ok, err, ◌>>=◌, bind_inv, ok_inj}
use webguard_instance.Base.{IsDistinct}
use webguard_instance.Base.Order.Laws.{Increasing, contains-sort, sort-Increasing}
use webguard_instance.Runner.Dns.{
  Texts, normalize_dns_record_value, distinct_values, normalize_dns_record_values,
}

abbrev pub gives : Result String String → String → Bool
gives (ok item) v = str_eq item v
gives (err e) v = false

-- One of the values has the normal form.
abbrev pub has_form : Texts → String → List String → String → Bool
has_form t record_type [] v = false
has_form t record_type (value ∷ values) v =
    gives (normalize_dns_record_value t value record_type) v || has_form t record_type values v

-- What the loop over the values keeps, after some items were seen.
record Keeps (t : Texts) (record_type : String) (seen values items : List String) : Type 0 where
  distinct : IsDistinct items
  fresh : (v : String) → contains seen v ≡ true → contains items v ≡ false
  members :
      (v : String)
      → (contains items v || contains seen v) ≡ (has_form t record_type values v || contains seen v)

same_member :
    (seen : List String) (item v : String)
    → str_eq item v ≡ true
    → contains seen item ≡ contains seen v
same_member seen item v e = ap (contains seen) ((eq_iff item v).0 e)

module _ (t : Texts) (record_type : String) where
  Keeps-old :
      (seen values items : List String) (item value : String)
      → normalize_dns_record_value t value record_type ≡ ok item
      → contains seen item ≡ true
      → Keeps t record_type seen values items
      → Keeps t record_type seen (value ∷ values) items
  Keeps-old seen values items item value e old k = record {
    distinct = k.distinct;
    fresh = k.fresh;
    members = λ v. ground (arith, ap (λ r. gives r v) e, same_member seen item v, k.members v);
  }

  Keeps-new :
      (seen values items : List String) (item value : String)
      → normalize_dns_record_value t value record_type ≡ ok item
      → contains seen item ≡ false
      → Keeps t record_type (item ∷ seen) values items
      → Keeps t record_type seen (value ∷ values) (item ∷ items)
  Keeps-new seen values items item value e new k = record {
    distinct = (k.fresh item (ground (arith, eq_refl item)), k.distinct);
    fresh = λ v h. ground (arith, same_member seen item v, k.fresh v);
    members = λ v. ground (arith, ap (λ r. gives r v) e, k.members v);
  }

  Keeps-step :
      (seen values items : List String) (value item : String)
      → ((seen' items' : List String)
          → distinct_values t record_type seen' values ≡ ok items'
          → Keeps t record_type seen' values items')
      → normalize_dns_record_value t value record_type ≡ ok item
      → (if contains seen item
          then distinct_values t record_type seen values
          else do rest ← distinct_values t record_type (item ∷ seen) values; ok (item ∷ rest))
        ≡ ok items
      → Keeps t record_type seen (value ∷ values) items
  Keeps-step seen values items value item later e h = elim (Bool-cases (contains seen item)) [
    | inl old ↦
        Keeps-old seen values items item value e old
          (later seen items (sym (if_true _ _ _ old) ∙ h))
    | inr new ↦
        (let (rest, found, same) =
            bind_inv (distinct_values t record_type (item ∷ seen) values)
              (sym (if_false _ _ _ new) ∙ h) in
          subst (Keeps t record_type seen (value ∷ values)) (ok_inj same)
            (Keeps-new seen values rest item value e new (later (item ∷ seen) rest found)))
  ]

  distinct_values-Keeps :
      (seen values items : List String)
      → distinct_values t record_type seen values ≡ ok items
      → Keeps t record_type seen values items
  unfolding distinct_values
  distinct_values-Keeps seen [] items h =
      subst (Keeps t record_type seen []) (ok_inj h)
        (record { distinct = tt; fresh = λ v k. refl; members = λ v. refl })
  distinct_values-Keeps seen (value ∷ values) items h =
      let (item, e, rest) = bind_inv (normalize_dns_record_value t value record_type) h in
      Keeps-step seen values items value item (λ s i. distinct_values-Keeps s values i) e rest

  pub normal_form :
      (values items : List String)
      → normalize_dns_record_values t values record_type ≡ ok items
      → Increasing items × ((v : String) → contains items v ≡ has_form t record_type values v)
  unfolding normalize_dns_record_values
  normal_form values items h =
      let (found, loop, same) = bind_inv (distinct_values t record_type [] values) h in
      let k = distinct_values-Keeps [] values found loop in
      subst (λ xs. Increasing xs × ((v : String) → contains xs v ≡ has_form t record_type values v))
        (ok_inj same)
        (sort-Increasing found k.distinct, λ v. contains-sort found v ∙ ground (arith, k.members v))
