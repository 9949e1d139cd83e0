-- ===== src/Runner/Dns/Match.antt =====
-- When the values of a record match, in internal/adapters/runner/dns_record_checker.go.
use webguard_instance.Base.{
  String, Bool, true, false, ◌||◌, List, [], ◌∷◌, contains, str_eq, eq_iff, trim_space,
  if◌then◌else◌, ◌≡◌, ◌≢◌, ◌↔◌, refl, sym, ap, ◌∙◌, arith, if_true, if_false,
}
use webguard_instance.Base.Result.{Result, ok, err, ok_inj}
use webguard_instance.Monitor.Types.{Monitoring, RawObservation, status_up, status_down}
use webguard_instance.Base.Order.Laws.{Increasing-ext}
use webguard_instance.Runner.Dns.{
  Texts, Lookup, Observed, is_unconfigured, normalize_dns_record_values, same_values, compared,
  resolved, looked_up, observe, no_observation, dns_timeout, no_values, failed,
}
use webguard_instance.Runner.Dns.NormalForm.{has_form, normal_form}

down_up : status_down ≢ status_up
down_up h = ground (arith, eq_iff status_down status_up, h)

same_values_iff : (xs ys : List String) → (same_values xs ys ≡ true) ↔ (xs ≡ ys)
unfolding same_values
same_values_iff [] [] = ground arith
same_values_iff [] (y ∷ ys) = ground arith
same_values_iff (x ∷ xs) [] = ground arith
same_values_iff (x ∷ xs) (y ∷ ys) = ground (arith, eq_iff x y, same_values_iff xs ys)

up_true : (b : Bool) → (if b then status_up else status_down) ≡ status_up → b ≡ true
up_true true h = refl
up_true false h = elim (down_up h) [ ]

compared_iff :
    (l : Lookup) (o : RawObservation) (expected : List String) (r : Result String (List String))
    → ((compared l o expected r).0 ≡ status_up) ↔ (r ≡ ok expected)
unfolding compared failed
compared_iff l o expected (err e) = ((λ h. elim (down_up h) [ ]), λ h. grind arith)
compared_iff l o expected (ok actual) = (
  (λ h. ap ok ((same_values_iff actual expected).0 (up_true (same_values actual expected) h))),
  λ h. if_true _ _ _ ((same_values_iff actual expected).1 (ok_inj h)),
)

resolved_iff :
    (t : Texts) (l : Lookup) (o : RawObservation) (record_type : String) (expected : List String)
    (r : Result String (List String))
    → ((resolved t l o record_type expected r).0 ≡ status_up) ↔ (
        (raw : List String) × (r ≡ ok raw)
        × (normalize_dns_record_values t raw record_type ≡ ok expected))
unfolding resolved failed
resolved_iff t l o record_type expected (err e) =
    ((λ h. elim (down_up h) [ ]), λ (raw, h, k). grind arith)
resolved_iff t l o record_type expected (ok raw) =
    let both = compared_iff l o expected (normalize_dns_record_values t raw record_type) in
    (
      (λ h. (raw, refl, both.0 h)),
      λ (other, h, k).
          both.1 (ap (λ xs. normalize_dns_record_values t xs record_type) (ok_inj h) ∙ k),
    )

-- Up exactly if the values that the resolver gives have the expected list as their normal form.
abbrev Agrees : Texts → Lookup → Monitoring → List String → Type 0
Agrees t l m expected =
    (raw : List String) × (l.resolve (trim_space m.target) (trim_space m.dns_record_type)
        (dns_timeout m)
      ≡ ok raw)
    × (normalize_dns_record_values t raw (trim_space m.dns_record_type) ≡ ok expected)

looked_up_sound :
    (t : Texts) (l : Lookup) (m : Monitoring) (r : Result String (List String))
    → (looked_up t l m r).0 ≡ status_up
    → (expected : List String) × (r ≡ ok expected) × Agrees t l m expected
unfolding looked_up failed
looked_up_sound t l m (err e) h = elim (down_up h) [ ]
looked_up_sound t l m (ok expected) h = (
  expected,
  refl,
  (resolved_iff t l (record (no_observation l m) { dns_expected_values = expected })
        (trim_space m.dns_record_type) expected _).0
      h,
)

looked_up_complete :
    (t : Texts) (l : Lookup) (m : Monitoring) (expected : List String)
    → Agrees t l m expected
    → (looked_up t l m (ok expected)).0 ≡ status_up
unfolding looked_up
looked_up_complete t l m expected h =
    (resolved_iff t l (record (no_observation l m) { dns_expected_values = expected })
        (trim_space m.dns_record_type) expected _).1
      h

-- What makes a monitoring match: it is configured, all its values and all those of the answer have a normal
-- form, and these are the same.
pub record IsMatch (t : Texts) (l : Lookup) (m : Monitoring) : Type 0 where
  pub target_given : str_eq (trim_space m.target) "" ≡ false
  pub type_given : str_eq (trim_space m.dns_record_type) "" ≡ false
  pub values_given : no_values m.dns_expected_values ≡ false
  pub expected : List String
  pub expected_formed :
      normalize_dns_record_values t m.dns_expected_values (trim_space m.dns_record_type)
      ≡ ok expected
  pub raw : List String
  pub raw_answered :
      l.resolve (trim_space m.target) (trim_space m.dns_record_type) (dns_timeout m) ≡ ok raw
  pub actual : List String
  pub actual_formed : normalize_dns_record_values t raw (trim_space m.dns_record_type) ≡ ok actual
  pub same_forms :
      (v : String)
      → has_form t (trim_space m.dns_record_type) raw v
        ≡ has_form t (trim_space m.dns_record_type) m.dns_expected_values v

forms_agree :
    (t : Texts) (record_type : String) (xs ys us ws : List String)
    → normalize_dns_record_values t xs record_type ≡ ok us
    → normalize_dns_record_values t ys record_type ≡ ok ws
    → (us ≡ ws) ↔ ((v : String) → has_form t record_type xs v ≡ has_form t record_type ys v)
forms_agree t record_type xs ys us ws h k =
    let (rise, same) = normal_form t record_type xs us h in
    let (climb, alike) = normal_form t record_type ys ws k in
    (
      (λ e v. sym (same v) ∙ ap (λ zs. contains zs v) e ∙ alike v),
      λ f. Increasing-ext us ws rise climb (λ v. same v ∙ f v ∙ sym (alike v)),
    )

none_of : (a b c : Bool) → ((a || b || c) ≡ false) ↔ ((a ≡ false) × (b ≡ false) × (c ≡ false))
none_of a b c = ground arith

stopped :
    (b : Bool) (o n : Observed)
    → o.0 ≡ status_down
    → (if b then o else n).0 ≡ status_up
    → (b ≡ false) × (n.0 ≡ status_up)
stopped true o n d h = elim (down_up (sym d ∙ h)) [ ]
stopped false o n d h = (refl, h)

up-IsMatch :
    (t : Texts) (l : Lookup) (m : Monitoring) → (observe t l m).0 ≡ status_up → IsMatch t l m
unfolding observe failed
up-IsMatch t l m h =
    let (given, found) =
      stopped (is_unconfigured m) (failed (no_observation l m) "invalid_configuration") _ refl h in
    let (target, type, values) = (none_of _ _ (no_values m.dns_expected_values)).0 given in
    let (expected, formed, (raw, answered, actual)) = looked_up_sound t l m _ found in
    record {
      target_given = target;
      type_given = type;
      values_given = values;
      expected = expected;
      expected_formed = formed;
      raw = raw;
      raw_answered = answered;
      actual = expected;
      actual_formed = actual;
      same_forms =
          (forms_agree t (trim_space m.dns_record_type) raw m.dns_expected_values _ _ actual
              formed).0
            refl;
    }

match_up : (t : Texts) (l : Lookup) (m : Monitoring) → IsMatch t l m → (observe t l m).0 ≡ status_up
unfolding observe
match_up t l m h =
    let same : h.actual ≡ h.expected =
      (forms_agree t (trim_space m.dns_record_type) h.raw m.dns_expected_values _ _ h.actual_formed
          h.expected_formed).1
        h.same_forms in
    ap (λ (o : Observed). o.0)
      (if_false (is_unconfigured m) _ _ (
          (none_of _ _ (no_values m.dns_expected_values)).1
            (h.target_given, h.type_given, h.values_given))
        ∙ ap (looked_up t l m) h.expected_formed)
    ∙ looked_up_complete t l m h.expected (h.raw, h.raw_answered, h.actual_formed ∙ ap ok same)

-- A DNS monitoring is up exactly if it is configured, every value that is expected and every value that the
-- resolver gives has a normal form, and the two sets of normal forms are equal, whatever the order in which
-- the values stand and however often they are repeated.
pub observe-IsMatch :
    (t : Texts) (l : Lookup) (m : Monitoring) → ((observe t l m).0 ≡ status_up) ↔ IsMatch t l m
observe-IsMatch t l m = (up-IsMatch t l m, match_up t l m)
