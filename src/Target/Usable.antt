-- ===== src/Target/Usable.antt =====
-- The addresses that the functions of internal/adapters/target/target.go go on with.
use webguard_instance.Base.{
  String, true, false, List, [], ◌∷◌, none, some, All, ◌≡◌, refl, sym, subst, is_some, ap, ◌∙◌,
  Option-cases, ◌⊎◌, inl, inr, arith,
}
use webguard_instance.Base.Result.{Result, ok, err, guard_inv, ok_inj, ◌>>◌}
use webguard_instance.Target.Address.{is_unsafe_address}
use webguard_instance.Target.{
  Ip, Parsers, EgressPolicy, resolve, refuse_private, resolve_host_ips, dial_resolved, first_text,
  dial_first,
}

abbrev pub Admitted : Ip → Type 0
Admitted ip = is_unsafe_address ip.address ≡ false

refuse_private-safe :
    (policy : EgressPolicy) (ips : List Ip)
    → policy.allow_private ≡ false
    → refuse_private policy ips ≡ ok tt
    → All Admitted ips
unfolding refuse_private
refuse_private-safe policy [] a h = tt
refuse_private-safe policy (ip ∷ ips) a h =
    (ground arith, refuse_private-safe policy ips a (ground arith))

checked_same :
    (c : Result String (Unit {0})) (ips found : List Ip)
    → (c >> ok ips) ≡ ok found
    → (c ≡ ok tt) × (ips ≡ found)
checked_same (ok done) ips found h = (refl, ok_inj h)
checked_same (err e) ips found h = grind arith

-- What the code knows of the addresses that it goes on with: there is one, none is refused, and they are
-- the literal that the host's text is or what the resolver answered.
abbrev pub Usable : Parsers → Result String (List Ip) → String → List Ip → Type 0
Usable p answer name [] = ⊥
Usable p answer name (ip ∷ rest) =
    All Admitted (ip ∷ rest)
    × (((p.parse_addr name ≡ some ip) × (rest ≡ [])) ⊎ (answer ≡ ok (ip ∷ rest)))

-- Where the dialled address comes from.
abbrev pub Dialled : Parsers → Result String (List Ip) → String → String → String → Type 0
Dialled p answer name port text =
    (ip : Ip) × (rest : List Ip) × (text ≡ p.join_host_port ip.text port)
    × Admitted ip
    × (((p.parse_addr name ≡ some ip) × (rest ≡ [])) ⊎ (answer ≡ ok (ip ∷ rest)))

module _ (p : Parsers) (policy : EgressPolicy) (name : String)
    (a : policy.allow_private ≡ false) where
  resolved-Usable :
      (answer : Result String (List Ip)) (found : List Ip)
      → resolve answer name policy none ≡ ok found
      → Usable p answer name found
  unfolding resolve
  resolved-Usable (ok []) found h = grind arith
  resolved-Usable (ok (ip ∷ ips)) found h =
      let (passed, same) = checked_same _ _ _ h in
      subst (Usable p (ok (ip ∷ ips)) name) same
        (refuse_private-safe policy (ip ∷ ips) a passed, inr refl)
  resolved-Usable (err e) found h = grind arith

  literal-Usable :
      (answer : Result String (List Ip)) (ip : Ip) (found : List Ip)
      → p.parse_addr name ≡ some ip
      → resolve answer name policy (some ip) ≡ ok found
      → Usable p answer name found
  unfolding resolve
  literal-Usable answer ip found e h =
      let (safe, same) = guard_inv _ _ {a = found} h in
      subst (Usable p answer name) {x = ip ∷ []} (ok_inj same) ((ground arith, tt), inl (e, refl))

  pub resolve_host_ips-Usable :
      (answer : Result String (List Ip)) (found : List Ip)
      → resolve_host_ips p answer name policy ≡ ok found
      → Usable p answer name found
  unfolding resolve_host_ips
  resolve_host_ips-Usable answer found h = elim (Option-cases (p.parse_addr name)) [
    | inl e ↦ resolved-Usable answer found (sym (ap (resolve answer name policy) e) ∙ h)
    | inr (ip, e) ↦ literal-Usable answer ip found e (sym (ap (resolve answer name policy) e) ∙ h)
  ]

  pub dial_resolved-Usable :
      (answer : Result String (List Ip)) (port : String) (ips : Result String (List Ip))
      (text : String)
      → ((found : List Ip) → ips ≡ ok found → Usable p answer name found)
      → dial_resolved p port ips ≡ some (ok text)
      → Dialled p answer name port text
  unfolding dial_resolved dial_first first_text
  dial_resolved-Usable answer port (err e) text usable h = grind arith
  dial_resolved-Usable answer port (ok []) text usable h = elim (usable [] refl) [ ]
  dial_resolved-Usable answer port (ok (ip ∷ rest)) text usable h =
      let (safe, from) = usable (ip ∷ rest) refl in (ip, rest, grind arith, safe.0, from)

  pub dial_resolved_some :
      (answer : Result String (List Ip)) (port : String) (ips : Result String (List Ip))
      → ((found : List Ip) → ips ≡ ok found → Usable p answer name found)
      → is_some (dial_resolved p port ips) ≡ true
  unfolding dial_resolved dial_first first_text
  dial_resolved_some answer port (err e) usable = refl
  dial_resolved_some answer port (ok []) usable = elim (usable [] refl) [ ]
  dial_resolved_some answer port (ok (ip ∷ ips)) usable = refl
