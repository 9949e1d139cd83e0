-- ===== src/Target/Safe.antt =====
-- What SafeDialContext and HTTPURL of internal/adapters/target/target.go let through.
use webguard_instance.Base.{
  String, true, false, List, [], ◌∷◌, Option, none, some, All, ◌≡◌, ◌≢◌, refl, sym, subst, is_some,
  ap, ◌∙◌, ◌⊎◌, inl, inr, arith, ltb, codes, trim_space, ◌≤◌, if_elim, if_false, str_eq, eq_iff,
}
use webguard_instance.Base.Chars.{byte_length, trim}
use webguard_instance.Base.Result.{Result, ok, err, bind_inv, guard_inv, ok_inj}
use webguard_instance.Target.Address.Ranges.{InBits, IsPublic, is_unsafe_address-IsPublic}
use webguard_instance.Target.{
  Ip, Parsers, EgressPolicy, accept_url, read_target, is_bracket, Url, resolve_host_ips,
  validate_host, dial_parts, http_url, safe_dial_context,
}
use webguard_instance.Target.Usable.{
  Admitted, Usable, Dialled, resolve_host_ips-Usable, dial_resolved-Usable, dial_resolved_some,
}

dial_parts-Dialled :
    (p : Parsers) (policy : EgressPolicy) (answer : Result String (List Ip))
    (parts : Result String (String × String)) (text : String)
    → policy.allow_private ≡ false
    → dial_parts p policy answer parts ≡ some (ok text)
    → (name : String) × (port : String) × (parts ≡ ok (name, port))
      × Dialled p answer name port text
unfolding dial_parts
dial_parts-Dialled p policy answer (err e) text a h = grind arith
dial_parts-Dialled p policy answer (ok (name, port)) text a h = (
  name,
  port,
  refl,
  dial_resolved-Usable p policy name a answer port (resolve_host_ips p answer name policy) text
      (resolve_host_ips-Usable p policy name a answer) (sym (if_false _ _ _ a) ∙ h),
)

dial_parts_some :
    (p : Parsers) (policy : EgressPolicy) (answer : Result String (List Ip))
    (parts : Result String (String × String))
    → is_some (dial_parts p policy answer parts) ≡ true
unfolding dial_parts
dial_parts_some p policy answer (err e) = refl
dial_parts_some p policy answer (ok (name, port)) =
    if_elim {A = Option (Result String String)} (λ o. is_some o ≡ true) policy.allow_private _ _
      (λ a. refl)
      (λ a.
        dial_resolved_some p policy name a answer port (resolve_host_ips p answer name policy)
          (resolve_host_ips-Usable p policy name a answer))

-- The function that dials never indexes an empty list of addresses.
pub safe_dial_context-some :
    (p : Parsers) (policy : EgressPolicy) (answer : Result String (List Ip)) (target : String)
    → safe_dial_context p policy answer target ≢ none
unfolding safe_dial_context
safe_dial_context-some p policy answer target h =
    grind (arith, dial_parts_some p policy answer (p.split_host_port target))

-- Without AllowPrivate, whatever the resolver answers, the dialer is handed an address outside the forbidden
-- ranges, with the port asked for: the literal that the host's text is, or else the first address of the
-- answer. An address with a zone is exempt from the ranges ::, 64:ff9b::/96 (NAT64), 2001:db8::/32
-- (documentation) and fec0::/10, and may lie in them. The dialer looks nothing up a second time. It is
-- assumed that addresses have 32 or 128 bits.
pub safe_dial_context-IsPublic :
    (p : Parsers) (policy : EgressPolicy) (answer : Result String (List Ip)) (target text : String)
    → policy.allow_private ≡ false
    → ((name : String) (ip : Ip) → p.parse_addr name ≡ some ip → InBits ip.address)
    → ((ips : List Ip) → answer ≡ ok ips → All (λ ip. InBits ip.address) ips)
    → safe_dial_context p policy answer target ≡ some (ok text)
    → (name : String) × (port : String) × (ip : Ip) × (rest : List Ip) × (p.split_host_port target
        ≡ ok (name, port))
      × (text ≡ p.join_host_port ip.text port)
      × IsPublic ip.address
      × (((p.parse_addr name ≡ some ip) × (rest ≡ [])) ⊎ (answer ≡ ok (ip ∷ rest)))
unfolding safe_dial_context
safe_dial_context-IsPublic p policy answer target text a b c h =
    let (name, port, split, (ip, rest, same, safe, from)) =
      dial_parts-Dialled p policy answer (p.split_host_port target) text a h in
    let bits : InBits ip.address = elim from [
      | inl e ↦ b name ip e.0
      | inr e ↦ (c (ip ∷ rest) e).0
    ] in
    (name, port, ip, rest, split, same, (is_unsafe_address-IsPublic ip.address bits).0 safe, from)

validate_host-Usable :
    (p : Parsers) (answer : Result String (List Ip)) (name : String) (policy : EgressPolicy)
    → policy.allow_private ≡ false
    → validate_host p answer name policy ≡ ok tt
    → (found : List Ip) × Usable p answer (trim is_bracket (trim_space name)) found
unfolding validate_host
validate_host-Usable p answer name policy a h =
    let (full, tested) = guard_inv _ _ h in
    let (foreign, looked) = guard_inv _ _ {a = tt} (sym (if_false _ _ _ a) ∙ tested) in
    let bare = trim is_bracket (trim_space name) in
    let (found, resolved, done) = bind_inv (resolve_host_ips p answer bare policy) looked in
    (found, resolve_host_ips-Usable p policy bare a answer found resolved)

Admitted-IsPublic :
    (ips : List Ip)
    → All (λ ip. InBits ip.address) ips
    → All Admitted ips
    → All (λ ip. IsPublic ip.address) ips
Admitted-IsPublic [] b h = tt
Admitted-IsPublic (ip ∷ ips) (b, bs) (h, hs) =
    ((is_unsafe_address-IsPublic ip.address b).0 h, Admitted-IsPublic ips bs hs)

-- The addresses that a host stands for, if it passes: the literal that its text is, or the answer.
abbrev pub StandsFor : Parsers → Result String (List Ip) → String → List Ip → Type 0
StandsFor p answer name [] = ⊥
StandsFor p answer name (ip ∷ rest) =
    ((p.parse_addr name ≡ some ip) × (rest ≡ [])) ⊎ (answer ≡ ok (ip ∷ rest))

Usable-IsPublic :
    (p : Parsers) (answer : Result String (List Ip)) (name : String) (found : List Ip)
    → ((text : String) (ip : Ip) → p.parse_addr text ≡ some ip → InBits ip.address)
    → ((ips : List Ip) → answer ≡ ok ips → All (λ ip. InBits ip.address) ips)
    → Usable p answer name found
    → All (λ ip. IsPublic ip.address) found × StandsFor p answer name found
Usable-IsPublic p answer name [] b c h = elim h [ ]
Usable-IsPublic p answer name (ip ∷ rest) b c (safe, inr e) =
    (Admitted-IsPublic (ip ∷ rest) (c (ip ∷ rest) e) safe, inr e)
Usable-IsPublic p answer name (ip ∷ rest) b c (safe, inl (e, r)) = (
  Admitted-IsPublic (ip ∷ rest) (b name ip e, subst (All (λ i. InBits i.address)) (sym r) tt) safe,
  inl (e, r),
)

abbrev pub IsAccepted : Url → Type 0
IsAccepted u = ((u.scheme ≡ "http") ⊎ (u.scheme ≡ "https")) × (u.host ≢ "") × (u.user ≡ false)

accept_url-ok :
    (parsed u : Url) (valid : Result String (Unit {0}))
    → accept_url parsed valid ≡ ok u
    → (parsed ≡ u) × IsAccepted parsed × (valid ≡ ok tt)
unfolding accept_url
accept_url-ok parsed u (err e) h = ground arith
accept_url-ok parsed u (ok done) h =
    ground (arith, eq_iff parsed.scheme "http", eq_iff parsed.scheme "https", eq_iff parsed.host "")

read_target-ok :
    (raw_target target : String)
    → read_target raw_target ≡ ok target
    → (target ≡ trim_space raw_target) × (byte_length (codes (trim_space raw_target)) ≤ 4096)
unfolding read_target
read_target-ok raw_target target h =
    let (full, g) =
      guard_inv (str_eq (trim_space raw_target) "") "target is empty" {a = target} h in
    let (short, g) =
      guard_inv (ltb 4096 (byte_length (codes (trim_space raw_target))))
        "target exceeds maximum length" {a = target} g in
    (sym (ok_inj g), ground arith)

-- A URL that HTTPURL returns is what url.Parse makes of the trimmed target, which has 4096 bytes at
-- most; its scheme is http or https, it has a host and no credentials; and without AllowPrivate the host
-- stands for addresses, one at least, that all lie outside the forbidden ranges, of which an address with
-- a zone is exempt from ::, 64:ff9b::/96 (NAT64), 2001:db8::/32 (documentation) and fec0::/10, and may lie
-- in them. It is assumed that addresses have 32 or 128 bits.
pub http_url-IsPublic :
    (p : Parsers) (answer : Result String (List Ip)) (raw_target : String) (policy : EgressPolicy)
    (u : Url)
    → ((text : String) (ip : Ip) → p.parse_addr text ≡ some ip → InBits ip.address)
    → ((ips : List Ip) → answer ≡ ok ips → All (λ ip. InBits ip.address) ips)
    → policy.allow_private ≡ false
    → http_url p answer raw_target policy ≡ ok u
    → (found : List Ip) × (p.parse_url (trim_space raw_target) ≡ ok u)
      × (byte_length (codes (trim_space raw_target)) ≤ 4096)
      × IsAccepted u
      × All (λ ip. IsPublic ip.address) found
      × StandsFor p answer (trim is_bracket (trim_space (p.hostname u))) found
unfolding http_url
http_url-IsPublic p answer raw_target policy u b c a h =
    let (target, read, parsing) = bind_inv (read_target raw_target) h in
    let (parsed, parse, accepted) = bind_inv (p.parse_url target) parsing in
    let (same, fine, valid) =
      accept_url-ok parsed u (validate_host p answer (p.hostname parsed) policy) accepted in
    let (trimmed, short) = read_target-ok raw_target target read in
    let (found, usable) = validate_host-Usable p answer (p.hostname parsed) policy a valid in
    let (public, stands) = Usable-IsPublic p answer _ found b c usable in
    (
      found,
      ap p.parse_url (sym trimmed) ∙ parse ∙ ap ok same,
      short,
      subst IsAccepted same fine,
      public,
      subst (λ v. StandsFor p answer (trim is_bracket (trim_space (p.hostname v))) found) same
          stands,
    )
