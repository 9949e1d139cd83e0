-- ===== src/Runner/Checks/Reach.antt =====
-- What stands behind a check of internal/adapters/runner/runner.go that succeeds.
use webguard_instance.Base.{
  ◌≤ℤ◌, String, Bool, true, false, Option, none, some, List, [], ◌∷◌, All, if◌then◌else◌, ◌≡◌, refl,
  sym, ap, subst, ◌∙◌, arith,
}
use webguard_instance.Base.Result.{Result, ok, err}
use webguard_instance.Monitor.Types.{Monitoring, SslResultPayload}
use webguard_instance.Target.{Ip, ssl_address_and_server_name, safe_dial_context}
use webguard_instance.Target.Address.Ranges.{InBits, IsPublic}
use webguard_instance.Target.Safe.{safe_dial_context-IsPublic}
use webguard_instance.Runner.Checks.{World, Certificate, connected_to, dials}
use webguard_instance.Runner.Checks.Crawls.{
  valid_certificate, no_ssl, first_certificate, ssl_address, crawl_monitoring_ssl,
}

-- A connection was made to an address that the rule on addresses admits.
abbrev pub Reached : World → Type 0
Reached w =
    (text : String) × (port : String) × (ip : Ip) × (text ≡ w.parsers.join_host_port ip.text port)
    × (w.connects text ≡ true)
    × IsPublic ip.address

-- The first certificate of the server is valid now and for the name, and its dates are reported.
abbrev pub Certified : World → String → SslResultPayload → Type 0
Certified w name s =
    (c : Certificate) × (cs : List Certificate) × (w.handshake name ≡ some (c ∷ cs))
    × (c.not_before ≤ℤ w.now)
    × (w.now ≤ℤ c.not_after)
    × (c.has_name name ≡ true)
    × (s.expires_at ≡ some c.not_after)
    × (s.issued_at ≡ some c.not_before)

certificate_dates :
    (w : World) (name : String) (c : Certificate)
    → valid_certificate w name c ≡ true
    → (c.not_before ≤ℤ w.now) × (w.now ≤ℤ c.not_after) × (c.has_name name ≡ true)
unfolding valid_certificate
certificate_dates w name c h = ground arith

-- A valid payload is that of the first branch, if the other one is not valid.
taken :
    (b : Bool) (s n : SslResultPayload)
    → n.is_valid ≡ false
    → (if b then s else n).is_valid ≡ true
    → (b ≡ true) × ((if b then s else n) ≡ s)
taken true s n e h = (refl, refl)
taken false s n e h = ground (arith, e, h)

connected_to-ok :
    (w : World) (o : Option (Result String String))
    → connected_to w o ≡ true
    → (text : String) × (o ≡ some (ok text)) × (w.connects text ≡ true)
unfolding connected_to
connected_to-ok w none h = grind arith
connected_to-ok w (some (err e)) h = grind arith
connected_to-ok w (some (ok text)) h = (text, refl, h)

module _ (w : World) (strict : w.policy.allow_private ≡ false)
    (parsed_bits : (text : String) (ip : Ip)
      → w.parsers.parse_addr text ≡ some ip
      → InBits ip.address)
    (answer_bits : (ips : List Ip)
      → w.dial_answer ≡ ok ips
      → All (λ ip. InBits ip.address) ips) where
  dials-Reached : (address : String) → dials w address ≡ true → Reached w
  unfolding dials
  dials-Reached address h =
      let (text, dialled, connects) =
        connected_to-ok w (safe_dial_context w.parsers w.policy w.dial_answer address) h in
      let (name, port, ip, rest, split, same, public, from) =
        safe_dial_context-IsPublic w.parsers w.policy w.dial_answer address text strict parsed_bits
          answer_bits dialled in
      (text, port, ip, same, connects, public)

  first_certificate-Certified :
      (m : Monitoring) (name : String) (o : Option (List Certificate))
      → w.handshake name ≡ o
      → (first_certificate w m name o).is_valid ≡ true
      → Certified w name (first_certificate w m name o)
  unfolding first_certificate no_ssl
  first_certificate-Certified m name none e h = grind arith
  first_certificate-Certified m name (some []) e h = grind arith
  first_certificate-Certified m name (some (c ∷ cs)) e h =
      let (valid, same) = taken (valid_certificate w name c) _ (no_ssl m) refl h in
      let (from, until, named) = certificate_dates w name c valid in
      subst (Certified w name) (sym same) (c, cs, e, from, until, named, refl, refl)

  ssl_address-Certified :
      (m : Monitoring) (target : Result String (String × String))
      → (ssl_address w m target).is_valid ≡ true
      → (address : String) × (name : String) × (target ≡ ok (address, name))
        × Reached w
        × Certified w name (ssl_address w m target)
  unfolding ssl_address no_ssl
  ssl_address-Certified m (err e) h = grind arith
  ssl_address-Certified m (ok (address, name)) h =
      let (reached, same) = taken (dials w address) _ (no_ssl m) refl h in
      (
        address,
        name,
        refl,
        dials-Reached address reached,
        subst (Certified w name) (sym same) (
            first_certificate-Certified m name (w.handshake name) refl
              (sym (ap (λ (s : SslResultPayload). s.is_valid) same) ∙ h)),
      )

  -- If the check of a certificate says that it is valid, then without AllowPrivate the connection was made to
  -- an address outside the forbidden ranges, of which an address with a zone is exempt from ::, 64:ff9b::/96
  -- (NAT64), 2001:db8::/32 (documentation) and fec0::/10, and may lie in them; and the first certificate that
  -- the server showed for the name in the target covers that name and the present time; its dates are what
  -- is reported. It is assumed that addresses have 32 or 128 bits.
  pub crawl_monitoring_ssl-Certified :
      (m : Monitoring)
      → (crawl_monitoring_ssl w m).is_valid ≡ true
      → (address : String) × (name : String) × (ssl_address_and_server_name w.parsers m.target
          ≡ ok (address, name))
        × Reached w
        × Certified w name (crawl_monitoring_ssl w m)
  unfolding crawl_monitoring_ssl
  crawl_monitoring_ssl-Certified m h =
      ssl_address-Certified m (ssl_address_and_server_name w.parsers m.target) h
