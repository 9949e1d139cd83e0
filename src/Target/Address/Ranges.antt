-- ===== src/Target/Address/Ranges.antt =====
-- The addresses that the egress policy forbids, as ranges from a first to a last address.
use webguard_instance.Base.{
  ℕ, ◌^◌, ◌%◌, ◌/◌, ◌<◌, Bool, true, false, List, [], ◌∷◌, All, ◌≡◌, ◌⊎◌, ◌≢◌, ◌↔◌, ap, inl, inr,
  sym, ◌∙◌, arith,
}
use webguard_instance.Target.Address.{Addr, v4, v6, unmap, is_unsafe_unmapped, is_unsafe_address}

-- Below the first address of a range, or above the last.
abbrev pub Outside : ℕ → ℕ × ℕ → Type 0
Outside n (first, last) = (n < first) ⊎ (last < n)

-- 0.0.0.0/8, 10/8, 100.64/10, 127/8, 169.254/16, 172.16/12, 192.0.0/24, 192.0.2/24, 192.168/16,
-- 198.18/15, 198.51.100/24, 203.0.113/24, and 224.0.0.0 to the end
abbrev pub forbidden_v4 : List (ℕ × ℕ)
forbidden_v4 =
    (0x00000000, 0x00ffffff)
    ∷ (0x0a000000, 0x0affffff)
    ∷ (0x64400000, 0x647fffff)
    ∷ (0x7f000000, 0x7fffffff)
    ∷ (0xa9fe0000, 0xa9feffff)
    ∷ (0xac100000, 0xac1fffff)
    ∷ (0xc0000000, 0xc00000ff)
    ∷ (0xc0000200, 0xc00002ff)
    ∷ (0xc0a80000, 0xc0a8ffff)
    ∷ (0xc6120000, 0xc613ffff)
    ∷ (0xc6336400, 0xc63364ff)
    ∷ (0xcb007100, 0xcb0071ff)
    ∷ (0xe0000000, 0xffffffff)
    ∷ []

-- ::1, fc00::/7, fe80::/10, ff00::/8
abbrev pub forbidden_zoned : List (ℕ × ℕ)
forbidden_zoned =
    (1, 1)
    ∷ (0xfc000000000000000000000000000000, 0xfdffffffffffffffffffffffffffffff)
    ∷ (0xfe800000000000000000000000000000, 0xfebfffffffffffffffffffffffffffff)
    ∷ (0xff000000000000000000000000000000, 0xffffffffffffffffffffffffffffffff)
    ∷ []

-- ::, 64:ff9b::/96, 2001:db8::/32, fec0::/10, which count only for an address without a zone
abbrev pub forbidden_v6 : List (ℕ × ℕ)
forbidden_v6 =
    (0, 0)
    ∷ (0x64ff9b000000000000000000000000, 0x64ff9b0000000000000000ffffffff)
    ∷ (0x20010db8000000000000000000000000, 0x20010db8ffffffffffffffffffffffff)
    ∷ (0xfec00000000000000000000000000000, 0xfeffffffffffffffffffffffffffffff)
    ∷ []

-- What the number of an address must avoid. The addresses ::ffff:0:0/96 are those of IPv4. An address with a
-- zone need not avoid the ranges of `forbidden_v6`: it may lie in 64:ff9b::/96 (NAT64) or 2001:db8::/32
-- (documentation), which the code does not see there.
abbrev pub IsPublic : Addr → Type 0
IsPublic (v4 n) = All (Outside n) forbidden_v4
IsPublic (v6 n false) =
    (n / 2 ^ 32 ≡ 0xffff → All (Outside (n % 2 ^ 32)) forbidden_v4)
    × All (Outside n) forbidden_zoned
    × All (Outside n) forbidden_v6
IsPublic (v6 n true) =
    (n / 2 ^ 32 ≡ 0xffff → All (Outside (n % 2 ^ 32)) forbidden_v4)
    × All (Outside n) forbidden_zoned

-- The bits of an address are 32 or 128.
abbrev pub InBits : Addr → Type 0
InBits (v4 n) = n < 2 ^ 32
InBits (v6 n zoned) = n < 2 ^ 128

unmapped_v4 :
    (n : ℕ) → is_unsafe_unmapped (v4 n) ≡ false → n < 2 ^ 32 → All (Outside n) forbidden_v4
unfolding is_unsafe_unmapped
unmapped_v4 n h b = ground (arith)

unmapped_zoned :
    (n : ℕ) (zoned : Bool)
    → is_unsafe_unmapped (v6 n zoned) ≡ false
    → n < 2 ^ 128
    → All (Outside n) forbidden_zoned
unfolding is_unsafe_unmapped
unmapped_zoned n zoned h b = ground (arith)

unmapped_v6 :
    (n : ℕ) → is_unsafe_unmapped (v6 n false) ≡ false → n < 2 ^ 128 → All (Outside n) forbidden_v6
unfolding is_unsafe_unmapped
unmapped_v6 n h b = ground (arith)

unmapped_v4_iff :
    (n : ℕ) → n < 2 ^ 32 → All (Outside n) forbidden_v4 → is_unsafe_unmapped (v4 n) ≡ false
unfolding is_unsafe_unmapped
unmapped_v4_iff n b h = ground (arith)

unmapped_zoned_iff :
    (n : ℕ) → n < 2 ^ 128 → All (Outside n) forbidden_zoned → is_unsafe_unmapped (v6 n true) ≡ false
unfolding is_unsafe_unmapped
unmapped_zoned_iff n b h = ground (arith)

unmapped_v6_iff :
    (n : ℕ)
    → n < 2 ^ 128
    → All (Outside n) forbidden_zoned
    → All (Outside n) forbidden_v6
    → is_unsafe_unmapped (v6 n false) ≡ false
unfolding is_unsafe_unmapped
unmapped_v6_iff n b h k = ground (arith)

mapped-Outside :
    (n : ℕ) → n / 2 ^ 32 ≡ 0xffff → All (Outside n) forbidden_zoned × All (Outside n) forbidden_v6
mapped-Outside n e = ground arith

of_mapped :
    (n : ℕ) (zoned : Bool)
    → n / 2 ^ 32 ≡ 0xffff
    → is_unsafe_address (v6 n zoned) ≡ is_unsafe_unmapped (v4 (n % 2 ^ 32))
unfolding is_unsafe_address unmap
of_mapped n zoned e =
    ap is_unsafe_unmapped {x = unmap (v6 n zoned)} {y = v4 (n % 2 ^ 32)} (ground arith)

of_other :
    (n : ℕ) (zoned : Bool)
    → n / 2 ^ 32 ≢ 0xffff
    → is_unsafe_address (v6 n zoned) ≡ is_unsafe_unmapped (v6 n zoned)
unfolding is_unsafe_address unmap
of_other n zoned e = ap is_unsafe_unmapped {x = unmap (v6 n zoned)} {y = v6 n zoned} (ground arith)

below : (n : ℕ) → n % 2 ^ 32 < 2 ^ 32
below n = omega arith

mapped_cases : (n : ℕ) → (n / 2 ^ 32 ≡ 0xffff) ⊎ (n / 2 ^ 32 ≢ 0xffff)
mapped_cases n = ground arith

mapped_sound :
    (n : ℕ) (zoned : Bool)
    → is_unsafe_address (v6 n zoned) ≡ false
    → n / 2 ^ 32 ≡ 0xffff
    → All (Outside (n % 2 ^ 32)) forbidden_v4
mapped_sound n zoned h e = unmapped_v4 (n % 2 ^ 32) (sym (of_mapped n zoned e) ∙ h) (below n)

mapped_complete :
    (n : ℕ) (zoned : Bool)
    → n / 2 ^ 32 ≡ 0xffff
    → All (Outside (n % 2 ^ 32)) forbidden_v4
    → is_unsafe_address (v6 n zoned) ≡ false
mapped_complete n zoned e o = of_mapped n zoned e ∙ unmapped_v4_iff (n % 2 ^ 32) (below n) o

zoned_sound :
    (n : ℕ) (zoned : Bool)
    → n < 2 ^ 128
    → is_unsafe_address (v6 n zoned) ≡ false
    → All (Outside n) forbidden_zoned
zoned_sound n zoned b h = elim (mapped_cases n) [
  | inl e ↦ (mapped-Outside n e).0
  | inr e ↦ unmapped_zoned n zoned (sym (of_other n zoned e) ∙ h) b
]

v6_sound :
    (n : ℕ) → n < 2 ^ 128 → is_unsafe_address (v6 n false) ≡ false → All (Outside n) forbidden_v6
v6_sound n b h = elim (mapped_cases n) [
  | inl e ↦ (mapped-Outside n e).1
  | inr e ↦ unmapped_v6 n (sym (of_other n false e) ∙ h) b
]

v6_complete : (n : ℕ) → n < 2 ^ 128 → IsPublic (v6 n false) → is_unsafe_address (v6 n false) ≡ false
v6_complete n b h = elim (mapped_cases n) [
  | inl e ↦ mapped_complete n false e (h.0 e)
  | inr e ↦ of_other n false e ∙ unmapped_v6_iff n b h.1 h.2
]

zoned_complete :
    (n : ℕ) → n < 2 ^ 128 → IsPublic (v6 n true) → is_unsafe_address (v6 n true) ≡ false
zoned_complete n b h = elim (mapped_cases n) [
  | inl e ↦ mapped_complete n true e (h.0 e)
  | inr e ↦ of_other n true e ∙ unmapped_zoned_iff n b h.1
]

-- The code admits an address of 32 or 128 bits exactly when it lies outside every range above: the
-- IPv4 ranges, also when it is written as IPv6, and, for IPv6, those without a zone or with one.
pub is_unsafe_address-IsPublic : (a : Addr) → InBits a → (is_unsafe_address a ≡ false) ↔ IsPublic a
unfolding is_unsafe_address unmap
is_unsafe_address-IsPublic (v4 n) b = ((λ h. unmapped_v4 n h b), unmapped_v4_iff n b)
is_unsafe_address-IsPublic (v6 n false) b =
    ((λ h. (mapped_sound n false h, zoned_sound n false b h, v6_sound n b h)), v6_complete n b)
is_unsafe_address-IsPublic (v6 n true) b =
    ((λ h. (mapped_sound n true h, zoned_sound n true b h)), zoned_complete n b)
