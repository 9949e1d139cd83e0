-- ===== src/Target/Address.antt =====
-- isUnsafeAddress of internal/adapters/target/target.go. An address is a number of 32 or 128 bits; of a
-- zone the code sees only whether there is one. The methods of netip.Addr and netip.Prefix are those of
-- Go's library: Contains answers false for an address with a zone, Unmap drops the zone.
pub mod Ranges
use webguard_instance.Base.{
  ℕ, ◌+◌, ◌*◌, ◌/◌, ◌%◌, ◌^◌, Bool, true, false, not, ◌&&◌, ◌||◌, List, [], ◌∷◌, leb, ◌==◌,
  if◌then◌else◌,
}

pub data Addr : Type 0 where
  v4 : ℕ → Addr
  v6 : ℕ → Bool → Addr

-- netip.Addr.Unmap: the addresses ::ffff:0:0/96 stand for those of IPv4.
unfoldable pub unmap : Addr → Addr
unmap (v4 n) = v4 n
unmap (v6 n zoned) = if n / 2 ^ 32 == 0xffff then v4 (n % 2 ^ 32) else v6 n zoned

-- netip.Prefix: the first bits of an address, and how many follow.
pub data Prefix : Type 0 where
  prefix4 prefix6 : ℕ → ℕ → Prefix

unfoldable pub has_address : Prefix → Addr → Bool
has_address (prefix4 top rest) (v4 n) = n / 2 ^ rest == top
has_address (prefix6 top rest) (v6 n zoned) = not zoned && n / 2 ^ rest == top
has_address _ _ = false

abbrev pub blocked_address_ranges : List Prefix
blocked_address_ranges =
    prefix4 0 24
    ∷ prefix4 0x191 22
    ∷ prefix4 0xc00000 8
    ∷ prefix4 0xc00002 8
    ∷ prefix4 0x6309 17
    ∷ prefix4 0xc63364 8
    ∷ prefix4 0xcb0071 8
    ∷ prefix4 0xf 28
    ∷ prefix6 0x64ff9b0000000000000000 32
    ∷ prefix6 0x20010db8 96
    ∷ prefix6 0x3fb 118
    ∷ []

is_loopback : Addr → Bool
is_loopback (v4 n) = n / 2 ^ 24 == 127
is_loopback (v6 n zoned) = n == 1

is_private : Addr → Bool
is_private (v4 n) = n / 2 ^ 24 == 10 || n / 2 ^ 20 == 0xac1 || n / 2 ^ 16 == 0xc0a8
is_private (v6 n zoned) = n / 2 ^ 121 == 0x7e

is_link_local_unicast : Addr → Bool
is_link_local_unicast (v4 n) = n / 2 ^ 16 == 0xa9fe
is_link_local_unicast (v6 n zoned) = n / 2 ^ 118 == 0x3fa

-- Of an IPv6 group the four bits between ff and the scope are flags.
is_link_local_multicast : Addr → Bool
is_link_local_multicast (v4 n) = n / 2 ^ 8 == 0xe00000
is_link_local_multicast (v6 n zoned) = n / 2 ^ 120 == 0xff && (n / 2 ^ 112) % 16 == 2

is_multicast : Addr → Bool
is_multicast (v4 n) = n / 2 ^ 28 == 0xe
is_multicast (v6 n zoned) = n / 2 ^ 120 == 0xff

-- Equal to 0.0.0.0, or to :: without a zone.
is_unspecified : Addr → Bool
is_unspecified (v4 n) = n == 0
is_unspecified (v6 n zoned) = not zoned && n == 0

any_range : List Prefix → Addr → Bool
any_range [] a = false
any_range (p ∷ ps) a = has_address p a || any_range ps a

unfoldable pub is_unsafe_unmapped : Addr → Bool
unfolding is_loopback is_private is_link_local_unicast is_link_local_multicast is_multicast
    is_unspecified any_range has_address
is_unsafe_unmapped a =
    if is_loopback a
      || is_private a
      || is_link_local_unicast a
      || is_link_local_multicast a
      || is_multicast a
      || is_unspecified a
    then true
    else any_range blocked_address_ranges a

unfoldable pub is_unsafe_address : Addr → Bool
unfolding unmap is_unsafe_unmapped
is_unsafe_address a = is_unsafe_unmapped (unmap a)
