-- ===== src/Did/Addresses.antt =====
-- resolver.go: isBlockedIP, and the dialer that NewResolverWithCacheSize makes. An address is a
-- net.IP: 4 or 16 bytes. The predicates of package net are those of its documentation.
pub mod Ranges
use Prim.Native.Nat.{bit_and}
use atproto_push_gateway.Base.{
  ℕ, ◌==◌, Text, Bytes, Bool, true, false, not, ◌&&◌, ◌||◌, List, [], ◌∷◌, ◌++◌, Option, none, some,
  leb, nat_eq, length, if◌then◌else◌, some_of,
}

-- The first twelve bytes of an IPv4 address in 16 bytes.
abbrev pub v4_in_v6_prefix : Bytes
v4_in_v6_prefix = 0 ∷ 0 ∷ 0 ∷ 0 ∷ 0 ∷ 0 ∷ 0 ∷ 0 ∷ 0 ∷ 0 ∷ 0xff ∷ 0xff ∷ []

-- IP.To4
unfoldable pub to4 : Bytes → Option Bytes
to4 (a ∷ b ∷ c ∷ d ∷ []) = some (a ∷ b ∷ c ∷ d ∷ [])
to4 (p0 ∷ p1 ∷ p2 ∷ p3 ∷ p4 ∷ p5 ∷ p6 ∷ p7 ∷ p8 ∷ p9 ∷ p10 ∷ p11 ∷ a ∷ b ∷ c ∷ d ∷ []) =
    if (p0 ∷ p1 ∷ p2 ∷ p3 ∷ p4 ∷ p5 ∷ p6 ∷ p7 ∷ p8 ∷ p9 ∷ p10 ∷ p11 ∷ []) == v4_in_v6_prefix
    then some (a ∷ b ∷ c ∷ d ∷ [])
    else none
to4 _ = none

abbrev pub ipv6_loopback : Bytes
ipv6_loopback = 0 ∷ 0 ∷ 0 ∷ 0 ∷ 0 ∷ 0 ∷ 0 ∷ 0 ∷ 0 ∷ 0 ∷ 0 ∷ 0 ∷ 0 ∷ 0 ∷ 0 ∷ 1 ∷ []

abbrev pub ipv6_unspecified : Bytes
ipv6_unspecified = 0 ∷ 0 ∷ 0 ∷ 0 ∷ 0 ∷ 0 ∷ 0 ∷ 0 ∷ 0 ∷ 0 ∷ 0 ∷ 0 ∷ 0 ∷ 0 ∷ 0 ∷ 0 ∷ []

-- IsLoopback, IsLinkLocalUnicast, IsLinkLocalMulticast, IsMulticast, IsUnspecified, IsPrivate and
-- Equal(IPv4bcast), and then CGNAT and 0.0.0.0/8, on the four bytes of an IPv4 address.
unfoldable pub is_blocked_v4 : Bytes → Bool
is_blocked_v4 (a ∷ b ∷ c ∷ d ∷ []) =
    nat_eq a 127
    || (nat_eq a 169 && nat_eq b 254)
    || (nat_eq a 224 && nat_eq b 0 && nat_eq c 0)
    || nat_eq (bit_and a 0xf0) 0xe0
    || (nat_eq a 0 && nat_eq b 0 && nat_eq c 0 && nat_eq d 0)
    || nat_eq a 10
    || (nat_eq a 172 && nat_eq (bit_and b 0xf0) 16)
    || (nat_eq a 192 && nat_eq b 168)
    || (nat_eq a 255 && nat_eq b 255 && nat_eq c 255 && nat_eq d 255)
    || (nat_eq a 100 && leb 64 b && leb b 127)
    || nat_eq a 0
is_blocked_v4 _ = false

-- The same methods on an address that is no IPv4 address, and then fec0::/10.
unfoldable pub is_blocked_v6 : Bytes → Bool
is_blocked_v6 (a ∷ b ∷ ip) =
    nat_eq (length (a ∷ b ∷ ip)) 16
    && ((a ∷ b ∷ ip) == ipv6_loopback
        || (nat_eq a 0xfe && nat_eq (bit_and b 0xc0) 0x80)
        || (nat_eq a 0xff && nat_eq (bit_and b 0x0f) 0x02)
        || nat_eq a 0xff
        || (a ∷ b ∷ ip) == ipv6_unspecified
        || nat_eq (bit_and a 0xfe) 0xfc
        || (nat_eq a 0xfe && nat_eq (bit_and b 0xc0) 0xc0))
is_blocked_v6 _ = false

-- A method of net.IP looks at the IPv4 form where there is one; the last test, for fec0::/10, is
-- never met by an address that has one.
unfoldable pub is_blocked_ip : Bytes → Bool
unfolding to4
is_blocked_ip ip = elim (to4 ip) [ some v4 ↦ is_blocked_v4 v4 | none ↦ is_blocked_v6 ip ]

-- DialContext: the addresses of a host, none if the lookup fails, and the one that is dialled.
unfoldable pub dial : (lookup_ip_addr : Text → Option (List Bytes)) → (host : Text) → Option Bytes
dial lookup_ip_addr host = elim (lookup_ip_addr host) [
  | none ↦ none
  | some ips ↦ elim ips [
    | [] ↦ none
    | ip ∷ others ↦ if some_of is_blocked_ip (ip ∷ others) then none else some ip
  ]
]
