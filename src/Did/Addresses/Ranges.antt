-- ===== src/Did/Addresses/Ranges.antt =====
-- isBlockedIP by the address ranges that its comment names, and what the dialer may reach.
use Prim.Native.Nat.{bit_and}
use atproto_push_gateway.Base.{
  passes_upto, passes_upto-at, ℕ, ◌+◌, ◌*◌, ◌≡◌, ◌↔◌, ◌<◌, refl, sym, length, ◌∙◌, ◌==◌, Text,
  Bytes, Bool, true, false, not, ◌&&◌, ◌||◌, List, [], ◌∷◌, ◌++◌, Option, none, some, leb, nat_eq,
  some_of, if◌then◌else◌, arith, inl, inr, Option-cases,
}
use atproto_push_gateway.Did.Addresses.{
  v4_in_v6_prefix, to4, is_blocked_v4, is_blocked_v6, is_blocked_ip, dial, ipv6_loopback,
  ipv6_unspecified,
}

-- An IPv4 address as a number.
abbrev pub v4_number : (a b c d : ℕ) → ℕ
v4_number a b c d = ((a * 256 + b) * 256 + c) * 256 + d

-- The first and the last address of each range that the resolver refuses.
abbrev pub blocked_ranges : List (ℕ × ℕ)
blocked_ranges =
    (v4_number 0 0 0 0, v4_number 0 255 255 255)
    ∷ (v4_number 10 0 0 0, v4_number 10 255 255 255)
    ∷ (v4_number 100 64 0 0, v4_number 100 127 255 255)
    ∷ (v4_number 127 0 0 0, v4_number 127 255 255 255)
    ∷ (v4_number 169 254 0 0, v4_number 169 254 255 255)
    ∷ (v4_number 172 16 0 0, v4_number 172 31 255 255)
    ∷ (v4_number 192 168 0 0, v4_number 192 168 255 255)
    ∷ (v4_number 224 0 0 0, v4_number 239 255 255 255)
    ∷ (v4_number 255 255 255 255, v4_number 255 255 255 255)
    ∷ []

abbrev pub in_range : ℕ → ℕ × ℕ → Bool
in_range n (first, last) = leb first n && leb n last

same : Bool → Bool → Bool
same true b = b
same false b = not b

high_nibble : ℕ → ℕ → Bool
high_nibble low b = same (nat_eq (bit_and b 0xf0) low) (leb low b && leb b (low + 15))

multicast_table : passes_upto 256 (high_nibble 0xe0) ≡ true
unfolding passes_upto high_nibble same
multicast_table = refl

private_table : passes_upto 256 (high_nibble 16) ≡ true
unfolding passes_upto high_nibble same
private_table = refl

high_nibble-range :
    (low b : ℕ)
    → passes_upto 256 (high_nibble low) ≡ true
    → b < 256
    → nat_eq (bit_and b 0xf0) low ≡ (leb low b && leb b (low + 15))
unfolding high_nibble same
high_nibble-range low b table byte =
    ground (arith, passes_upto-at 256 (high_nibble low) b table byte)

module _ (a b c d : ℕ) (a_byte : a < 256) (b_byte : b < 256) (c_byte : c < 256)
    (d_byte : d < 256) where
  slash8 :
      (k : ℕ)
      → nat_eq a k ≡ in_range (v4_number a b c d) (v4_number k 0 0 0, v4_number k 255 255 255)
  slash8 k = ground arith

  slash16 :
      (k j : ℕ)
      → j < 256
      → (nat_eq a k && nat_eq b j)
        ≡ in_range (v4_number a b c d) (v4_number k j 0 0, v4_number k j 255 255)
  slash16 k j h = ground arith

  slash10 :
      (nat_eq a 100 && leb 64 b && leb b 127)
      ≡ in_range (v4_number a b c d) (v4_number 100 64 0 0, v4_number 100 127 255 255)
  slash10 = ground arith

  slash12 :
      (nat_eq a 172 && nat_eq (bit_and b 0xf0) 16)
      ≡ in_range (v4_number a b c d) (v4_number 172 16 0 0, v4_number 172 31 255 255)
  slash12 = rw (high_nibble-range 16 b private_table b_byte) (ground arith)

  slash4 :
      nat_eq (bit_and a 0xf0) 0xe0
      ≡ in_range (v4_number a b c d) (v4_number 224 0 0 0, v4_number 239 255 255 255)
  slash4 = high_nibble-range 0xe0 a multicast_table a_byte ∙ ground arith

  slash32 :
      (nat_eq a 255 && nat_eq b 255 && nat_eq c 255 && nat_eq d 255)
      ≡ in_range (v4_number a b c d) (v4_number 255 255 255 255, v4_number 255 255 255 255)
  slash32 = ground arith

  in_ranges :
      is_blocked_v4 (a ∷ b ∷ c ∷ d ∷ []) ≡ some_of (in_range (v4_number a b c d)) blocked_ranges
  unfolding is_blocked_v4
  in_ranges =
      union (slash8 0) (slash8 10) slash10 (slash8 127) (slash16 169 254 (omega arith)) slash12
        (slash16 192 168 (omega arith)) slash4 slash32 group224 unspecified
    where
      union :
          {x0 x10 x100 x127 x169 x172 x192 x224 x255 y0 y10 y100 y127 y169 y172 y192 y224 y255 g
            u : Bool}
          → x0 ≡ y0
          → x10 ≡ y10
          → x100 ≡ y100
          → x127 ≡ y127
          → x169 ≡ y169
          → x172 ≡ y172
          → x192 ≡ y192
          → x224 ≡ y224
          → x255 ≡ y255
          → (g ≡ true → x224 ≡ true)
          → (u ≡ true → x0 ≡ true)
          → (x127 || x169 || g || x224 || u || x10 || x172 || x192 || x255 || x100 || x0) ≡ (
              y0
              || (y10
                  || (y100 || (y127 || (y169 || (y172 || (y192 || (y224 || (y255 || false)))))))))
      union e0 e10 e100 e127 e169 e172 e192 e224 e255 h k = ground arith

      group224 :
          (nat_eq a 224 && nat_eq b 0 && nat_eq c 0) ≡ true → nat_eq (bit_and a 0xf0) 0xe0 ≡ true
      group224 h = let is224 : a ≡ 224 = ground arith in rw is224 refl

      unspecified :
          (nat_eq a 0 && nat_eq b 0 && nat_eq c 0 && nat_eq d 0) ≡ true → nat_eq a 0 ≡ true
      unspecified h = ground arith

  -- An IPv4 address, in 4 bytes or in the 16 of IPv6, is refused exactly if its number lies in one
  -- of the refused ranges.
  pub is_blocked_ip_iff :
      (is_blocked_ip (a ∷ b ∷ c ∷ d ∷ []) ≡ some_of (in_range (v4_number a b c d)) blocked_ranges)
      × (is_blocked_ip (v4_in_v6_prefix ++ a ∷ b ∷ c ∷ d ∷ [])
          ≡ some_of (in_range (v4_number a b c d)) blocked_ranges)
  unfolding is_blocked_ip to4 ◌==◌
  is_blocked_ip_iff = (in_ranges, in_ranges)

-- The first and the last value of the first two bytes, for each range of IPv6 that is refused:
-- fc00::/7, and fe80::/10, fec0::/10 and ff00::/8, which follow each other.
abbrev pub blocked_v6_ranges : List (ℕ × ℕ)
blocked_v6_ranges = (0xfc00, 0xfdff) ∷ (0xfe80, 0xffff) ∷ []

is_local : ℕ → Bool
is_local b = same (nat_eq (bit_and b 0xc0) 0x80 || nat_eq (bit_and b 0xc0) 0xc0) (leb 0x80 b)

local_table : passes_upto 256 is_local ≡ true
unfolding passes_upto is_local same
local_table = refl

is_unique : ℕ → Bool
is_unique a = same (nat_eq (bit_and a 0xfe) 0xfc) (nat_eq a 0xfc || nat_eq a 0xfd)

unique_table : passes_upto 256 is_unique ≡ true
unfolding passes_upto is_unique same
unique_table = refl

-- An address of 16 bytes that is no IPv4 address is refused exactly if its first two bytes lie in
-- a refused range, or it is ::1 or ::.
is_blocked_ip_v6_iff :
    (a b : ℕ) (ip : Bytes)
    → a < 256
    → b < 256
    → length ip ≡ 14
    → to4 (a ∷ b ∷ ip) ≡ none
    → is_blocked_ip (a ∷ b ∷ ip) ≡ (
        some_of (in_range (a * 256 + b)) blocked_v6_ranges
        || (a ∷ b ∷ ip) == ipv6_loopback
        || (a ∷ b ∷ ip) == ipv6_unspecified)
unfolding is_blocked_ip is_blocked_v6 is_local is_unique same
is_blocked_ip_v6_iff a b ip a_byte b_byte size no_v4 = ground (
  arith,
  no_v4,
  size,
  passes_upto-at 256 is_local b local_table b_byte,
  passes_upto-at 256 is_unique a unique_table a_byte,
)

-- A host is dialled at the first of its addresses, and only if none of them is in a refused range.
pub dial_iff :
    (lookup_ip_addr : Text → Option (List Bytes)) (host : Text) (ip : Bytes)
    → (dial lookup_ip_addr host ≡ some ip) ↔ (
        (others : List Bytes) × (lookup_ip_addr host ≡ some (ip ∷ others))
        × (some_of is_blocked_ip (ip ∷ others) ≡ false))
unfolding dial
dial_iff lookup_ip_addr host ip = (
  λ e. elim (Option-cases (lookup_ip_addr host)) [
    | inl failed ↦ absurd (ground (arith, failed))
    | inr (ips, found) ↦ read ips found (sym (sent ips found) ∙ e)
  ],
  λ (others, found, passed). sent (ip ∷ others) found ∙ rw passed refl,
)
  where
    first_open : List Bytes → Option Bytes
    first_open [] = none
    first_open (i ∷ others) = if some_of is_blocked_ip (i ∷ others) then none else some i

    sent :
        (ips : List Bytes)
        → lookup_ip_addr host ≡ some ips
        → dial lookup_ip_addr host ≡ first_open ips
    sent [] found = rw (dial, found) refl
    sent (i ∷ ips) found = rw (dial, found) refl

    read :
        (ips : List Bytes)
        → lookup_ip_addr host ≡ some ips
        → first_open ips ≡ some ip
        → (others : List Bytes) × (lookup_ip_addr host ≡ some (ip ∷ others))
          × (some_of is_blocked_ip (ip ∷ others) ≡ false)
    read [] found e = absurd (ground (arith, e))
    read (i ∷ others) found e =
        let is_open : some_of is_blocked_ip (i ∷ others) ≡ false = ground (arith, e) in
        let first : i ≡ ip = ground (arith, e) in (others, rw (← first) found, rw (← first) is_open)
