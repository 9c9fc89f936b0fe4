-- ===== src/Did/Base58.antt =====
-- resolver.go: base58Decode.
pub mod Encoding
use atproto_push_gateway.Base.{
  ℕ, zero, suc, ◌+◌, ◌*◌, Text, Bytes, Bool, List, [], ◌∷◌, ◌++◌, Option, none, some, lit, nat_eq,
  if◌then◌else◌, int_bytes,
}

abbrev pub alphabet : Text
alphabet = lit "123456789ABCDEFGHJKLMNPQRSTUVWXYZabcdefghijkmnopqrstuvwxyz"

-- strings.IndexRune, on ASCII.
unfoldable pub index_rune : Text → ℕ → Option ℕ
index_rune [] c = none
index_rune (d ∷ s) c =
    let rest = index_rune s c in
    if nat_eq d c then some 0 else elim rest [ none ↦ none | some i ↦ some (suc i) ]

-- The loop over the digits; none for a character that is no digit.
unfoldable pub base58_value : ℕ → Text → Option ℕ
base58_value result [] = some result
base58_value result (c ∷ s) = elim (index_rune alphabet c) [
  | none ↦ none
  | some idx ↦ base58_value (result * 58 + idx) s
]

unfoldable pub leading_ones : Text → ℕ
leading_ones [] = 0
leading_ones (c ∷ s) = let rest = leading_ones s in if nat_eq c b'1' then suc rest else 0

unfoldable pub zeros : ℕ → Bytes
zeros zero = []
zeros (suc n) = 0 ∷ zeros n

unfoldable pub base58_decode : Text → Option Bytes
unfolding base58_value leading_ones zeros
base58_decode s = elim (base58_value 0 s) [
  | none ↦ none
  | some result ↦ some (zeros (leading_ones s) ++ int_bytes result)
]
