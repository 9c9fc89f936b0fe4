-- ===== src/Did/Keys.antt =====
-- resolver.go: GetSigningKey, parseJWKKey, parseMultibaseKey.
pub mod Multibase
use atproto_push_gateway.Base.{
  ℕ, ◌==◌, Text, Bytes, Bool, true, false, not, ◌&&◌, ◌||◌, List, [], ◌∷◌, Option, none, some, lit,
  length, drop, ltb, nat_eq, byte_len, has_prefix, if◌then◌else◌, set_bytes,
}
use atproto_push_gateway.Did.{
  Jwk, VerificationMethod, DidDocument, Curve, p256, secp256k1, PublicKey, KeyParsers,
}
use atproto_push_gateway.Did.Base58.{base58_decode}

-- strings.Contains
unfoldable pub contains : Text → Text → Bool
contains [] sub = sub == []
contains (c ∷ s) sub = has_prefix (c ∷ s) sub || contains s sub

unfoldable pub curve_of : (crv : Text) → Option Curve
curve_of crv =
    if crv == lit "secp256k1"
    then some secp256k1
    else if crv == lit "P-256"
    then some p256
    else none

-- The bytes after the two of the multicodec, for a key of 35 bytes that starts with them.
unfoldable pub compressed_key : (first second : ℕ) → Bytes → Option Bytes
compressed_key first second (a ∷ b ∷ key) =
    if nat_eq (length (a ∷ b ∷ key)) 35 && nat_eq a first && nat_eq b second then some key else none
compressed_key first second _ = none

unfoldable pub key_on : Curve → Option (ℕ × ℕ) → Option PublicKey
key_on curve none = none
key_on curve (some (x, y)) = some (record { curve = curve; x = x; y = y })

module _ (parsers : KeyParsers) where
  unfoldable pub parse_jwk_key : Jwk → Option PublicKey
  unfolding curve_of
  parse_jwk_key jwk = if not (jwk.kty == lit "EC") then none else elim (parsers.raw_url jwk.x) [
    | none ↦ none
    | some x ↦ elim (parsers.raw_url jwk.y) [
      | none ↦ none
      | some y ↦ elim (curve_of jwk.crv) [
        | none ↦ none
        | some curve ↦ some (record { curve = curve; x = set_bytes x; y = set_bytes y })
      ]
    ]
  ]

  -- The check of the length of the key after its prefix, 33, cannot fail after that of the whole.
  unfoldable pub parse_multicodec_key : Bytes → Option PublicKey
  unfolding compressed_key key_on
  parse_multicodec_key decoded =
      if ltb (length decoded) 2 then none else elim (compressed_key 0xe7 0x01 decoded) [
        | some key ↦ key_on secp256k1 (parsers.parse_secp256k1 key)
        | none ↦ elim (compressed_key 0x80 0x24 decoded) [
          | some key ↦ key_on p256 (parsers.unmarshal_p256 key)
          | none ↦ none
        ]
      ]

  unfoldable pub parse_multibase_key : (multibase : Text) → Option PublicKey
  unfolding parse_multicodec_key
  parse_multibase_key [] = none
  parse_multibase_key (prefix ∷ digits) =
      if ltb (byte_len (prefix ∷ digits)) 2
      then none
      else if not (nat_eq prefix b'z')
      then none
      else elim (base58_decode digits) [ none ↦ none | some decoded ↦ parse_multicodec_key decoded ]

  unfoldable pub parse_method : VerificationMethod → Option PublicKey
  unfolding parse_jwk_key parse_multibase_key
  parse_method vm = elim vm.public_key_jwk [
    | some jwk ↦ parse_jwk_key jwk
    | none ↦
        if not (vm.public_key_multibase == [])
        then parse_multibase_key vm.public_key_multibase
        else none
  ]

  -- The loop over the verification methods: the first one for "#atproto" decides.
  unfoldable pub first_key : List VerificationMethod → Option PublicKey
  unfolding parse_method contains
  first_key [] = none
  first_key (vm ∷ vms) =
      let rest = first_key vms in
      if not (contains vm.id (lit "#atproto")) then rest else parse_method vm

  unfoldable pub get_signing_key : DidDocument → Option PublicKey
  unfolding first_key
  get_signing_key doc = first_key doc.verification_method
