-- ===== src/Did/Keys/Multibase.antt =====
-- Keys that are written as did:plc documents write them: multibase, multicodec, compressed.
use atproto_push_gateway.Base.{
  ℕ, ◌≡◌, ◌<◌, refl, ap, ◌∙◌, ◌==◌, Text, Bytes, true, false, List, [], ◌∷◌, ◌++◌, Option, none,
  some, lit, All, length, byte_len, horner, digits_onto, arith,
}
use atproto_push_gateway.Did.{VerificationMethod, DidDocument, Curve, p256, secp256k1, KeyParsers}
use atproto_push_gateway.Did.Base58.{base58_decode, base58_value, leading_ones, zeros}
use atproto_push_gateway.Did.Base58.Encoding.{base58_encode, base58_decode-encode}
use atproto_push_gateway.Did.Keys.{
  contains, compressed_key, key_on, parse_multicodec_key, parse_multibase_key, parse_method,
  first_key, get_signing_key,
}

-- The multicodec of a curve.
abbrev pub multicodec : Curve → Bytes
multicodec secp256k1 = 0xe7 ∷ 0x01 ∷ []
multicodec p256 = 0x80 ∷ 0x24 ∷ []

abbrev pub did_key : Curve → Bytes → Text
did_key curve key = b'z' ∷ base58_encode (multicodec curve ++ key)

module _ (parsers : KeyParsers) where
  abbrev pub decompress : Curve → Bytes → Option (ℕ × ℕ)
  decompress secp256k1 key = parsers.parse_secp256k1 key
  decompress p256 key = parsers.unmarshal_p256 key

  multicodec-key :
      (curve : Curve) (key : Bytes)
      → length key ≡ 33
      → parse_multicodec_key parsers (multicodec curve ++ key) ≡ key_on curve (decompress curve key)
  unfolding parse_multicodec_key compressed_key
  multicodec-key secp256k1 key fits = ground arith
  multicodec-key p256 key fits = ground arith

  multibase-decoded :
      (c : ℕ) (digits : Text) (decoded : Bytes)
      → base58_decode (c ∷ digits) ≡ some decoded
      → parse_multibase_key parsers (b'z' ∷ c ∷ digits) ≡ parse_multicodec_key parsers decoded
  unfolding parse_multibase_key byte_len
  multibase-decoded c digits decoded read = ground (arith, read)

  multibase_read :
      (a : ℕ) (decoded : Bytes) (digits : Text)
      → base58_decode digits ≡ some (a ∷ decoded)
      → parse_multibase_key parsers (b'z' ∷ digits) ≡ parse_multicodec_key parsers (a ∷ decoded)
  unfolding base58_decode base58_value leading_ones zeros horner digits_onto
  multibase_read a decoded [] read = absurd (ground (arith, read))
  multibase_read a decoded (c ∷ digits) read = multibase-decoded c digits (a ∷ decoded) read

  multicodec-All :
      (curve : Curve) (key : Bytes)
      → All (λ b. b < 256) key
      → All (λ b. b < 256) (multicodec curve ++ key)
  multicodec-All secp256k1 key low = (omega arith, (omega arith, low))
  multicodec-All p256 key low = (omega arith, (omega arith, low))

  -- A compressed key of 33 bytes, written with its curve's multicodec in base 58 after the letter
  -- z, is read as the point that the curve's own parser finds in those bytes, and fails exactly
  -- where that parser fails.
  pub parse_multibase_key-did_key :
      (curve : Curve) (key : Bytes)
      → length key ≡ 33
      → All (λ b. b < 256) key
      → parse_multibase_key parsers (did_key curve key) ≡ key_on curve (decompress curve key)
  parse_multibase_key-did_key secp256k1 key fits low =
      multibase_read 0xe7 (0x01 ∷ key) (base58_encode (0xe7 ∷ 0x01 ∷ key))
        (base58_decode-encode (0xe7 ∷ 0x01 ∷ key) (multicodec-All secp256k1 key low))
      ∙ multicodec-key secp256k1 key fits
  parse_multibase_key-did_key p256 key fits low =
      multibase_read 0x80 (0x24 ∷ key) (base58_encode (0x80 ∷ 0x24 ∷ key))
        (base58_decode-encode (0x80 ∷ 0x24 ∷ key) (multicodec-All p256 key low))
      ∙ multicodec-key p256 key fits

  first_key-skip :
      (vm : VerificationMethod) (later before : List VerificationMethod)
      → All (λ other. contains other.id (lit "#atproto") ≡ false) before
      → first_key parsers (before ++ vm ∷ later) ≡ first_key parsers (vm ∷ later)
  unfolding first_key
  first_key-skip vm later [] others = refl
  first_key-skip vm later (b ∷ before) (other, others) =
      rw (first_key, other) (first_key-skip vm later before others)

  first_key-ours :
      (vm : VerificationMethod) (later : List VerificationMethod)
      → contains vm.id (lit "#atproto") ≡ true
      → first_key parsers (vm ∷ later) ≡ parse_method parsers vm
  unfolding first_key
  first_key-ours vm later ours = rw (first_key, ours) refl

  parse_method-multibase :
      (vm : VerificationMethod) (digits : Text)
      → vm.public_key_jwk ≡ none
      → vm.public_key_multibase ≡ b'z' ∷ digits
      → parse_method parsers vm ≡ parse_multibase_key parsers (b'z' ∷ digits)
  unfolding parse_method ◌==◌
  parse_method-multibase vm digits jwk multibase = ground (arith, jwk, multibase)

  -- A document whose first verification method for "#atproto" has such a key, and no JWK, has that
  -- key for its signing key, whatever the methods before it are for.
  pub get_signing_key-did_key :
      (doc : DidDocument) (vm : VerificationMethod) (before later : List VerificationMethod)
      (curve : Curve) (key : Bytes)
      → doc.verification_method ≡ before ++ vm ∷ later
      → All (λ other. contains other.id (lit "#atproto") ≡ false) before
      → contains vm.id (lit "#atproto") ≡ true
      → vm.public_key_jwk ≡ none
      → vm.public_key_multibase ≡ did_key curve key
      → length key ≡ 33
      → All (λ b. b < 256) key
      → get_signing_key parsers doc ≡ key_on curve (decompress curve key)
  unfolding get_signing_key
  get_signing_key-did_key doc vm before later curve key methods others ours jwk multibase fits low =
      ap (first_key parsers) methods
      ∙ first_key-skip vm later before others
      ∙ first_key-ours vm later ours
      ∙ parse_method-multibase vm (base58_encode (multicodec curve ++ key)) jwk multibase
      ∙ parse_multibase_key-did_key curve key fits low
