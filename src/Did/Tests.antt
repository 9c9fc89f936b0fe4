-- ===== src/Did/Tests.antt =====
-- Runs of the DID parts at fixed inputs.
use atproto_push_gateway.Base.{
  ℕ, zero, suc, ◌≡◌, ◌↔◌, ◌<◌, refl, ◌==◌, Text, Bytes, true, false, List, [], ◌∷◌, ◌++◌, Option,
  none, some, lit, All, arith, some_of, has_prefix, horner, digits_onto,
}
use atproto_push_gateway.Did.{VerificationMethod, DidDocument, secp256k1, KeyParsers}
use atproto_push_gateway.Did.Base58.{index_rune, base58_value, leading_ones, zeros, base58_decode}
use atproto_push_gateway.Did.Base58.Encoding.{base58_encode, base58_decode-encode}
use atproto_push_gateway.Did.Keys.{contains, key_on, get_signing_key}
use atproto_push_gateway.Did.Keys.Multibase.{decompress, did_key, get_signing_key-did_key}
use atproto_push_gateway.Did.Addresses.{
  v4_in_v6_prefix, to4, is_blocked_ip, dial, is_blocked_v6, is_blocked_v4,
}
use atproto_push_gateway.Did.Addresses.Ranges.{
  v4_number, blocked_ranges, in_range, is_blocked_ip_iff, dial_iff,
}
use atproto_push_gateway.Did.Fetch.{document_url, web_domain, is_localhost}

program : Unit {0}
unfolding index_rune base58_value leading_ones zeros base58_decode contains to4 is_blocked_ip
    is_blocked_v4 is_blocked_v6 dial document_url web_domain is_localhost ◌==◌ has_prefix horner
    digits_onto
program = tt

decoded : base58_decode (lit "112Drx") ≡ some (0 ∷ 0 ∷ 3 ∷ 163 ∷ 41 ∷ [])
unfolding program
decoded = refl

not_a_digit : base58_decode (lit "1O") ≡ none
unfolding program
not_a_digit = refl

plc_url : document_url (lit "did:plc:a") ≡ some (lit "https://plc.directory/did:plc:a")
unfolding program
plc_url = refl

web_url : document_url (lit "did:web:a.b:c") ≡ some (lit "https://a.b/c/.well-known/did.json")
unfolding program
web_url = refl

local_url : document_url (lit "did:web:localhost:8080") ≡ none
unfolding program
local_url = refl

base58_decode-encode_example :
    base58_decode (base58_encode (0 ∷ 0 ∷ 7 ∷ 255 ∷ [])) ≡ some (0 ∷ 0 ∷ 7 ∷ 255 ∷ [])
base58_decode-encode_example =
    base58_decode-encode (0 ∷ 0 ∷ 7 ∷ 255 ∷ [])
      (omega arith, (omega arith, (omega arith, (omega arith, tt))))

zeros-All : (n : ℕ) → All (λ b. b < 256) (zeros n)
unfolding program
zeros-All zero = tt
zeros-All (suc n) = (omega arith, zeros-All n)

-- A key's point is its first byte and its last.
abbrev parsers : KeyParsers
parsers = record {
  raw_url = λ s. some s;
  parse_secp256k1 = λ b. some (1, 2);
  unmarshal_p256 = λ b. none;
}

abbrev method : Text → Text → VerificationMethod
method id multibase = record {
  id = id;
  method_type = lit "Multikey";
  controller = lit "did:plc:a";
  public_key_multibase = multibase;
  public_key_jwk = none;
}

abbrev other : VerificationMethod
other = method (lit "did:plc:a#rotation") (lit "zzz")

abbrev ours : VerificationMethod
ours = method (lit "did:plc:a#atproto") (did_key secp256k1 (zeros 33))

abbrev document : DidDocument
document = record { id = lit "did:plc:a"; verification_method = other ∷ ours ∷ [] }

get_signing_key-did_key_example :
    get_signing_key parsers document ≡ key_on secp256k1 (decompress parsers secp256k1 (zeros 33))
unfolding program
get_signing_key-did_key_example =
    get_signing_key-did_key parsers document ours (other ∷ []) [] secp256k1 (zeros 33) refl
      (refl, tt) refl refl refl refl (zeros-All 33)

metadata_blocked : is_blocked_ip (169 ∷ 254 ∷ 169 ∷ 254 ∷ []) ≡ true
unfolding program
metadata_blocked = refl

is_blocked_ip_iff_example :
    (is_blocked_ip (172 ∷ 31 ∷ 0 ∷ 1 ∷ [])
      ≡ some_of (in_range (v4_number 172 31 0 1)) blocked_ranges)
    × (is_blocked_ip (v4_in_v6_prefix ++ 172 ∷ 31 ∷ 0 ∷ 1 ∷ [])
        ≡ some_of (in_range (v4_number 172 31 0 1)) blocked_ranges)
is_blocked_ip_iff_example =
    is_blocked_ip_iff 172 31 0 1 (omega arith) (omega arith) (omega arith) (omega arith)

abbrev site_local : Bytes
site_local = 0xfe ∷ 0xc0 ∷ zeros 14

abbrev lookup_ip_addr : Text → Option (List Bytes)
lookup_ip_addr host = some ((8 ∷ 8 ∷ 8 ∷ 8 ∷ []) ∷ (127 ∷ 0 ∷ 0 ∷ 1 ∷ []) ∷ [])

-- One refused address is enough to refuse the host.
rebound : dial lookup_ip_addr (lit "evil.example") ≡ none
unfolding program
rebound = refl

dial_iff_example : (dial lookup_ip_addr (lit "evil.example") ≡ some (8 ∷ 8 ∷ 8 ∷ 8 ∷ [])) ↔ (
    (others : List Bytes) × (lookup_ip_addr (lit "evil.example")
      ≡ some ((8 ∷ 8 ∷ 8 ∷ 8 ∷ []) ∷ others))
    × (some_of is_blocked_ip ((8 ∷ 8 ∷ 8 ∷ 8 ∷ []) ∷ others) ≡ false))
dial_iff_example = dial_iff lookup_ip_addr (lit "evil.example") (8 ∷ 8 ∷ 8 ∷ 8 ∷ [])
