-- ===== src/Xrpc/Auth.antt =====
-- handler.go: verifyAuth, requireCloudflareTransit, isLoopbackAddr, verifyECDSASignature. The
-- callers treat every error alike, so it is none.
pub mod Authorized
use atproto_push_gateway.Base.{
  ℕ, ◌+◌, ◌-◌, ◌*◌, ◌/◌, ◌==◌, Text, Bytes, Bool, true, false, not, ◌&&◌, ◌||◌, List, [], ◌∷◌, ◌++◌,
  Option, none, some, lit, length, take, drop, ltb, nat_eq, if◌then◌else◌, has_prefix, split,
  set_bytes,
}
use atproto_push_gateway.Did.{Curve, p256, secp256k1, PublicKey}
use atproto_push_gateway.Did.Keys.{get_signing_key}
use atproto_push_gateway.Xrpc.{JwtClaims, Request, Handler, Outside}

abbrev pub max_lifetime_seconds : ℕ
max_lifetime_seconds = 300

-- A JWT's header, payload and signature, still encoded.
pub record Jwt : Type 0 where
  pub header : Text
  pub payload : Text
  pub signature : Text

unfoldable pub three_parts : List Text → Option Jwt
three_parts (a ∷ b ∷ c ∷ []) = some (record { header = a; payload = b; signature = c })
three_parts _ = none

unfoldable pub read_jwt : (authorization : Text) → Option Jwt
unfolding three_parts
read_jwt authorization =
    if not (has_prefix authorization (lit "Bearer "))
    then none
    else three_parts (split b'.' (drop 7 authorization))

unfoldable pub is_p256 : Curve → Bool
is_p256 p256 = true
is_p256 secp256k1 = false

-- Curve.Params().BitSize
unfoldable pub bit_size : Curve → ℕ
bit_size p256 = 256
bit_size secp256k1 = 256

module _ (o : Outside) where
  -- A JWS signature r || s, each of the key's size, or one in ASN.1.
  unfoldable pub verify_ecdsa_signature : PublicKey → (hash sig : Bytes) → Bool
  unfolding bit_size
  verify_ecdsa_signature key hash sig =
      let key_size = (bit_size key.curve + 7) / 8 in
      if not (nat_eq (length sig) (2 * key_size))
      then o.ecdsa_verify_asn1 key hash sig
      else o.ecdsa_verify key hash (set_bytes (take key_size sig)) (set_bytes (drop key_size sig))

  unfoldable pub is_loopback_addr : Text → Bool
  is_loopback_addr addr =
      o.is_loopback_ip (elim (o.split_host addr) [ none ↦ addr | some host ↦ host ])

  -- requireCloudflareTransit has no error.
  unfoldable pub transits_cloudflare : Handler → Request → Bool
  unfolding is_loopback_addr
  transits_cloudflare h r =
      h.dev_mode || is_loopback_addr r.remote_addr || not (r.cf_connecting_ip == [])

  unfoldable pub read_claims : (payload : Text) → Option JwtClaims
  read_claims payload = elim (o.raw_url payload) [ none ↦ none | some bytes ↦ o.claims bytes ]

  unfoldable pub read_alg : (header : Text) → Option Text
  read_alg header = elim (o.raw_url header) [ none ↦ none | some bytes ↦ o.alg bytes ]

  -- The checks on the claims, in the source's order.
  unfoldable pub are_claims_valid : Handler → (expected_lxm : Text) → JwtClaims → Bool
  are_claims_valid h expected_lxm c =
      not (nat_eq c.exp 0)
      && not (ltb c.exp o.now)
      && not (ltb max_lifetime_seconds (c.exp - o.now))
      && not (c.iss == [])
      && has_prefix c.iss (lit "did:")
      && c.aud == h.service_did
      && c.lxm == expected_lxm

  unfoldable pub signing_key_of : (iss : Text) → Option PublicKey
  signing_key_of iss = elim o.resolve_did [
    | none ↦ none
    | some resolve ↦ elim (resolve iss) [ none ↦ none | some doc ↦ get_signing_key o.parsers doc ]
  ]

  -- ES256 wants a key on P-256, ES256K one that is not.
  unfoldable pub fits_curve : (alg : Text) → PublicKey → Bool
  unfolding is_p256
  fits_curve alg key =
      if alg == lit "ES256K"
      then not (is_p256 key.curve)
      else if alg == lit "ES256"
      then is_p256 key.curve
      else false

  -- The check of the signature, from the header on.
  unfoldable pub is_signed : Jwt → (iss : Text) → Bool
  unfolding read_alg signing_key_of
  is_signed jwt iss = elim (read_alg jwt.header) [
    | none ↦ false
    | some alg ↦
        if not (alg == lit "ES256") && not (alg == lit "ES256K")
        then false
        else elim (signing_key_of iss) [
          | none ↦ false
          | some key ↦ elim (o.raw_url jwt.signature) [
            | none ↦ false
            | some sig ↦
                fits_curve alg key
                && verify_ecdsa_signature key (o.sha256 (jwt.header ++ b'.' ∷ jwt.payload)) sig
          ]
        ]
  ]

  -- From the Authorization header on.
  unfoldable pub verify_jwt : Handler → (expected_lxm authorization : Text) → Option Text
  unfolding read_claims
  verify_jwt h expected_lxm authorization = elim (read_jwt authorization) [
    | none ↦ none
    | some jwt ↦ elim (read_claims jwt.payload) [
      | none ↦ none
      | some c ↦
          if not (are_claims_valid h expected_lxm c)
          then none
          else if not (is_signed jwt c.iss)
          then none
          else some c.iss
    ]
  ]

  unfoldable pub verify_auth : Handler → (expected_lxm : Text) → Request → Option Text
  verify_auth h expected_lxm r =
      if not (transits_cloudflare h r)
      then none
      else if h.dev_mode && not (r.actor_did == [])
      then some r.actor_did
      else verify_jwt h expected_lxm r.authorization
