-- ===== src/Xrpc/Auth/Authorized.antt =====
-- Which requests verifyAuth lets through, and as whom.
use atproto_push_gateway.Base.{
  ◌+◌, ◌≡◌, ◌↔◌, ◌≤◌, ◌<◌, refl, ◌==◌, eq_iff, Text, Bytes, true, false, [], ◌∷◌, ◌++◌, some, lit,
  has_prefix, Option-cases, ◌⊎◌, inl, inr, arith,
}
use atproto_push_gateway.Did.{PublicKey, p256, secp256k1}
use atproto_push_gateway.Xrpc.{JwtClaims, Request, Handler, Outside}
use atproto_push_gateway.Xrpc.Auth.{
  Jwt, max_lifetime_seconds, read_jwt, transits_cloudflare, verify_ecdsa_signature, read_claims,
  read_alg, are_claims_valid, signing_key_of, fits_curve, is_p256, is_signed, verify_jwt,
  verify_auth,
}

module _ (o : Outside) where
  -- The claims are those of a token for this service and method, issued by the DID, with at most
  -- five minutes left.
  pub record IsClaimed (h : Handler) (lxm did : Text) (c : JwtClaims) : Type 0 where
    pub issuer : c.iss ≡ did
    pub is_did : has_prefix did (lit "did:") ≡ true
    pub audience : c.aud ≡ h.service_did
    pub method : c.lxm ≡ lxm
    pub dated : 0 < c.exp
    pub live : o.now ≤ c.exp
    pub short : c.exp ≤ o.now + max_lifetime_seconds

  -- The signature is by the key that the DID resolves to, under the algorithm of the key's curve.
  pub record IsSigned (jwt : Jwt) (did : Text) : Type 0 where
    pub alg : Text
    pub declared : read_alg o jwt.header ≡ some alg
    pub key : PublicKey
    pub resolved : signing_key_of o did ≡ some key
    pub curve :
        ((alg ≡ lit "ES256") × (key.curve ≡ p256))
        ⊎ ((alg ≡ lit "ES256K") × (key.curve ≡ secp256k1))
    pub sig : Bytes
    pub decoded : o.raw_url jwt.signature ≡ some sig
    pub verified :
        verify_ecdsa_signature o key (o.sha256 (jwt.header ++ b'.' ∷ jwt.payload)) sig ≡ true

  pub record IsAuthorized (h : Handler) (lxm : Text) (r : Request) (did : Text) : Type 0 where
    pub transit : transits_cloudflare o h r ≡ true
    pub jwt : Jwt
    pub bearer : read_jwt r.authorization ≡ some jwt
    pub claims : JwtClaims
    pub read : read_claims o jwt.payload ≡ some claims
    pub claimed : IsClaimed h lxm did claims
    pub signed : IsSigned jwt did

  claims-IsClaimed :
      (h : Handler) (lxm : Text) (c : JwtClaims)
      → are_claims_valid o h lxm c ≡ true
      → IsClaimed h lxm c.iss c
  unfolding are_claims_valid
  claims-IsClaimed h lxm c valid = record {
    issuer = refl;
    is_did = ground arith;
    audience = ground (arith, eq_iff c.aud h.service_did);
    method = ground (arith, eq_iff c.lxm lxm);
    dated = ground arith;
    live = ground arith;
    short = ground arith;
  }

  IsClaimed-valid :
      (h : Handler) (lxm did : Text) (c : JwtClaims)
      → IsClaimed h lxm did c
      → are_claims_valid o h lxm c ≡ true
  unfolding are_claims_valid has_prefix
  IsClaimed-valid h lxm did c k = ground (
    arith,
    k.issuer,
    k.is_did,
    k.audience,
    k.method,
    k.dated,
    k.live,
    k.short,
    eq_iff c.aud h.service_did,
    eq_iff c.lxm lxm,
    eq_iff c.iss [],
  )

  is_signed-IsSigned : (jwt : Jwt) (did : Text) → is_signed o jwt did ≡ true → IsSigned jwt did
  unfolding is_signed fits_curve is_p256
  is_signed-IsSigned jwt did s = elim (Option-cases (read_alg o jwt.header)) [
    | inl p ↦ absurd (ground (arith, p))
    | inr (alg, declared) ↦ elim (Option-cases (signing_key_of o did)) [
      | inl q ↦ absurd (ground (arith, declared, q))
      | inr (key, resolved) ↦ elim (Option-cases (o.raw_url jwt.signature)) [
        | inl n ↦ absurd (ground (arith, declared, resolved, n))
        | inr (sig, decoded) ↦ record {
          alg = alg;
          declared = declared;
          key = key;
          resolved = resolved;
          curve = ground (
            arith,
            declared,
            resolved,
            decoded,
            eq_iff alg (lit "ES256"),
            eq_iff alg (lit "ES256K"),
          );
          sig = sig;
          decoded = decoded;
          verified = ground (arith, declared, resolved, decoded);
        }
      ]
    ]
  ]

  IsSigned-is_signed : (jwt : Jwt) (did : Text) → IsSigned jwt did → is_signed o jwt did ≡ true
  unfolding is_signed fits_curve is_p256 ◌==◌
  IsSigned-is_signed jwt did s = elim s.curve [
    | inl (es256, on_p256) ↦
        ground (arith, s.declared, s.resolved, s.decoded, s.verified, es256, on_p256)
    | inr (es256k, other) ↦
        ground (arith, s.declared, s.resolved, s.decoded, s.verified, es256k, other)
  ]

  verify_jwt-IsAuthorized :
      (h : Handler) (lxm did : Text) (r : Request)
      → transits_cloudflare o h r ≡ true
      → verify_jwt o h lxm r.authorization ≡ some did
      → IsAuthorized h lxm r did
  unfolding verify_jwt
  verify_jwt-IsAuthorized h lxm did r transit v = elim (Option-cases (read_jwt r.authorization)) [
    | inl p ↦ absurd (ground (arith, p))
    | inr (jwt, bearer) ↦ elim (Option-cases (read_claims o jwt.payload)) [
      | inl q ↦ absurd (ground (arith, bearer, q))
      | inr (c, read) ↦
          (let issuer : c.iss ≡ did = ground (arith, bearer, read) in
            let claimed = claims-IsClaimed h lxm c (ground (arith, bearer, read)) in
            record {
              transit = transit;
              jwt = jwt;
              bearer = bearer;
              claims = c;
              read = read;
              claimed = rw (← issuer) claimed;
              signed = rw (← issuer) (is_signed-IsSigned jwt c.iss (ground (arith, bearer, read)));
            })
    ]
  ]

  IsAuthorized-verify_jwt :
      (h : Handler) (lxm did : Text) (r : Request)
      → IsAuthorized h lxm r did
      → verify_jwt o h lxm r.authorization ≡ some did
  unfolding verify_jwt
  IsAuthorized-verify_jwt h lxm did r a = ground (
    arith,
    a.bearer,
    a.read,
    a.claimed.issuer,
    IsClaimed-valid h lxm did a.claims a.claimed,
    IsSigned-is_signed a.jwt did a.signed,
  )

  -- Outside of the development mode verifyAuth answers a DID exactly for requests that came
  -- through Cloudflare or from the loopback address, with a bearer token of three parts whose
  -- claims name the DID as the issuer, this service and the method, with at most five minutes
  -- left, and whose signature is by the key that the DID resolves to, under the algorithm of that
  -- key's curve.
  pub verify_auth_iff :
      (h : Handler) (lxm did : Text) (r : Request)
      → h.dev_mode ≡ false
      → (verify_auth o h lxm r ≡ some did) ↔ IsAuthorized h lxm r did
  unfolding verify_auth
  verify_auth_iff h lxm did r prod = (
    λ v. verify_jwt-IsAuthorized h lxm did r (ground (arith, prod)) (ground (arith, prod)),
    λ a. ground (arith, prod, a.transit, IsAuthorized-verify_jwt h lxm did r a),
  )
