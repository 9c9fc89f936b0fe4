-- ===== src/Vapid/Pinning.antt =====
-- Which requests Verify lets through.
use atproto_push_gateway.Base.{
  ◌≡◌, ◌↔◌, ◌==◌, eq_iff, eq_refl, refl, Result, Option, Option-cases, Bool-cases, Text, Bytes,
  true, some, none, [], ◌∷◌, length, take, drop, set_bytes, ok, err, arith, ◌⊎◌, inl, inr,
}
use atproto_push_gateway.Vapid.{
  Header, Crypto, Error, parse_header, decode_key, same_key, is_uncompressed, parse_public_key,
  verify,
}

module _ (crypto : Crypto) where
  -- The offered key is the pinned one: both decode, to the same bytes.
  abbrev pub IsPinned : (offered pinned : Text) → Type 0
  IsPinned offered pinned =
      (b : Bytes) × (decode_key crypto offered ≡ some b) × (decode_key crypto pinned ≡ some b)

  -- A well-formed header whose key is an uncompressed point on the curve, 65 bytes of which the
  -- first is 4 and the others are two coordinates, under which the token is valid; it is the pinned
  -- key if one is pinned.
  pub record IsAuthentic (authorization pinned : Text) : Type 0 where
    pub header : Header
    pub parsed : parse_header authorization ≡ ok header
    pub pin : (pinned ≡ []) ⊎ IsPinned header.public_key pinned
    pub raw : Bytes
    pub decoded : decode_key crypto header.public_key ≡ some raw
    pub shape : (rest : Bytes) × (raw ≡ 4 ∷ rest) × (length rest ≡ 64)
    pub on_curve : crypto.on_p256 raw ≡ true
    pub valid :
        crypto.jwt_valid
          (record { x = set_bytes (take 32 (drop 1 raw)); y = set_bytes (take 32 (drop 33 raw)) })
          header.token
        ≡ true

  is_uncompressed-shape :
      (raw : Bytes)
      → is_uncompressed crypto raw ≡ true
      → (rest : Bytes) × (raw ≡ 4 ∷ rest) × (length rest ≡ 64)
  unfolding is_uncompressed
  is_uncompressed-shape [] h = absurd (ground arith)
  is_uncompressed-shape (b ∷ bs) h = (bs, ground arith, ground arith)

  shape-is_uncompressed :
      (raw : Bytes)
      → (rest : Bytes) × (raw ≡ 4 ∷ rest) × (length rest ≡ 64)
      → is_uncompressed crypto raw ≡ true
  unfolding is_uncompressed
  shape-is_uncompressed raw (rest, e, n) = rw e (ground (arith, n))

  same_key-IsPinned :
      (offered pinned : Text) → same_key crypto offered pinned ≡ true → IsPinned offered pinned
  unfolding same_key
  same_key-IsPinned offered pinned h = elim (Option-cases (decode_key crypto offered)) [
    | inl p ↦ absurd (ground arith)
    | inr (a, p) ↦ elim (Option-cases (decode_key crypto pinned)) [
      | inl q ↦ absurd (ground arith)
      | inr (b, q) ↦ (a, p, ground (arith, eq_iff a b))
    ]
  ]

  IsPinned-same_key :
      (offered pinned : Text) → IsPinned offered pinned → same_key crypto offered pinned ≡ true
  unfolding same_key
  IsPinned-same_key offered pinned (b, p, q) = ground (arith, p, q, eq_refl b)

  verify-IsAuthentic :
      (authorization pinned : Text)
      → verify crypto authorization pinned ≡ ok tt
      → IsAuthentic authorization pinned
  unfolding verify parse_public_key
  verify-IsAuthentic authorization pinned h =
      let (header, parsed) = ok-of-verify (parse_header authorization) refl in
      let (raw, decoded) = raw-of-verify header parsed (decode_key crypto header.public_key) refl in
      record {
        header = header;
        parsed = parsed;
        pin = elim (Bool-cases (pinned == [])) [
          | inl open_to_all ↦ inl ((eq_iff pinned []).0 open_to_all)
          | inr closed ↦ inr (same_key-IsPinned header.public_key pinned (ground arith))
        ];
        raw = raw;
        decoded = decoded;
        shape = is_uncompressed-shape raw (ground arith);
        on_curve = ground arith;
        valid = ground arith;
      }
    where
      ok-of-verify :
          (r : Result Error Header)
          → parse_header authorization ≡ r
          → (k : Header) × (parse_header authorization ≡ ok k)
      ok-of-verify (ok k) p = (k, p)
      ok-of-verify (err e) p = absurd (ground arith)

      raw-of-verify :
          (k : Header)
          → parse_header authorization ≡ ok k
          → (o : Option Bytes) → decode_key crypto k.public_key ≡ o
          → (raw : Bytes) × (decode_key crypto k.public_key ≡ some raw)
      raw-of-verify k p (some raw) e = (raw, e)
      raw-of-verify k p none e = absurd (ground arith)

  IsAuthentic-verify :
      (authorization pinned : Text)
      → IsAuthentic authorization pinned
      → verify crypto authorization pinned ≡ ok tt
  unfolding verify parse_public_key
  IsAuthentic-verify authorization pinned a = elim a.pin [
    | inl open_to_all ↦ ground (
      arith,
      a.parsed,
      a.decoded,
      shape-is_uncompressed a.raw a.shape,
      a.on_curve,
      a.valid,
      eq_iff pinned [],
    )
    | inr pinned_key ↦ ground (
      arith,
      a.parsed,
      a.decoded,
      shape-is_uncompressed a.raw a.shape,
      a.on_curve,
      a.valid,
      IsPinned-same_key a.header.public_key pinned pinned_key,
    )
  ]

  -- Verify succeeds exactly on a well-formed header whose key decodes to 65 bytes, a 4 and two
  -- coordinates of 32 bytes, that lie on P-256, whose token the JWT library finds valid under these
  -- coordinates, its time claims included, and whose key decodes to the same bytes as the pinned
  -- key if one is pinned.
  pub verify_iff :
      (authorization pinned : Text)
      → (verify crypto authorization pinned ≡ ok tt) ↔ IsAuthentic authorization pinned
  verify_iff authorization pinned =
      (verify-IsAuthentic authorization pinned, IsAuthentic-verify authorization pinned)
