-- ===== src/Vapid.antt =====
-- internal/vapid/vapid.go: ParseHeader, Verify, sameKey, decodeKey, parsePublicKey.
-- The four base64 decoders, the test that a point is on P-256 and the JWT parser that admits ES256
-- alone are fields of `Crypto`: they are Go's library and golang-jwt.
pub mod Parsing
pub mod Pinning
pub mod Describe
mod Tests
use atproto_push_gateway.Base.{
  set_bytes, ℕ, ◌+◌, ◌*◌, ◌==◌, Text, Bytes, Bool, true, false, not, ◌&&◌, ◌||◌, List, [], ◌∷◌,
  Option, none, some, lit, length, take, drop, map, ltb, nat_eq, if◌then◌else◌, byte_len, lower,
  trim_space, cut, split, Result, ok, err,
}

pub data Error : Type 0 where
  missing malformed key_mismatch bad_signature : Error

pub record Header : Type 0 where
  pub token : Text
  pub public_key : Text

-- One part of the list of parameters: `t` and `k` are set, the last one counts, others are passed
-- over.
unfoldable pub read_part : Header → Text → Header
read_part h part = elim (cut b'=' (trim_space part)) [
  | none ↦ h
  | some (key, value) ↦
      if trim_space key == lit "t"
      then record h { token = trim_space value }
      else if trim_space key == lit "k"
      then record h { public_key = trim_space value }
      else h
]

unfoldable pub read_parts : Header → List Text → Header
read_parts h [] = h
read_parts h (part ∷ parts) = read_parts (read_part h part) parts

-- len(rest) >= 5 && strings.EqualFold(rest[:5], "vapid")
unfoldable pub has_scheme : Text → Bool
has_scheme rest = not (ltb (byte_len rest) 5) && map lower (take 5 rest) == lit "vapid"

unfoldable pub parse_header : Text → Result Error Header
unfolding read_part read_parts has_scheme
parse_header authorization =
    let rest = trim_space authorization in
    let h =
      read_parts (record { token = []; public_key = [] }) (split b',' (trim_space (drop 5 rest))) in
    if authorization == []
    then err missing
    else if not (has_scheme rest)
    then err malformed
    else if h.token == [] || h.public_key == []
    then err malformed
    else ok h

-- The coordinates of a key.
pub record PublicKey : Type 0 where
  pub x : ℕ
  pub y : ℕ

-- The decoders of Base64, whether the bytes are an uncompressed point on the curve P-256, and
-- whether the JWT library finds the token valid under the key: an ES256 signature of that key, and
-- time claims that hold at the time of the call.
pub record Crypto : Type 0 where
  pub raw_url : Text → Option Bytes
  pub url : Text → Option Bytes
  pub raw_std : Text → Option Bytes
  pub std : Text → Option Bytes
  pub on_p256 : Bytes → Bool
  pub jwt_valid : PublicKey → Text → Bool

-- The first result that is there.
unfoldable pub or_else : Option Bytes → Option Bytes → Option Bytes
or_else (some b) o = some b
or_else none o = o

module _ (crypto : Crypto) where
  unfoldable pub decode_key : Text → Option Bytes
  unfolding or_else
  decode_key text =
      let s = trim_space text in
      or_else (crypto.raw_url s)
        (or_else (crypto.url s) (or_else (crypto.raw_std s) (crypto.std s)))

  unfoldable pub same_key : (offered pinned : Text) → Bool
  same_key offered pinned = elim (decode_key offered) [
    | none ↦ false
    | some a ↦ elim (decode_key pinned) [ none ↦ false | some b ↦ a == b ]
  ]

  -- len(raw) == 65 && raw[0] == 4
  unfoldable pub is_uncompressed : Bytes → Bool
  is_uncompressed [] = false
  is_uncompressed (b ∷ bs) = nat_eq (length (b ∷ bs)) 65 && nat_eq b 4

  unfoldable pub parse_public_key : Text → Option PublicKey
  unfolding is_uncompressed
  parse_public_key encoded = elim (decode_key encoded) [
    | none ↦ none
    | some raw ↦
        if not (is_uncompressed raw)
        then none
        else if not (crypto.on_p256 raw)
        then none
        else some
            (record { x = set_bytes (take 32 (drop 1 raw)); y = set_bytes (take 32 (drop 33 raw)) })
  ]

  unfoldable pub verify : (authorization pinned : Text) → Result Error (Unit {0})
  verify authorization pinned = elim (parse_header authorization) [
    | err e ↦ err e
    | ok h ↦
        if not (pinned == []) && not (same_key h.public_key pinned)
        then err key_mismatch
        else elim (parse_public_key h.public_key) [
          | none ↦ err malformed
          | some pub_key ↦ if crypto.jwt_valid pub_key h.token then ok tt else err bad_signature
        ]
  ]
