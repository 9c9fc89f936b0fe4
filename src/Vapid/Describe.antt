-- ===== src/Vapid/Describe.antt =====
-- vapid.go: Describe and peekClaims. What Describe prints is given by the values that it prints: the
-- bytes of the key as their number and the first one, the claims as bytes.
pub mod Withheld
use atproto_push_gateway.Base.{
  ℕ, ◌==◌, Text, Bytes, Bool, ◌||◌, List, [], ◌∷◌, Option, none, some, length, nat_eq,
  if◌then◌else◌, trim_space, cut, split, ok, err,
}
use atproto_push_gateway.Vapid.{Error, Header, Crypto, parse_header, decode_key}

-- What is printed of the key: nothing of one that no decoder reads.
pub record KeyShape : Type 0 where
  pub bytes : ℕ
  pub prefix : Option ℕ

pub data Parsed : Type 0 where
  refused : Error → Parsed
  parsed : (key : Option KeyShape) → (claims : Bytes) → Parsed

pub data Description : Type 0 where
  no_header : Description
  described : (scheme : Text) → (params : List Text) → Parsed → Description

-- What stands before the first blank or tab, and what is after it.
unfoldable pub cut_blank : Text → Option (Text × Text)
cut_blank [] = none
cut_blank (c ∷ s) =
    let rest = cut_blank s in
    if nat_eq c b' ' || nat_eq c 9
    then some ([], s)
    else elim rest [ none ↦ none | some (a, b) ↦ some (c ∷ a, b) ]

unfoldable pub scheme_of : Text → Text
unfolding cut_blank
scheme_of authorization = elim (cut_blank authorization) [
  | none ↦ authorization
  | some (scheme, _) ↦ scheme
]

-- The name of a parameter, if the part has an "=".
unfoldable pub name_of : (part : Text) → Option Text
unfolding cut_blank
name_of part = elim (cut b'=' (trim_space part)) [
  | none ↦ none
  | some (key, _) ↦ elim (cut_blank (trim_space key)) [
    | none ↦ some (trim_space key)
    | some (_, name) ↦ some name
  ]
]

unfoldable pub names_of : List Text → List Text
unfolding name_of
names_of [] = []
names_of (part ∷ parts) = elim (name_of part) [
  | none ↦ names_of parts
  | some name ↦ name ∷ names_of parts
]

unfoldable pub shape_of : Bytes → KeyShape
shape_of raw = record { bytes = length raw; prefix = elim raw [ [] ↦ none | b ∷ _ ↦ some b ] }

module _ (crypto : Crypto) where
  -- The decoded payload of a JWT of three parts; base64.RawURLEncoding is the first decoder.
  unfoldable pub payload_of : List Text → Bytes
  payload_of (head ∷ payload ∷ signature ∷ []) = elim (crypto.raw_url payload) [
    | none ↦ []
    | some raw ↦ raw
  ]
  payload_of _ = []

  unfoldable pub peek_claims : (token : Text) → Bytes
  peek_claims token = payload_of (split b'.' token)

  unfoldable pub key_shape : Text → Option KeyShape
  key_shape key = elim (decode_key crypto key) [ none ↦ none | some raw ↦ some (shape_of raw) ]

  unfoldable pub describe : (authorization : Text) → Description
  unfolding scheme_of names_of
  describe authorization =
      if authorization == []
      then no_header
      else described (scheme_of authorization) (names_of (split b',' authorization))
          (elim (parse_header authorization) [
            | err e ↦ refused e
            | ok h ↦ parsed (key_shape h.public_key) (peek_claims h.token)
          ])
