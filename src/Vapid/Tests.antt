-- ===== src/Vapid/Tests.antt =====
-- Runs of the check of a sender at fixed inputs.
use atproto_push_gateway.Base.{
  ◌≡◌, ◌↔◌, refl, ◌==◌, Text, true, [], ◌∷◌, ◌++◌, none, some, lit, ok, err, arith, cut, split,
  trim_space, is_space, byte_len, lower,
}
use atproto_push_gateway.Vapid.{
  Crypto, missing, malformed, key_mismatch, parse_header, decode_key, same_key, parse_public_key,
  verify,
}
use atproto_push_gateway.Vapid.Parsing.{parse_header_roundtrip}
use atproto_push_gateway.Vapid.Describe.{
  described, parsed, cut_blank, scheme_of, name_of, names_of, shape_of, payload_of, peek_claims,
  key_shape, describe,
}
use atproto_push_gateway.Vapid.Describe.Withheld.{header_of, describe_withholds}
use atproto_push_gateway.Vapid.Pinning.{IsAuthentic, verify_iff}

-- Decoders that read a text as its code points, and a JWT that is always valid.
abbrev plain : Crypto
plain = record {
  raw_url = λ s. some s;
  url = λ s. none;
  raw_std = λ s. none;
  std = λ s. none;
  on_p256 = λ b. true;
  jwt_valid = λ k t. true;
}

abbrev key : Text
key = 4 ∷ lit "AAAAAAAAAAAAAAAAAAAAAAAAAAAAAAAAAAAAAAAAAAAAAAAAAAAAAAAAAAAAAAAA"

abbrev authorization : Text
authorization = lit "vapid t=jwt,k=" ++ key

program : Unit {0}
unfolding verify parse_header parse_public_key same_key decode_key cut split trim_space is_space
    byte_len lower ◌==◌
program = tt

empty_header : parse_header [] ≡ err missing
unfolding program
empty_header = refl

other_scheme : parse_header (lit "WebPush t=a,k=b") ≡ err malformed
unfolding program
other_scheme = refl

last_value_counts :
    parse_header (lit "vapid k=b, t=a ;x, t=c")
    ≡ ok (record { token = lit "c"; public_key = lit "b" })
unfolding program
last_value_counts = refl

other_key : verify plain authorization (lit "other") ≡ err key_mismatch
unfolding program
other_key = refl

accepted_key : verify plain authorization key ≡ ok tt
unfolding program
accepted_key = refl

verify_iff_example : (verify plain authorization key ≡ ok tt) ↔ IsAuthentic plain authorization key
verify_iff_example = verify_iff plain authorization key

parse_header_roundtrip_example :
    (parse_header (lit "VAPID t=a,k=b") ≡ ok (record { token = lit "a"; public_key = lit "b" }))
    × (parse_header (lit "VAPID k=b,t=a") ≡ ok (record { token = lit "a"; public_key = lit "b" }))
unfolding program
parse_header_roundtrip_example =
    parse_header_roundtrip (lit "a") (lit "b") ((refl, tt), ((λ e. omega arith), tt), (λ e. cc))
      ((refl, tt), ((λ e. omega arith), tt), (λ e. cc)) (lit "VAPID") refl

describing : Unit {0}
unfolding program describe scheme_of names_of name_of cut_blank key_shape shape_of peek_claims
    payload_of
describing = tt

abbrev unspaced : Text
unspaced = lit "vapidt=a.b.c,k=d"

-- A header with no blank is admitted, and its description holds it whole.
unspaced_admitted :
    parse_header unspaced ≡ ok (record { token = lit "a.b.c"; public_key = lit "d" })
unfolding program
unspaced_admitted = refl

unspaced_printed :
    describe plain unspaced
    ≡ described unspaced
        (lit "vapidt" ∷ lit "k" ∷ [])
        (parsed (some (record { bytes = 1; prefix = some b'd' })) (lit "b"))
unfolding describing
unspaced_printed = refl

describe_withholds_example :
    (describe plain (header_of (lit "Vapid") (lit "h.p.s") (lit "k"))
      ≡ described
          (lit "Vapid")
          (lit "t" ∷ lit "k" ∷ [])
          (parsed (some (record { bytes = 1; prefix = some b'k' })) (lit "p")))
    × (describe plain (header_of (lit "Vapid") (lit "g.p.z") (lit "k"))
        ≡ describe plain (header_of (lit "Vapid") (lit "h.p.s") (lit "k")))
unfolding describing
describe_withholds_example =
    describe_withholds plain (lit "k") (lit "h") (lit "p") (lit "s") (lit "g") (lit "z")
      (lit "Vapid") refl
      (
        (refl, (refl, (refl, (refl, (refl, tt))))),
        (
          (λ e. omega arith),
          (
            (λ e. omega arith),
            ((λ e. omega arith), ((λ e. omega arith), ((λ e. omega arith), tt))),
          ),
        ),
        λ e. cc,
      )
      (
        (refl, (refl, (refl, (refl, (refl, tt))))),
        (
          (λ e. omega arith),
          (
            (λ e. omega arith),
            ((λ e. omega arith), ((λ e. omega arith), ((λ e. omega arith), tt))),
          ),
        ),
        λ e. cc,
      )
      ((refl, tt), ((λ e. omega arith), tt), (λ e. cc)) ((λ e. omega arith), tt)
      ((λ e. omega arith), tt) ((λ e. omega arith), tt) ((λ e. omega arith), tt)
      ((λ e. omega arith), tt)
