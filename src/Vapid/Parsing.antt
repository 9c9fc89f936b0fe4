-- ===== src/Vapid/Parsing.antt =====
-- Headers as senders write them are parsed back.
use atproto_push_gateway.Base.{
  ℕ, ◌≡◌, refl, ◌≢◌, ◌==◌, eq_iff, eq_refl, Text, true, false, ◌||◌, [], ◌∷◌, ◌++◌, ok, err, arith,
  le→ltb_false, map, lit, Lacks, is_space, trim_space, trim_right, cut, split, split_parts-append,
  split_parts_of_Lacks, byte_len, rune_len, lower, if◌then◌else◌, ◌≤◌,
}
use atproto_push_gateway.Vapid.{Header, malformed, read_part, has_scheme, parse_header}

-- No white space.
abbrev pub LacksSpace : Text → Type 0
LacksSpace [] = Unit
LacksSpace (c ∷ s) = (is_space c ≡ false) × LacksSpace s

-- The value of a parameter, as base64url and a compact JWT are: no white space, no comma, not
-- empty.
abbrev pub IsValue : Text → Type 0
IsValue s = LacksSpace s × Lacks b',' s × (s ≢ [])

trim_right_of_LacksSpace : (s : Text) → LacksSpace s → trim_right s ≡ s
unfolding trim_right
trim_right_of_LacksSpace [] h = refl
trim_right_of_LacksSpace (c ∷ []) (p, h) = ground arith
trim_right_of_LacksSpace (c ∷ d ∷ s) (p, h) = ground (arith, trim_right_of_LacksSpace (d ∷ s) h)

trim_right-append : (a b : Text) → trim_right b ≡ b → b ≢ [] → trim_right (a ++ b) ≡ a ++ b
unfolding trim_right
trim_right-append [] b h k = h
trim_right-append (c ∷ []) [] h k = absurd (k refl)
trim_right-append (c ∷ []) (d ∷ b) h k = ground arith
trim_right-append (c ∷ d ∷ a) b h k = ground (arith, trim_right-append (d ∷ a) b h k)

pub trim_space_of_LacksSpace : (s : Text) → LacksSpace s → trim_space s ≡ s
unfolding trim_space
trim_space_of_LacksSpace [] h = refl
trim_space_of_LacksSpace (c ∷ s) (p, h) = ground (arith, trim_right_of_LacksSpace (c ∷ s) (p, h))

pub LacksSpace-append : (a b : Text) → LacksSpace a → LacksSpace b → LacksSpace (a ++ b)
LacksSpace-append [] b h k = k
LacksSpace-append (c ∷ a) b (p, h) k = (p, LacksSpace-append a b h k)

pub Lacks-append : (sep : ℕ) (a b : Text) → Lacks sep a → Lacks sep b → Lacks sep (a ++ b)
Lacks-append sep [] b h k = k
Lacks-append sep (c ∷ a) b (p, h) k = (p, Lacks-append sep a b h k)

-- name=value
abbrev pub part_of : ℕ → Text → Text
part_of name value = name ∷ b'=' ∷ value

part_of-LacksSpace :
    (name : ℕ) (value : Text)
    → is_space name ≡ false
    → LacksSpace value
    → LacksSpace (part_of name value)
unfolding is_space
part_of-LacksSpace name value p h = (p, (refl, h))

read_part-token :
    (h : Header) (t : Text) → IsValue t → read_part h (part_of b't' t) ≡ record h { token = t }
unfolding read_part cut ◌==◌ trim_space is_space
read_part-token h t (space, _, _) =
    rw (trim_space_of_LacksSpace (part_of b't' t) (part_of-LacksSpace b't' t refl space), read_part)
      (ground (arith, trim_space_of_LacksSpace t space))

read_part-key :
    (h : Header) (k : Text) → IsValue k → read_part h (part_of b'k' k) ≡ record h { public_key = k }
unfolding read_part cut ◌==◌ trim_space is_space
read_part-key h k (space, _, _) =
    rw (trim_space_of_LacksSpace (part_of b'k' k) (part_of-LacksSpace b'k' k refl space), read_part)
      (ground (arith, trim_space_of_LacksSpace k space))

-- The parameters in the order of RFC 8292, and the other way round.
abbrev pub two_parts : Text → Text → Text
two_parts a b = a ++ b',' ∷ b

pub split-two_parts :
    (a b : Text) → Lacks b',' a → Lacks b',' b → split b',' (two_parts a b) ≡ a ∷ b ∷ []
unfolding split
split-two_parts a b h k = rw (split_parts-append b',' a b h) (rw (split_parts_of_Lacks b',' b k))

abbrev pub header : Text → Text → Text
header scheme params = scheme ++ b' ' ∷ params

pub trim_header :
    (c : ℕ) (scheme params : Text)
    → is_space c ≡ false
    → LacksSpace params
    → params ≢ []
    → trim_space (header (c ∷ scheme) params) ≡ header (c ∷ scheme) params
unfolding trim_space
trim_header c scheme params p h k =
    let inner = trim_right-append (b' ' ∷ []) params (trim_right_of_LacksSpace params h) k in
    let outer = trim_right-append (c ∷ scheme) (b' ' ∷ params) inner (cc) in ground (arith, outer)

trim_params : (params : Text) → LacksSpace params → trim_space (b' ' ∷ params) ≡ params
unfolding trim_space is_space
trim_params params h = trim_space_of_LacksSpace params h

rune_len-pos : (c : ℕ) → 1 ≤ rune_len c
unfolding rune_len
rune_len-pos c = ground arith

lower-is_space : (c : ℕ) → lower c ≡ b'v' → is_space c ≡ false
unfolding lower is_space
lower-is_space c h = ground arith

abbrev blank : Header
blank = record { token = []; public_key = [] }

comma_is_no_space : is_space b',' ≡ false
unfolding is_space
comma_is_no_space = refl

two_parts-ne-nil : (a b : Text) → two_parts a b ≢ []
two_parts-ne-nil [] b = cc
two_parts-ne-nil (c ∷ a) b = cc

five-le-byte_len : (c d e f g : ℕ) (rest : Text) → 5 ≤ byte_len (c ∷ d ∷ e ∷ f ∷ g ∷ rest)
unfolding byte_len
five-le-byte_len c d e f g rest =
    omega (arith, rune_len-pos c, rune_len-pos d, rune_len-pos e, rune_len-pos f, rune_len-pos g)

has_scheme_of_letters :
    (c d e f g : ℕ) (rest : Text)
    → map lower (c ∷ d ∷ e ∷ f ∷ g ∷ []) ≡ lit "vapid"
    → has_scheme (c ∷ d ∷ e ∷ f ∷ g ∷ rest) ≡ true
unfolding has_scheme
has_scheme_of_letters c d e f g rest h =
    rw (h, eq_refl (lit "vapid")) (rw (le→ltb_false _ 5 (five-le-byte_len c d e f g rest)))

-- The header with two parameters, whichever they are.
parse_two_parts :
    (c d e f g : ℕ) (a b : Text)
    → map lower (c ∷ d ∷ e ∷ f ∷ g ∷ []) ≡ lit "vapid"
    → LacksSpace a
    → LacksSpace b
    → Lacks b',' a
    → Lacks b',' b
    → parse_header (header (c ∷ d ∷ e ∷ f ∷ g ∷ []) (two_parts a b)) ≡ (
        let h = read_part (read_part blank a) b in
        if h.token == [] || h.public_key == [] then err malformed else ok h)
unfolding parse_header
parse_two_parts c d e f g a b s sa sb la lb =
    let params = two_parts a b in
    let space = LacksSpace-append a (b',' ∷ b) sa (comma_is_no_space, sb) in
    let trimmed =
      trim_header c (d ∷ e ∷ f ∷ g ∷ []) params (lower-is_space c (ground arith)) space
        (two_parts-ne-nil a b) in
    rw (trimmed, parse_header)
      (ground (
        arith,
        trim_params params space,
        split-two_parts a b la lb,
        has_scheme_of_letters c d e f g (b' ' ∷ params) s,
        eq_iff (header (c ∷ d ∷ e ∷ f ∷ g ∷ []) params) [],
      ))

letter_t : is_space b't' ≡ false
unfolding is_space
letter_t = refl

letter_k : is_space b'k' ≡ false
unfolding is_space
letter_k = refl

module _ (t k : Text) (is_t : IsValue t) (is_k : IsValue k) where
  parse_letters :
      (c d e f g : ℕ)
      → map lower (c ∷ d ∷ e ∷ f ∷ g ∷ []) ≡ lit "vapid"
      → let scheme = c ∷ d ∷ e ∷ f ∷ g ∷ [] in
        (parse_header (header scheme (two_parts (part_of b't' t) (part_of b'k' k)))
          ≡ ok (record { token = t; public_key = k }))
        × (parse_header (header scheme (two_parts (part_of b'k' k) (part_of b't' t)))
            ≡ ok (record { token = t; public_key = k }))
  parse_letters c d e f g s =
      let token_part = part_of-LacksSpace b't' t letter_t is_t.0 in
      let key_part = part_of-LacksSpace b'k' k letter_k is_k.0 in
      (
        rw
            (
              parse_two_parts c d e f g (part_of b't' t) (part_of b'k' k) s token_part key_part
                  (ground (arith, is_t.1)) (ground (arith, is_k.1)),
              read_part-token blank t is_t,
              read_part-key (record blank { token = t }) k is_k,
            )
            (ground (arith, eq_iff t [], eq_iff k [], is_t.2, is_k.2)),
        rw
            (
              parse_two_parts c d e f g (part_of b'k' k) (part_of b't' t) s key_part token_part
                  (ground (arith, is_k.1)) (ground (arith, is_t.1)),
              read_part-key blank k is_k,
              read_part-token (record blank { public_key = k }) t is_t,
            )
            (ground (arith, eq_iff t [], eq_iff k [], is_t.2, is_k.2)),
      )

  -- A header of the form "vapid t=…,k=…", the scheme in any case, is parsed to its token and its
  -- key, and so is one that gives k before t; the two values have no white space, no comma, and
  -- are not empty.
  pub parse_header_roundtrip :
      (scheme : Text)
      → map lower scheme ≡ lit "vapid"
      → (parse_header (header scheme (two_parts (part_of b't' t) (part_of b'k' k)))
          ≡ ok (record { token = t; public_key = k }))
        × (parse_header (header scheme (two_parts (part_of b'k' k) (part_of b't' t)))
            ≡ ok (record { token = t; public_key = k }))
  parse_header_roundtrip (c ∷ d ∷ e ∷ f ∷ g ∷ []) s = parse_letters c d e f g s
  parse_header_roundtrip _ s = absurd (ground arith)
