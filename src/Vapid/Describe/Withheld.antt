-- ===== src/Vapid/Describe/Withheld.antt =====
-- Describe prints nothing of a token but its claims.
use atproto_push_gateway.Base.{
  ℕ, ◌≡◌, refl, sym, ap, ◌∙◌, ◌≢◌, ◌⊎◌, inl, inr, eq_iff, Text, false, ◌||◌, List, [], ◌∷◌, ◌++◌,
  some, none, ok, arith, map, lit, Lacks, is_space, trim_space, cut, cut-append, split,
  split_parts-append, split_parts_of_Lacks, lower, nat_eq, ◌≤◌,
}
use atproto_push_gateway.Vapid.{Crypto, parse_header}
use atproto_push_gateway.Vapid.Parsing.{
  LacksSpace, IsValue, part_of, two_parts, header, trim_header, trim_space_of_LacksSpace,
  split-two_parts, parse_header_roundtrip,
}
use atproto_push_gateway.Vapid.Describe.{
  described, parsed, cut_blank, scheme_of, name_of, names_of, payload_of, peek_claims, key_shape,
  describe,
}

-- A compact JWT.
abbrev pub token_of : (head payload signature : Text) → Text
token_of head payload signature = head ++ b'.' ∷ (payload ++ b'.' ∷ signature)

-- The letters of the scheme are no blank, tab, comma or equals sign.
abbrev IsLetter : ℕ → Type 0
IsLetter c =
    ((nat_eq c b' ' || nat_eq c 9) ≡ false) × (c ≢ b',') × (c ≢ b'=') × (is_space c ≡ false)

lower-IsLetter : (c d : ℕ) → lower c ≡ d → 97 ≤ d → d ≤ 122 → IsLetter c
unfolding lower is_space
lower-IsLetter c d e low high = (ground arith, ground arith, ground arith, ground arith)

peek_claims-token_of :
    (crypto : Crypto) (a b s : Text)
    → Lacks b'.' a
    → Lacks b'.' b
    → Lacks b'.' s
    → peek_claims crypto (token_of a b s) ≡ payload_of crypto (a ∷ b ∷ s ∷ [])
unfolding peek_claims split
peek_claims-token_of crypto a b s la lb ls =
    rw
      (
        split_parts-append b'.' a (b ++ b'.' ∷ s) la,
        split_parts-append b'.' b s lb,
        split_parts_of_Lacks b'.' s ls,
      )
      refl

name_of-blank :
    (part key value before name : Text)
    → cut b'=' (trim_space part) ≡ some (key, value)
    → cut_blank (trim_space key) ≡ some (before, name)
    → name_of part ≡ some name
unfolding name_of
name_of-blank part key value before name found blank = ground (arith, found, blank)

name_of-bare :
    (part key value : Text)
    → cut b'=' (trim_space part) ≡ some (key, value)
    → cut_blank (trim_space key) ≡ none
    → name_of part ≡ some (trim_space key)
unfolding name_of
name_of-bare part key value found bare = ground (arith, found, bare)

-- The scheme's letters, a blank, and what follows.
module _ (c d e f g : ℕ) (lc : IsLetter c) (ld : IsLetter d) (le : IsLetter e) (lf : IsLetter f)
    (lg : IsLetter g) where
  abbrev word : Text
  word = c ∷ d ∷ e ∷ f ∷ g ∷ []

  cut_blank-word : (rest : Text) → cut_blank (word ++ b' ' ∷ rest) ≡ some (word, rest)
  unfolding cut_blank
  cut_blank-word rest = ground arith

  Lacks-word :
      (sep : ℕ) (rest : Text)
      → (sep ≡ b',') ⊎ (sep ≡ b'=')
      → Lacks sep rest
      → sep ≢ b' '
      → Lacks sep (word ++ b' ' ∷ rest)
  Lacks-word sep rest h k no_blank = (
    ground arith,
    (ground arith, (ground arith, (ground arith, (ground arith, (ground arith, k))))),
  )

  scheme_of-word : (rest : Text) → scheme_of (word ++ b' ' ∷ rest) ≡ word
  unfolding scheme_of
  scheme_of-word rest = ground (arith, cut_blank-word rest)

  name_of-first :
      (value : Text)
      → LacksSpace value
      → name_of (word ++ b' ' ∷ part_of b't' value) ≡ some (lit "t")
  unfolding is_space
  name_of-first value space =
      let trimmed =
        trim_header c (d ∷ e ∷ f ∷ g ∷ []) (part_of b't' value) lc.3 (refl, (refl, space)) (cc) in
      let equals = Lacks-word b'=' (lit "t") (inr refl) ((λ h. omega arith), tt) (omega arith) in
      let key = trim_header c (d ∷ e ∷ f ∷ g ∷ []) (lit "t") lc.3 (refl, tt) (cc) in
      name_of-blank (word ++ b' ' ∷ part_of b't' value) (word ++ b' ' ∷ lit "t") value word
        (lit "t") (ap (cut b'=') trimmed ∙ cut-append b'=' (word ++ b' ' ∷ lit "t") value equals)
        (ap cut_blank key ∙ cut_blank-word (lit "t"))

name_of-second : (value : Text) → LacksSpace value → name_of (part_of b'k' value) ≡ some (lit "k")
unfolding is_space cut_blank
name_of-second value space =
    let trimmed = trim_space_of_LacksSpace (part_of b'k' value) (refl, (refl, space)) in
    let key = trim_space_of_LacksSpace (lit "k") (refl, tt) in
    name_of-bare (part_of b'k' value) (lit "k") value
      (ap (cut b'=') trimmed ∙ cut-append b'=' (lit "k") value ((λ h. omega arith), tt))
      (ap cut_blank key)
    ∙ ap some key

-- The header that carries a token and a key, with the scheme in any case.
abbrev pub header_of : (scheme token key : Text) → Text
header_of scheme token key = header scheme (two_parts (part_of b't' token) (part_of b'k' key))

names_of-two :
    (first second name other : Text)
    → name_of first ≡ some name
    → name_of second ≡ some other
    → names_of (first ∷ second ∷ []) ≡ name ∷ other ∷ []
unfolding names_of
names_of-two first second name other p q = ground (arith, p, q)

describe-parsed :
    (crypto : Crypto) (authorization scheme token key : Text) (names : List Text)
    → authorization ≢ []
    → scheme_of authorization ≡ scheme
    → names_of (split b',' authorization) ≡ names
    → parse_header authorization ≡ ok (record { token = token; public_key = key })
    → describe crypto authorization
      ≡ described scheme names (parsed (key_shape crypto key) (peek_claims crypto token))
unfolding describe
describe-parsed crypto authorization scheme token key names there s n h =
    ground (arith, eq_iff authorization [], s, n, h)

module _ (crypto : Crypto) (k : Text) where
  describe-letters :
      (a b s : Text) (c d e f g : ℕ)
      → map lower (c ∷ d ∷ e ∷ f ∷ g ∷ []) ≡ lit "vapid"
      → IsValue (token_of a b s)
      → IsValue k
      → Lacks b'.' a
      → Lacks b'.' b
      → Lacks b'.' s
      → describe crypto (header_of (c ∷ d ∷ e ∷ f ∷ g ∷ []) (token_of a b s) k)
        ≡ described
            (c ∷ d ∷ e ∷ f ∷ g ∷ [])
            (lit "t" ∷ lit "k" ∷ [])
            (parsed (key_shape crypto k) (payload_of crypto (a ∷ b ∷ s ∷ [])))
  describe-letters a b s c d e f g scheme is_t is_k la lb ls =
      let lc = lower-IsLetter c b'v' (ground arith) (omega arith) (omega arith) in
      let ld = lower-IsLetter d b'a' (ground arith) (omega arith) (omega arith) in
      let le = lower-IsLetter e b'p' (ground arith) (omega arith) (omega arith) in
      let lf = lower-IsLetter f b'i' (ground arith) (omega arith) (omega arith) in
      let lg = lower-IsLetter g b'd' (ground arith) (omega arith) (omega arith) in
      let token = token_of a b s in
      let word = c ∷ d ∷ e ∷ f ∷ g ∷ [] in
      let first = word ++ b' ' ∷ part_of b't' token in
      let second = part_of b'k' k in
      let rest = two_parts (part_of b't' token) second in
      let plain =
        Lacks-word c d e f g lc ld le lf lg b',' (part_of b't' token) (inl refl)
          ((λ h. omega arith), ((λ h. omega arith), is_t.1)) (omega arith) in
      let names =
        ap names_of
          (split-two_parts first second plain ((λ h. omega arith), ((λ h. omega arith), is_k.1)))
        ∙ names_of-two first second (lit "t") (lit "k")
            (name_of-first c d e f g lc ld le lf lg token is_t.0) (name_of-second k is_k.0) in
      describe-parsed crypto (header word rest) word token k (lit "t" ∷ lit "k" ∷ []) (cc)
        (scheme_of-word c d e f g lc ld le lf lg rest) names
        (parse_header_roundtrip token k is_t is_k word scheme).0
      ∙ ap (λ claims. described word (lit "t" ∷ lit "k" ∷ []) (parsed (key_shape crypto k) claims))
          (peek_claims-token_of crypto a b s la lb ls)

  -- Of a header that carries a compact JWT and a key, as senders write it, Describe gives the scheme,
  -- the names t and k, the number of the key's bytes with the first one, and the decoded payload of
  -- the JWT; so two headers that differ only in the first and the last part of the JWT, the second
  -- of which is its signature, are described alike.
  pub describe_withholds :
      (a b s a' s' scheme : Text)
      → map lower scheme ≡ lit "vapid"
      → IsValue (token_of a b s)
      → IsValue (token_of a' b s')
      → IsValue k
      → Lacks b'.' a
      → Lacks b'.' b
      → Lacks b'.' s
      → Lacks b'.' a'
      → Lacks b'.' s'
      → (describe crypto (header_of scheme (token_of a b s) k)
          ≡ described scheme
              (lit "t" ∷ lit "k" ∷ [])
              (parsed (key_shape crypto k) (payload_of crypto (a ∷ b ∷ s ∷ []))))
        × (describe crypto (header_of scheme (token_of a' b s') k)
            ≡ describe crypto (header_of scheme (token_of a b s) k))
  unfolding payload_of
  describe_withholds a b s a' s' (c ∷ d ∷ e ∷ f ∷ g ∷ []) letters is_t is_t' is_k la lb ls la' ls' =
      let shown = describe-letters a b s c d e f g letters is_t is_k la lb ls in
      (shown, describe-letters a' b s' c d e f g letters is_t' is_k la' lb ls' ∙ sym shown)
  describe_withholds a b s a' s' _ letters is_t is_t' is_k la lb ls la' ls' = absurd (ground arith)
