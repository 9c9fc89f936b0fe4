-- ===== src/Resolvers/Fetch.antt =====
-- internal/profile: fetchProfile; internal/posttext: fetchPost. The exchange is an argument: the
-- status and what the JSON decoder makes of the body, none where the request fails.
use atproto_push_gateway.Base.{
  ℕ, ◌+◌, ◌/◌, ◌%◌, Text, Bytes, Bool, not, ◌&&◌, ◌||◌, List, [], ◌∷◌, ◌++◌, Option, none, some,
  lit, leb, ltb, nat_eq, if◌then◌else◌,
}
use atproto_push_gateway.Resolvers.Profile.{Profile}

-- The bytes of a code point in UTF-8.
unfoldable pub utf8 : ℕ → Bytes
utf8 c =
    if ltb c 0x80
    then c ∷ []
    else if ltb c 0x800
    then (0xc0 + c / 64) ∷ (0x80 + c % 64) ∷ []
    else if ltb c 0x10000
    then (0xe0 + c / 4096) ∷ (0x80 + c / 64 % 64) ∷ (0x80 + c % 64) ∷ []
    else (0xf0 + c / 262144) ∷ (0x80 + c / 4096 % 64) ∷ (0x80 + c / 64 % 64) ∷ (0x80 + c % 64) ∷ []

unfoldable pub hex_digit : ℕ → ℕ
hex_digit d = if ltb d 10 then b'0' + d else 55 + d

unfoldable pub is_unreserved : ℕ → Bool
is_unreserved b =
    (leb b'a' b && leb b b'z')
    || (leb b'A' b && leb b b'Z')
    || (leb b'0' b && leb b b'9')
    || nat_eq b b'-'
    || nat_eq b b'_'
    || nat_eq b b'.'
    || nat_eq b b'~'

unfoldable pub escape_byte : ℕ → Text
unfolding hex_digit is_unreserved
escape_byte b =
    if is_unreserved b
    then b ∷ []
    else if nat_eq b 32
    then b'+' ∷ []
    else b'%' ∷ hex_digit (b / 16) ∷ hex_digit (b % 16) ∷ []

unfoldable pub escape_bytes : Bytes → Text
unfolding escape_byte
escape_bytes [] = []
escape_bytes (b ∷ bs) = escape_byte b ++ escape_bytes bs

-- url.QueryEscape
unfoldable pub query_escape : Text → Text
unfolding utf8 escape_bytes
query_escape [] = []
query_escape (c ∷ s) = escape_bytes (utf8 c) ++ query_escape s

pub record Response (A : Type 0) : Type 0 where
  pub status : ℕ
  pub decoded : Option A

-- The decoded body of an answer with status 200.
unfoldable pub answer_of : {A : Type 0} → Option (Response A) → Option A
answer_of none = none
answer_of (some r) = if not (nat_eq r.status 200) then none else r.decoded

unfoldable pub fetch_profile :
    (api_base_url : Text) → (get : Text → Option (Response Profile)) → (did : Text) → Profile
unfolding answer_of query_escape
fetch_profile api_base_url get did =
    elim (answer_of
      (get (api_base_url ++ (lit "/xrpc/app.bsky.actor.getProfile?actor=" ++ query_escape did)))) [
        | none ↦ record { display_name = []; handle = [] }
        | some p ↦ p
      ]

-- The decoded body is the list of the posts' texts.
unfoldable pub fetch_post :
    (api_base_url : Text)
    → (get : Text → Option (Response (List Text))) → (post_uri : Text) → Option Text
unfolding answer_of query_escape
fetch_post api_base_url get post_uri =
    elim (answer_of
      (get (api_base_url ++ (lit "/xrpc/app.bsky.feed.getPosts?uris=" ++ query_escape post_uri)))) [
        | none ↦ none
        | some posts ↦ elim posts [ [] ↦ none | text ∷ _ ↦ some text ]
      ]
