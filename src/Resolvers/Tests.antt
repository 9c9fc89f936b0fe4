-- ===== src/Resolvers/Tests.antt =====
-- Runs of the resolvers at fixed inputs.
use atproto_push_gateway.Base.{
  List, if◌then◌else◌, ℕ, ◌≡◌, refl, ◌==◌, Text, [], ◌∷◌, Option, none, some, lit, arith, lookup,
  delete,
}
use atproto_push_gateway.Resolvers.Cache.{take_oldest, evict, evict_oldest}
use atproto_push_gateway.Resolvers.Profile
use atproto_push_gateway.Resolvers.Profile.{resolve_profile}
use atproto_push_gateway.Resolvers.Profile.Kept.{Call, resolve_all, resolve_profile_kept}
use atproto_push_gateway.Resolvers.PostText
use atproto_push_gateway.Resolvers.PostText.{resolve_text}
use atproto_push_gateway.Resolvers.Fetch.{Response, query_escape, fetch_post}
use atproto_push_gateway.Resolvers.Did
use atproto_push_gateway.Resolvers.Did.{resolve_did}

abbrev bob : Profile.Profile
bob = record { display_name = lit "Bob"; handle = lit "bob.test" }

-- A cache that is full.
abbrev profiles : Profile.Resolver
profiles = record {
  cache =
      (lit "a", record { value = bob; cached_at = 7 })
      ∷ (lit "c", record { value = bob; cached_at = 5 })
      ∷ [];
  max_cache_size = 2;
}

oldest_goes : lookup (lit "c") (evict_oldest profiles.cache) ≡ none
unfolding evict_oldest evict take_oldest lookup delete ◌==◌
oldest_goes = refl

abbrev nobody : Profile.Profile
nobody = record { display_name = []; handle = [] }

abbrev roomy : Profile.Resolver
roomy = record profiles { max_cache_size = 5 }

abbrev between : List Call
between =
    record { did = lit "d"; now = 10; later = 11; fetch = λ d. nobody }
    ∷ record { did = lit "b"; now = 11; later = 12; fetch = λ d. nobody }
    ∷ []

resolve_profile_kept_example :
    let (r', p) = resolve_profile 9 (λ d. bob) 8 9 (lit "b") roomy in
    let r'' = resolve_all 9 between r' in
    (p ≡ bob) × (resolve_profile 9 (λ d. nobody) 12 13 (lit "b") r'' ≡ (r'', bob))
unfolding lookup ◌==◌
resolve_profile_kept_example =
    resolve_profile_kept 9 (λ d. bob) (λ d. nobody) 8 9 12 13 (lit "b") between roomy refl
      (omega arith) (omega arith, (omega arith, tt)) (omega arith)

abbrev texts : PostText.Resolver
texts = record { cache = []; max_cache_size = 2; cache_ttl = 90; negative_ttl = 10 }

abbrev documents : Did.Resolver ℕ
documents = record { cache = []; max_cache_size = 1 }

abbrev nothing : Text → Option ℕ
nothing d = none

escaped : query_escape (lit "at://did:plc:a/b c") ≡ lit "at%3A%2F%2Fdid%3Aplc%3Aa%2Fb+c"
unfolding query_escape
escaped = refl

escaped_utf8 : query_escape (0xe9 ∷ 0x1f600 ∷ []) ≡ lit "%C3%A9%F0%9F%98%80"
unfolding query_escape
escaped_utf8 = refl

-- A server that knows one post.
abbrev get_post : Text → Option (Response (List Text))
get_post url =
    if url == lit "https://api/xrpc/app.bsky.feed.getPosts?uris=at%3A%2F%2Fb"
    then some (record { status = 200; decoded = some (lit "hi" ∷ []) })
    else some (record { status = 400; decoded = none })

known_post : fetch_post (lit "https://api") get_post (lit "at://b") ≡ some (lit "hi")
unfolding fetch_post ◌==◌
known_post = refl

unknown_post : fetch_post (lit "https://api") get_post (lit "at://c") ≡ none
unfolding fetch_post ◌==◌
unknown_post = refl
