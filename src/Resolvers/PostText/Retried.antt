-- ===== src/Resolvers/PostText/Retried.antt =====
-- The cache of post texts.
use atproto_push_gateway.Base.{
  ℕ, ◌-◌, ◌≡◌, ◌≢◌, eq_iff, eq_refl, Text, length, ltb, if◌then◌else◌, lookup, lookup-insert,
  Option, none, some, arith, [], leb,
}
use atproto_push_gateway.Resolvers.Cache.{CacheEntry, remember, evict_oldest}
use atproto_push_gateway.Resolvers.PostText.{CachedText, Resolver, cached_text, resolve_text}

-- A post whose fetch failed is answered with "" and not fetched again until the entry is as old as
-- the limit for failures; from then on a call fetches it again and answers what that gives.
resolve_text_retries :
    (fetch fetch' : Text → Option Text) (now later now' later' : ℕ) (post_uri t : Text)
    (r : Resolver)
    → post_uri ≢ []
    → lookup post_uri r.cache ≡ none
    → fetch post_uri ≡ none
    → fetch' post_uri ≡ some t
    → let r' = (resolve_text fetch now later post_uri r).0 in
      (resolve_text fetch' now' later' post_uri r').1
      ≡ (if ltb (now' - later) r.negative_ttl then [] else t)
unfolding resolve_text remember
resolve_text_retries fetch fetch' now later now' later' post_uri t r named new failed found =
    let entry : CacheEntry CachedText = record {
      value = cached_text (fetch post_uri);
      cached_at = later;
    } in
    let before = if leb r.max_cache_size (length r.cache) then evict_oldest r.cache else r.cache in
    ground (
      arith,
      new,
      failed,
      found,
      eq_iff post_uri [],
      eq_refl post_uri,
      lookup-insert post_uri post_uri entry before,
    )
