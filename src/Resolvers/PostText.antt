-- ===== src/Resolvers/PostText.antt =====
-- internal/posttext/resolver.go: ResolveText. fetchPost is an argument: the text, none if it
-- fails or finds no post.
pub mod Retried
use atproto_push_gateway.Base.{
  nat_eq, ℕ, ◌-◌, ◌*◌, ◌==◌, Text, Map, Bool, true, false, [], ◌∷◌, Option, none, some, ltb,
  if◌then◌else◌, lookup,
}
use atproto_push_gateway.Resolvers.Cache.{CacheEntry, remember}

pub record CachedText : Type 0 where
  pub text : Text
  pub negative : Bool

pub record Resolver : Type 0 where
  pub cache : Map (CacheEntry CachedText)
  pub max_cache_size : ℕ
  pub cache_ttl : ℕ
  pub negative_ttl : ℕ

abbrev pub default_max_cache_size : ℕ
default_max_cache_size = 10_000

abbrev minute : ℕ
minute = 60 * 1_000_000_000

-- NewResolverWithCacheSize
unfoldable pub new_resolver : (max_cache_size : ℕ) → Resolver
new_resolver max_cache_size = record {
  cache = [];
  max_cache_size = if nat_eq max_cache_size 0 then default_max_cache_size else max_cache_size;
  cache_ttl = 24 * 60 * minute;
  negative_ttl = 5 * minute;
}

abbrev pub cached_text : Option Text → CachedText
cached_text none = record { text = []; negative = true }
cached_text (some text) = record { text = text; negative = false }

unfoldable pub fetch_and_cache :
    (fetch : Text → Option Text) → (later : ℕ) → Text → Resolver → Resolver × Text
fetch_and_cache fetch later post_uri r =
    let value = cached_text (fetch post_uri) in
    (
      record r {
        cache =
            remember r.max_cache_size post_uri (record { value = value; cached_at = later })
              r.cache;
      },
      value.text,
    )

unfoldable pub resolve_text :
    (fetch : Text → Option Text) → (now later : ℕ) → Text → Resolver → Resolver × Text
unfolding fetch_and_cache
resolve_text fetch now later post_uri r =
    if post_uri == [] then (r, []) else elim (lookup post_uri r.cache) [
      | none ↦ fetch_and_cache fetch later post_uri r
      | some entry ↦
          (let ttl = if entry.value.negative then r.negative_ttl else r.cache_ttl in
            if ltb (now - entry.cached_at) ttl
            then (r, entry.value.text)
            else fetch_and_cache fetch later post_uri r)
    ]
