-- ===== src/Resolvers/Did.antt =====
-- internal/did/resolver.go: ResolveDID. Fetching a document is an argument, none if it fails.
pub mod Unfailing
use atproto_push_gateway.Base.{
  nat_eq, ℕ, ◌-◌, Text, Map, [], ◌∷◌, Option, none, some, ltb, if◌then◌else◌, lookup,
}
use atproto_push_gateway.Resolvers.Cache.{CacheEntry, remember}

pub record Resolver (Doc : Type 0) : Type 0 where
  pub cache : Map (CacheEntry Doc)
  pub max_cache_size : ℕ

abbrev pub default_max_cache_size : ℕ
default_max_cache_size = 10_000

module _ {Doc : Type 0} where
  -- NewResolverWithCacheSize
  unfoldable pub new_resolver : (max_cache_size : ℕ) → Resolver Doc
  new_resolver max_cache_size = record {
    cache = [];
    max_cache_size = if nat_eq max_cache_size 0 then default_max_cache_size else max_cache_size;
  }

  -- The fetch; only a document is cached.
  unfoldable pub fetch_and_cache :
      (fetch : Text → Option Doc) → (later : ℕ) → Text → Resolver Doc → Resolver Doc × Option Doc
  fetch_and_cache fetch later did r = elim (fetch did) [
    | none ↦ (r, none)
    | some doc ↦ (
      record r {
        cache = remember r.max_cache_size did (record { value = doc; cached_at = later }) r.cache;
      },
      some doc,
    )
  ]

  unfoldable pub resolve_did :
      (cache_ttl : ℕ)
      → (fetch : Text → Option Doc) → (now later : ℕ) → Text
      → Resolver Doc
      → Resolver Doc × Option Doc
  unfolding fetch_and_cache
  resolve_did cache_ttl fetch now later did r = elim (lookup did r.cache) [
    | none ↦ fetch_and_cache fetch later did r
    | some entry ↦
        if ltb (now - entry.cached_at) cache_ttl
        then (r, some entry.value)
        else fetch_and_cache fetch later did r
  ]
