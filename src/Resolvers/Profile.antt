-- ===== src/Resolvers/Profile.antt =====
-- internal/profile/resolver.go: ResolveProfile and ResolveDisplayName. fetchProfile is an argument:
-- the display name and the handle, "" and "" if it fails.
pub mod Kept
use atproto_push_gateway.Base.{
  nat_eq, ℕ, ◌-◌, ◌*◌, ◌==◌, Text, Map, Bool, not, [], ◌∷◌, Option, none, some, ltb, if◌then◌else◌,
  lookup,
}
use atproto_push_gateway.Resolvers.Cache.{CacheEntry, remember}

pub record Profile : Type 0 where
  pub display_name : Text
  pub handle : Text

pub record Resolver : Type 0 where
  pub cache : Map (CacheEntry Profile)
  pub max_cache_size : ℕ

abbrev pub default_max_cache_size : ℕ
default_max_cache_size = 10_000

-- NewResolverWithCacheSize
unfoldable pub new_resolver : (max_cache_size : ℕ) → Resolver
new_resolver max_cache_size = record {
  cache = [];
  max_cache_size = if nat_eq max_cache_size 0 then default_max_cache_size else max_cache_size;
}

-- The fetch, and the write of its result.
unfoldable pub fetch_and_cache :
    (fetch : Text → Profile) → (later : ℕ) → Text → Resolver → Resolver × Profile
fetch_and_cache fetch later did r =
    let p = fetch did in
    (
      record r {
        cache = remember r.max_cache_size did (record { value = p; cached_at = later }) r.cache;
      },
      p,
    )

-- `cache_ttl` is cacheTTL.
unfoldable pub resolve_profile :
    (cache_ttl : ℕ)
    → (fetch : Text → Profile) → (now later : ℕ) → Text
    → Resolver
    → Resolver × Profile
unfolding fetch_and_cache
resolve_profile cache_ttl fetch now later did r = elim (lookup did r.cache) [
  | none ↦ fetch_and_cache fetch later did r
  | some entry ↦
      if ltb (now - entry.cached_at) cache_ttl
      then (r, entry.value)
      else fetch_and_cache fetch later did r
]

unfoldable pub resolve_display_name :
    (cache_ttl : ℕ) → (fetch : Text → Profile) → (now later : ℕ) → Text → Resolver → Resolver × Text
resolve_display_name cache_ttl fetch now later did r =
    let (r', p) = resolve_profile cache_ttl fetch now later did r in
    if not (p.display_name == [])
    then (r', p.display_name)
    else if not (p.handle == [])
    then (r', p.handle)
    else (r', did)
