-- ===== src/Resolvers/Profile/Kept.antt =====
-- The cache of profiles.
use atproto_push_gateway.Base.{
  ℕ, ◌+◌, List, [], ◌∷◌, All, some, eq_iff, length-insert-le, ◌-◌, ◌≡◌, ◌≤◌, ◌<◌, eq_refl, Text,
  length, lookup, lookup-insert, none, arith,
}
use atproto_push_gateway.Resolvers.Cache.{CacheEntry, remember}
use atproto_push_gateway.Resolvers.Cache.Size.{length-remember-le}
use atproto_push_gateway.Resolvers.Profile.{Profile, Resolver, fetch_and_cache, resolve_profile}

-- ResolveProfile keeps its cache within the capacity, and keeps the capacity.
resolve_profile_bounded :
    (cache_ttl : ℕ) (fetch : Text → Profile) (now later : ℕ) (did : Text) (r : Resolver)
    → 0 < r.max_cache_size
    → length r.cache ≤ r.max_cache_size
    → let r' = (resolve_profile cache_ttl fetch now later did r).0 in
      (length r'.cache ≤ r'.max_cache_size) × (r'.max_cache_size ≡ r.max_cache_size)
unfolding resolve_profile
resolve_profile_bounded cache_ttl fetch now later did r room fits =
    let entry : CacheEntry Profile = record { value = fetch did; cached_at = later } in
    ground (arith, length-remember-le r.max_cache_size did entry r.cache room fits)

-- A call of ResolveProfile, with what the network answers in it.
pub record Call : Type 0 where
  pub did : Text
  pub now : ℕ
  pub later : ℕ
  pub fetch : Text → Profile

unfoldable pub resolve_all : (cache_ttl : ℕ) → List Call → Resolver → Resolver
resolve_all cache_ttl [] r = r
resolve_all cache_ttl (c ∷ calls) r =
    resolve_all cache_ttl calls (resolve_profile cache_ttl c.fetch c.now c.later c.did r).0

-- A call that finds room keeps an entry that is not as old as the limit, and adds at most one.
resolve_profile-keeps :
    (cache_ttl : ℕ) (c : Call) (did : Text) (entry : CacheEntry Profile) (r : Resolver)
    → lookup did r.cache ≡ some entry
    → length r.cache < r.max_cache_size
    → c.now - entry.cached_at < cache_ttl
    → let r' = (resolve_profile cache_ttl c.fetch c.now c.later c.did r).0 in
      (lookup did r'.cache ≡ some entry)
      × (length r'.cache ≤ length r.cache + 1)
      × (r'.max_cache_size ≡ r.max_cache_size)
unfolding resolve_profile fetch_and_cache remember
resolve_profile-keeps cache_ttl c did entry r there room fresh =
    let new : CacheEntry Profile = record { value = c.fetch c.did; cached_at = c.later } in
    ground (
      arith,
      there,
      room,
      fresh,
      eq_iff c.did did,
      lookup-insert c.did did new r.cache,
      length-insert-le c.did new r.cache,
    )

resolve_all-keeps :
    (cache_ttl : ℕ) (calls : List Call) (did : Text) (entry : CacheEntry Profile) (r : Resolver)
    → lookup did r.cache ≡ some entry
    → length r.cache + length calls ≤ r.max_cache_size
    → All (λ c. c.now - entry.cached_at < cache_ttl) calls
    → lookup did (resolve_all cache_ttl calls r).cache ≡ some entry
unfolding resolve_all
resolve_all-keeps cache_ttl [] did entry r there room fresh = there
resolve_all-keeps cache_ttl (c ∷ calls) did entry r there room (now, fresh) =
    let r' = (resolve_profile cache_ttl c.fetch c.now c.later c.did r).0 in
    let (kept, longer, same) =
      resolve_profile-keeps cache_ttl c did entry r there (omega (arith, room)) now in
    resolve_all-keeps cache_ttl calls did entry r' kept (omega (arith, room, longer, same)) fresh

-- A DID that is not in the cache is fetched, and then, after any calls for this and for other DIDs
-- before the entry is as old as the limit, a call for it that is also before this time answers what
-- was fetched first, without fetching again or changing the cache; provided that the cache has room
-- for one entry more than there are calls between, so that nothing is evicted.
pub resolve_profile_kept :
    (cache_ttl : ℕ) (fetch fetch' : Text → Profile) (now later now' later' : ℕ) (did : Text)
    (calls : List Call) (r : Resolver)
    → lookup did r.cache ≡ none
    → length r.cache + length calls < r.max_cache_size
    → All (λ c. c.now - later < cache_ttl) calls
    → now' - later < cache_ttl
    → let (r', p) = resolve_profile cache_ttl fetch now later did r in
      let r'' = resolve_all cache_ttl calls r' in
      (p ≡ fetch did) × (resolve_profile cache_ttl fetch' now' later' did r'' ≡ (r'', fetch did))
unfolding resolve_profile fetch_and_cache remember
resolve_profile_kept cache_ttl fetch fetch' now later now' later' did calls r new room between
      fresh =
    let entry : CacheEntry Profile = record { value = fetch did; cached_at = later } in
    let r' = (resolve_profile cache_ttl fetch now later did r).0 in
    let there : lookup did r'.cache ≡ some entry =
      ground (arith, new, room, eq_refl did, lookup-insert did did entry r.cache) in
    let fits : length r'.cache + length calls ≤ r'.max_cache_size =
      ground (arith, new, room, length-insert-le did entry r.cache) in
    let kept = resolve_all-keeps cache_ttl calls did entry r' there fits between in
    (ground (arith, new), ground (arith, kept, fresh))
