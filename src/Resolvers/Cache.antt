-- ===== src/Resolvers/Cache.antt =====
-- resolver.go of both packages: the cache, and evictOldest, which is the same in both.
pub mod Size
use atproto_push_gateway.Base.{
  ℕ, zero, suc, ◌-◌, ◌/◌, Text, Map, List, [], ◌∷◌, map, length, leb, ltb, if◌then◌else◌, insert,
  delete, Bool, Option, none, some,
}

pub record CacheEntry (V : Type 0) : Type 0 where
  pub value : V
  pub cached_at : ℕ

abbrev pub KeyTime : Type 0
KeyTime = Text × ℕ

-- The scan for the oldest: the first of the earliest ones, and the others. Which one comes first
-- depends on the order in which Go ranges over the map, which it leaves open.
unfoldable pub take_oldest : KeyTime → List KeyTime → KeyTime × List KeyTime
take_oldest e [] = (e, [])
take_oldest e (f ∷ es) =
    let older = ltb f.1 e.1 in
    let (oldest, rest) = take_oldest (if older then f else e) es in
    (oldest, (if older then e else f) ∷ rest)

module _ {V : Type 0} where
  -- The rounds of the eviction; the source never asks for more of them than there are entries.
  unfoldable pub evict : (rounds : ℕ) → List KeyTime → Map (CacheEntry V) → Map (CacheEntry V)
  unfolding take_oldest
  evict zero entries cache = cache
  evict (suc n) [] cache = cache
  evict (suc n) (e ∷ es) cache =
      let (oldest, rest) = take_oldest e es in evict n rest (delete oldest.0 cache)

  abbrev pub key_times : Map (CacheEntry V) → List KeyTime
  key_times cache = map (λ e. (e.0, e.1.cached_at)) cache

  unfoldable pub evict_oldest : Map (CacheEntry V) → Map (CacheEntry V)
  unfolding evict
  evict_oldest cache =
      let quarter = length (key_times cache) / 4 in
      evict (if ltb quarter 1 then 1 else quarter) (key_times cache) cache

  -- The write at the end of a call.
  unfoldable pub remember :
      (max_cache_size : ℕ) → Text → CacheEntry V → Map (CacheEntry V) → Map (CacheEntry V)
  unfolding evict_oldest
  remember max_cache_size key entry cache =
      insert key entry (if leb max_cache_size (length cache) then evict_oldest cache else cache)
