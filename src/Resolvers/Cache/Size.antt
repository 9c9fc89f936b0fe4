-- ===== src/Resolvers/Cache/Size.antt =====
-- The size of a cache.
use atproto_push_gateway.Base.{
  ℕ, zero, suc, ◌/◌, ◌≢◌, ◌≤◌, ◌<◌, eq_refl, refl, Text, Map, List, [], ◌∷◌, length, All, ltb,
  if◌then◌else◌, lookup, delete, length-insert-le, length-delete-le, none, arith, Bool-cases, inl,
  inr,
}
use atproto_push_gateway.Resolvers.Cache.{
  CacheEntry, KeyTime, take_oldest, evict, key_times, evict_oldest, remember,
}

module _ {V : Type 0} where
  length-delete-lt :
      (k : Text) (m : Map (CacheEntry V)) → lookup k m ≢ none → length (delete k m) < length m
  unfolding lookup delete
  length-delete-lt k [] there = absurd (there refl)
  length-delete-lt k ((j, v) ∷ m) there = ground (arith, length-delete-le k m, length-delete-lt k m)

  take_oldest-there :
      (m : Map (CacheEntry V)) (e : KeyTime) (es : List KeyTime)
      → lookup e.0 m ≢ none
      → All (λ x. lookup x.0 m ≢ none) es
      → lookup (take_oldest e es).0.0 m ≢ none
  unfolding take_oldest
  take_oldest-there m e [] h hs = h
  take_oldest-there m e (f ∷ es) h (k, ks) = elim (Bool-cases (ltb f.1 e.1)) [
    | inl older ↦ rw (older, take_oldest) (take_oldest-there m f es k ks)
    | inr newer ↦ rw (newer, take_oldest) (take_oldest-there m e es h ks)
  ]

  there-cons :
      (k : Text) (v : CacheEntry V) (m : Map (CacheEntry V)) (es : List KeyTime)
      → All (λ x. lookup x.0 m ≢ none) es
      → All (λ x. lookup x.0 ((k, v) ∷ m) ≢ none) es
  unfolding lookup
  there-cons k v m [] hs = tt
  there-cons k v m (e ∷ es) (h, hs) = (λ p. h (ground (arith)), there-cons k v m es hs)

  key_times-there : (m : Map (CacheEntry V)) → All (λ x. lookup x.0 m ≢ none) (key_times m)
  unfolding lookup
  key_times-there [] = tt
  key_times-there ((k, v) ∷ m) =
      (λ p. ground (arith, eq_refl k), there-cons k v m (key_times m) (key_times-there m))

  length-evict-le :
      (n : ℕ) (entries : List KeyTime) (m : Map (CacheEntry V))
      → length (evict n entries m) ≤ length m
  unfolding evict
  length-evict-le zero entries m = omega arith
  length-evict-le (suc n) [] m = omega arith
  length-evict-le (suc n) (e ∷ es) m =
      let o = take_oldest e es in
      omega (arith, length-evict-le n o.1 (delete o.0.0 m), length-delete-le o.0.0 m)

  evict-shrinks :
      (n : ℕ) (k : Text) (v : CacheEntry V) (m : Map (CacheEntry V))
      → 0 < n
      → length (evict n (key_times ((k, v) ∷ m)) ((k, v) ∷ m)) ≤ length m
  unfolding evict
  evict-shrinks zero k v m h = absurd (omega arith)
  evict-shrinks (suc n) k v m h =
      let all = (k, v) ∷ m in
      let (first, others) = key_times-there all in
      let o = take_oldest (k, v.cached_at) (key_times m) in
      let smaller =
        length-delete-lt o.0.0 all
          (take_oldest-there all (k, v.cached_at) (key_times m) first others) in
      omega (arith, smaller, length-evict-le n o.1 (delete o.0.0 all))

  -- A write keeps a cache within its capacity.
  pub length-remember-le :
      (max_cache_size : ℕ) (key : Text) (entry : CacheEntry V) (cache : Map (CacheEntry V))
      → 0 < max_cache_size
      → length cache ≤ max_cache_size
      → length (remember max_cache_size key entry cache) ≤ max_cache_size
  unfolding remember evict_oldest
  length-remember-le max_cache_size key entry [] room fits =
      ground (arith, length-insert-le key entry [])
  length-remember-le max_cache_size key entry ((k, v) ∷ m) room fits =
      let all = (k, v) ∷ m in
      let quarter = length (key_times all) / 4 in
      let rounds = if ltb quarter 1 then 1 else quarter in
      ground (
        arith,
        evict-shrinks rounds k v m,
        length-insert-le key entry (evict rounds (key_times all) all),
        length-insert-le key entry all,
      )
