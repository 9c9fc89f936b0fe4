-- ===== src/Resolvers/Did/Unfailing.antt =====
-- The cache of DID documents.
use atproto_push_gateway.Base.{
  ℕ, ◌≡◌, ◌≤◌, ◌<◌, Text, length, Option, none, arith, Option-cases, inl, inr,
}
use atproto_push_gateway.Resolvers.Cache.{CacheEntry}
use atproto_push_gateway.Resolvers.Cache.Size.{length-remember-le}
use atproto_push_gateway.Resolvers.Did.{Resolver, resolve_did}

module _ {Doc : Type 0} where
  -- ResolveDID keeps its cache within the capacity, and keeps the capacity.
  resolve_did_bounded :
      (cache_ttl : ℕ) (fetch : Text → Option Doc) (now later : ℕ) (did : Text) (r : Resolver Doc)
      → 0 < r.max_cache_size
      → length r.cache ≤ r.max_cache_size
      → let r' = (resolve_did cache_ttl fetch now later did r).0 in
        (length r'.cache ≤ r'.max_cache_size) × (r'.max_cache_size ≡ r.max_cache_size)
  unfolding resolve_did
  resolve_did_bounded cache_ttl fetch now later did r room fits = elim (Option-cases (fetch did)) [
    | inl failed ↦ ground (arith, failed)
    | inr (doc, fetched) ↦
        (let entry : CacheEntry Doc = record { value = doc; cached_at = later } in
          ground (arith, fetched, length-remember-le r.max_cache_size did entry r.cache room fits))
  ]

  -- A call that answers nothing fetched in vain and leaves the cache as it is, so that the next
  -- call for the DID, at that time or later, fetches again and answers what that gives.
  resolve_did_failed :
      (cache_ttl : ℕ) (fetch fetch' : Text → Option Doc) (now later now' later' : ℕ) (did : Text)
      (r : Resolver Doc)
      → (resolve_did cache_ttl fetch now later did r).1 ≡ none
      → now ≤ now'
      → (fetch did ≡ none)
        × ((resolve_did cache_ttl fetch now later did r).0 ≡ r)
        × ((resolve_did cache_ttl fetch' now' later' did r).1 ≡ fetch' did)
  unfolding resolve_did
  resolve_did_failed cache_ttl fetch fetch' now later now' later' did r nothing after =
      elim (Option-cases (fetch did)) [
        | inr (doc, fetched) ↦ absurd (ground (arith, fetched))
        | inl failed ↦ elim (Option-cases (fetch' did)) [
          | inl again ↦ (failed, ground (arith, failed), ground (arith, failed, again))
          | inr (doc, fetched) ↦ (failed, ground (arith, failed), ground (arith, failed, fetched))
        ]
      ]
