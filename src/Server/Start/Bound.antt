-- ===== src/Server/Start/Bound.antt =====
-- Where the server listens, and the limits that it starts with.
use atproto_push_gateway.Base.{
  ℕ, ◌≡◌, ◌≤◌, ◌<◌, refl, ap, sym, ◌∙◌, Text, true, false, [], some, lit, ok, arith, bind_ok,
  ok_injective, has_prefix, nat_eq, ◌⊎◌, inl, inr, Bool-cases, Option-cases, if◌then◌else◌,
}
use atproto_push_gateway.Store.{Store, Db}
use atproto_push_gateway.Resolvers.Profile
use atproto_push_gateway.Resolvers.Did
use atproto_push_gateway.Server.{Platform, max_int64, parse_positive, get_env_int64, is_true}
use atproto_push_gateway.Server.Start.{
  Settings, Gateway, read_settings, bind_addr, xrpc_handler, assemble, start,
}
use atproto_push_gateway.Server.Start.Parts.{start-IsStarted}

module _ (p : Platform) where
  bind_addr-local :
      is_true p (lit "DEV_MODE") [] ≡ true
      → is_true p (lit "DEV_MODE_ALLOW_PUBLIC") [] ≡ false
      → has_prefix (bind_addr p) (lit "127.0.0.1:") ≡ true
  unfolding bind_addr has_prefix
  bind_addr-local dev closed = rw (dev, closed) refl

  -- A gateway that starts in the development mode, in which a request may name its actor without a
  -- token, listens on the loopback address only, unless DEV_MODE_ALLOW_PUBLIC says otherwise.
  start_local :
      (db : Db) (file : Text → Store) (g : Gateway)
      → start p db file ≡ ok g
      → g.xrpc.dev_mode ≡ true
      → (has_prefix g.bind_addr (lit "127.0.0.1:") ≡ true)
        ⊎ (is_true p (lit "DEV_MODE_ALLOW_PUBLIC") [] ≡ true)
  unfolding assemble xrpc_handler
  start_local db file g started dev =
      let parts = start-IsStarted p db file g started in
      let dev_mode : is_true p (lit "DEV_MODE") [] ≡ true =
        sym (ap (λ x. x.xrpc.dev_mode) parts.assembled) ∙ dev in
      elim (Bool-cases (is_true p (lit "DEV_MODE_ALLOW_PUBLIC") [])) [
        | inl public ↦ inr public
        | inr closed ↦ inl (
            ap (λ x. has_prefix x.bind_addr (lit "127.0.0.1:")) parts.assembled
            ∙ bind_addr-local dev_mode closed)
      ]

  parse_positive-bounds : (s : Text) (n : ℕ) → parse_positive s ≡ some n → (0 < n) × (n ≤ max_int64)
  unfolding parse_positive
  parse_positive-bounds s n h = ground (arith, h)

  get_env_int64-bounds :
      (key : Text) (fallback n : ℕ)
      → 0 < fallback
      → fallback ≤ max_int64
      → get_env_int64 p key fallback ≡ ok n
      → (0 < n) × (n ≤ max_int64)
  unfolding get_env_int64
  get_env_int64-bounds key fallback n pos low h =
      elim (Option-cases (parse_positive (p.getenv key))) [
        | inl bad ↦ ground (arith, h, bad)
        | inr (m, parsed) ↦ ground (arith, h, parsed, parse_positive-bounds (p.getenv key) m parsed)
      ]

  abbrev IsLimit : ℕ → Type 0
  IsLimit n = (0 < n) × (n ≤ max_int64)

  -- The limits are above 0 and fit in a signed integer of 64 bits.
  pub record IsLimited (s : Settings) : Type 0 where
    pub dids : IsLimit s.did_cache_size
    pub profiles : IsLimit s.profile_cache_size
    pub bytes : IsLimit s.max_decompressed_bytes
    pub graphemes : IsLimit s.post_text_max_graphemes
    pub post_texts : IsLimit s.post_text_cache_size

  read_settings-IsLimited : (s : Settings) → read_settings p ≡ ok s → IsLimited s
  unfolding read_settings
  read_settings-IsLimited s h =
      let (a, got_a, h1) = bind_ok (get_env_int64 p (lit "DID_CACHE_SIZE") 10_000) _ s h in
      let (b, got_b, h2) = bind_ok (get_env_int64 p (lit "PROFILE_CACHE_SIZE") 10_000) _ s h1 in
      let (c, got_c, h3) =
        bind_ok (get_env_int64 p (lit "JETSTREAM_MAX_DECOMPRESSED_BYTES") 8_388_608) _ s h2 in
      let (d, got_d, h4) =
        bind_ok (get_env_int64 p (lit "PUSH_POST_TEXT_MAX_GRAPHEMES") 300) _ s h3 in
      let (e, got_e, h5) =
        bind_ok (get_env_int64 p (lit "PUSH_POST_TEXT_CACHE_SIZE") 10_000) _ s h4 in
      rw (← ok_injective _ s h5) record {
        dids = get_env_int64-bounds _ _ a (omega arith) (omega arith) got_a;
        profiles = get_env_int64-bounds _ _ b (omega arith) (omega arith) got_b;
        bytes = get_env_int64-bounds _ _ c (omega arith) (omega arith) got_c;
        graphemes = get_env_int64-bounds _ _ d (omega arith) (omega arith) got_d;
        post_texts = get_env_int64-bounds _ _ e (omega arith) (omega arith) got_e;
      }

  -- A gateway that starts has caches of the sizes, a limit on decompressed messages and a length
  -- of post texts that are those of its settings, each above 0 and within a signed integer of 64
  -- bits, whatever the environment holds.
  start-IsLimited :
      (db : Db) (file : Text → Store) (g : Gateway)
      → start p db file ≡ ok g
      → (s : Settings) × (read_settings p ≡ ok s)
        × IsLimited s
        × (g.max_decompressed_bytes ≡ s.max_decompressed_bytes)
        × (g.post_text_max_graphemes ≡ s.post_text_max_graphemes)
        × (g.profiles.max_cache_size ≡ s.profile_cache_size)
        × (g.dids.max_cache_size ≡ s.did_cache_size)
  unfolding assemble Profile.new_resolver Did.new_resolver
  start-IsLimited db file g started =
      let parts = start-IsStarted p db file g started in
      let limits = read_settings-IsLimited parts.settings parts.limited in
      let profile_size = sized parts.settings.profile_cache_size limits.profiles.0 in
      let did_size = sized parts.settings.did_cache_size limits.dids.0 in
      (
        parts.settings,
        parts.limited,
        limits,
        ap (λ x. x.max_decompressed_bytes) parts.assembled,
        ap (λ x. x.post_text_max_graphemes) parts.assembled,
        ap (λ x. x.profiles.max_cache_size) parts.assembled ∙ profile_size,
        ap (λ x. x.dids.max_cache_size) parts.assembled ∙ did_size,
      )
    where
      sized : (n : ℕ) → 0 < n → (if nat_eq n 0 then 10_000 else n) ≡ n
      sized n pos = ground (arith, pos)
