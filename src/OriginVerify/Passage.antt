-- ===== src/OriginVerify/Passage.antt =====
-- Which requests reach the wrapped handler.
use atproto_push_gateway.Base.{
  ℕ, ◌≡◌, ◌≢◌, refl, eq_iff, Text, true, [], ◌++◌, lit, has_prefix, arith, ◌⊎◌,
}
use atproto_push_gateway.OriginVerify.{
  Config, Request, relay_prefix, is_exempt, header_name_of, wrap,
}

relay-exempt : (rest : Text) → has_prefix (relay_prefix ++ rest) relay_prefix ≡ true
unfolding has_prefix
relay-exempt rest = refl

-- Every request to a path under /relay/ reaches the handler, whatever the configuration and
-- whatever its headers are.
pub wrap_relay :
    (next : Request → ℕ) (cfg : Config) (r : Request) (rest : Text)
    → r.path ≡ relay_prefix ++ rest
    → wrap next cfg r ≡ next r
unfolding wrap is_exempt
wrap_relay next cfg r rest path = ground (arith, path, relay-exempt rest)

-- With a secret, a request whose header is not the secret is answered 403, unless it is to the
-- relay, or to one of the two paths that the configuration can exempt.
wrap_rejects :
    (next : Request → ℕ) (cfg : Config) (r : Request)
    → cfg.secret ≢ []
    → r.header (header_name_of cfg) ≢ cfg.secret
    → (wrap next cfg r ≡ 403)
      ⊎ (has_prefix r.path relay_prefix ≡ true)
      ⊎ ((cfg.exclude_health ≡ true) × (r.path ≡ lit "/health"))
      ⊎ ((cfg.exclude_did_json ≡ true) × (r.path ≡ lit "/.well-known/did.json"))
unfolding wrap is_exempt
wrap_rejects next cfg r closed wrong = ground (
  arith,
  eq_iff cfg.secret [],
  eq_iff (r.header (header_name_of cfg)) cfg.secret,
  eq_iff r.path (lit "/health"),
  eq_iff r.path (lit "/.well-known/did.json"),
)
