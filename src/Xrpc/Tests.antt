-- ===== src/Xrpc/Tests.antt =====
-- Runs of the XRPC handlers at fixed inputs.
use atproto_push_gateway.Base.{
  inr, List, ◌||◌, some_of, Bool, ◌≤◌, ◌<◌, ◌≡◌, ◌≢◌, ◌↔◌, refl, ◌==◌, Text, true, false, [], ◌∷◌,
  Option, none, some, lit, horner, has_prefix, split, split_parts, byte_len, after_last, lookup,
  insert, lookup_in, insert_in,
}
use atproto_push_gateway.Store.{Store, Db}
use atproto_push_gateway.Store.Tokens.{register_token, replace_token, is_registered}
use atproto_push_gateway.Store.Blocks.{
  blocked_of_rkey, add_block, has_block, mark_blocks_backfilled,
}
use atproto_push_gateway.Store.Blocks.Agreement.{Blocks, add_block-Blocks}
use atproto_push_gateway.Store.History.{empty}
use atproto_push_gateway.Did.{Jwk, DidDocument, KeyParsers}
use atproto_push_gateway.Did.Keys.{
  get_signing_key, first_key, parse_method, parse_jwk_key, curve_of, contains,
}
use atproto_push_gateway.Xrpc.{Request, Handler, Outside}
use atproto_push_gateway.Xrpc.Auth.{
  read_jwt, three_parts, transits_cloudflare, is_loopback_addr, verify_ecdsa_signature, read_claims,
  read_alg, are_claims_valid, signing_key_of, fits_curve, is_p256, bit_size, is_signed, verify_jwt,
  verify_auth,
}
use atproto_push_gateway.Xrpc.Auth.Authorized.{IsAuthorized, verify_auth_iff}
use atproto_push_gateway.Xrpc.Registration.{
  RegisterPushRequest, lexicon_register_push, lexicon_unregister_push, is_addressed,
  is_push_platform, is_short, register_for, maybe_start_blocks_backfill, signal,
  handle_register_push,
}
use atproto_push_gateway.Xrpc.Registration.Owner.{SameFor, handle_register_push_others}
use atproto_push_gateway.Xrpc.Routes.{Count, Decoded, route_of, serve_route, serve}
use atproto_push_gateway.Xrpc.Routes.Gated.{serve_refused}
use atproto_push_gateway.Xrpc.Backfill.Exact.{Fetched, blocks_did, backfill_blocks_exact}
use atproto_push_gateway.Xrpc.Backfill.Overtaken.{deleted, overtaken_seeded}
use atproto_push_gateway.Xrpc.Backfill.{
  BlockRecord, Page, uri_rkey, seed_record, seed_records, seed_pages, backfill_blocks,
}

abbrev up : Db
up = λ _. true

abbrev key : Jwk
key = record { kty = lit "EC"; crv = lit "P-256"; x = 1 ∷ []; y = 2 ∷ [] }

abbrev document : DidDocument
document = record {
  id = lit "did:bob";
  verification_method =
      record {
        id = lit "did:bob#atproto";
        method_type = [];
        controller = [];
        public_key_multibase = [];
        public_key_jwk = some key;
      }
      ∷ [];
}

abbrev parsers : KeyParsers
parsers = record { raw_url = λ s. some s; parse_secp256k1 = λ b. none; unmarshal_p256 = λ b. none }

-- A token is good for bob until 200, and every signature is valid.
abbrev outside : Outside
outside = record {
  raw_url = λ s. some s;
  claims = λ b. some (record {
    iss = lit "did:bob";
    aud = lit "did:web:gw";
    lxm = lexicon_register_push;
    exp = 200;
  });
  alg = λ b. some (lit "ES256");
  resolve_did = some (λ d. some document);
  parsers = parsers;
  sha256 = λ s. [];
  ecdsa_verify = λ k h r s. true;
  ecdsa_verify_asn1 = λ k h s. true;
  split_host = λ a. none;
  is_loopback_ip = λ a. false;
  now = 100;
}

abbrev handler : Handler
handler = record {
  store = empty;
  dev_mode = false;
  service_did = lit "did:web:gw";
  wants_signal = true;
  backfills = [];
  signalled = 0;
}

abbrev request : Request
request = record {
  remote_addr = lit "1.2.3.4:5";
  cf_connecting_ip = lit "1.1.1.1";
  actor_did = [];
  authorization = lit "Bearer h.p.s";
}

abbrev body : Option RegisterPushRequest
body = some (record {
  service_did = lit "did:web:gw";
  token = lit "t";
  platform = lit "ios";
  app_id = lit "app";
})

program : Unit {0}
unfolding read_jwt three_parts transits_cloudflare is_loopback_addr verify_ecdsa_signature
    read_claims read_alg are_claims_valid signing_key_of fits_curve is_p256 bit_size is_signed
    verify_jwt verify_auth get_signing_key first_key parse_method parse_jwk_key curve_of contains
    horner is_addressed is_push_platform is_short register_for maybe_start_blocks_backfill signal
    handle_register_push register_token replace_token is_registered add_block has_block
    mark_blocks_backfilled has_prefix split split_parts byte_len after_last lookup insert lookup_in
    insert_in ◌==◌ uri_rkey seed_record seed_records seed_pages backfill_blocks route_of serve_route
    serve
program = tt

known : verify_auth outside handler lexicon_register_push request ≡ some (lit "did:bob")
unfolding program
known = refl

stale : verify_auth (record outside { now = 201 }) handler lexicon_register_push request ≡ none
unfolding program
stale = refl

wrong_method : verify_auth outside handler lexicon_unregister_push request ≡ none
unfolding program
wrong_method = refl

registered : (handle_register_push outside up request body handler).1 ≡ 200
unfolding program
registered = refl

verify_auth_iff_example :
    (verify_auth outside handler lexicon_register_push request ≡ some (lit "did:bob"))
    ↔ IsAuthorized outside handler lexicon_register_push request (lit "did:bob")
verify_auth_iff_example =
    verify_auth_iff outside handler lexicon_register_push (lit "did:bob") request refl

not_alice : verify_auth outside handler lexicon_register_push request ≢ some (lit "did:alice")
unfolding program
not_alice = λ e. cc

handle_register_push_others_example :
    SameFor
      (lit "did:alice")
      handler.store
      (handle_register_push outside up request body handler).0.store
handle_register_push_others_example =
    handle_register_push_others outside up request body handler (lit "did:alice") not_alice

not_bob : verify_auth outside handler lexicon_unregister_push request ≢ some (lit "did:bob")
unfolding program
not_bob = λ e. cc

abbrev pages : Text → Option Page
pages cursor = some (record {
  records =
      record { uri = lit "at://did:bob/app.bsky.graph.block/k"; subject = lit "did:eve" } ∷ [];
  cursor = [];
})

seeded_pair :
    has_block (backfill_blocks up (lit "did:bob") pages empty) (lit "did:bob") (lit "did:eve")
    ≡ true
unfolding program
seeded_pair = refl

abbrev one_block : Store
one_block = (add_block up (lit "did:bob") (lit "did:al") (lit "r") empty).0

one_block-Blocks : Blocks one_block
unfolding program
one_block-Blocks = add_block-Blocks up (lit "did:bob") (lit "did:al") (lit "r") empty (λ a b. refl)

backfill_blocks_exact_example :
    (recs : List BlockRecord) × Fetched pages 20 [] recs
    × ((b : Text)
        → has_block (backfill_blocks up (lit "did:bob") pages one_block) (lit "did:bob") b
          ≡ (has_block one_block (lit "did:bob") b || some_of (blocks_did b) recs))
    × ((a b : Text)
        → a ≢ lit "did:bob"
        → has_block (backfill_blocks up (lit "did:bob") pages one_block) a b
          ≡ has_block one_block a b)
    × ((backfill_blocks up (lit "did:bob") pages one_block).push_tokens ≡ one_block.push_tokens)
backfill_blocks_exact_example = backfill_blocks_exact up (lit "did:bob") refl pages one_block

-- The request, past Cloudflare.
abbrev direct : Request
direct = record request { cf_connecting_ip = [] }

abbrev counts : Count → Bool
counts _ = true

abbrev bodies : Decoded
bodies = record { push = body; test = none; actor = none }

health_refused : (serve outside up counts (lit "GET") (lit "/health") direct bodies handler).1 ≡ 403
unfolding program
health_refused = refl

health_served :
    (serve outside up counts (lit "HEAD") (lit "/health") request bodies handler).1 ≡ 200
unfolding program
health_served = refl

no_test_route :
    (serve outside up counts (lit "POST") (lit "/test/register") request bodies handler).1 ≡ 404
unfolding program
no_test_route = refl

serve_refused_example :
    ((serve outside up counts (lit "GET") (lit "/health") direct bodies handler).0 ≡ handler)
    × (400 ≤ (serve outside up counts (lit "GET") (lit "/health") direct bodies handler).1)
    × ((serve outside up counts (lit "GET") (lit "/health") direct bodies handler).1 < 500)
unfolding program
serve_refused_example =
    serve_refused outside up counts handler (lit "GET") (lit "/health") direct bodies refl refl refl
      (inr (inr (inr refl)))

abbrev fetched : BlockRecord
fetched = record { uri = lit "at://did:bob/app.bsky.graph.block/r"; subject = lit "did:al" }

overtaken_seeded_example :
    (has_block
        (deleted up (lit "did:bob") fetched (seed_record up (lit "did:bob") fetched empty))
        (lit "did:bob")
        (lit "did:al")
      ≡ false)
    × (has_block
          (seed_record up (lit "did:bob") fetched (deleted up (lit "did:bob") fetched empty))
          (lit "did:bob")
          (lit "did:al")
        ≡ true)
unfolding program blocked_of_rkey
overtaken_seeded_example =
    overtaken_seeded up (lit "did:bob") fetched empty (λ e. cc) (λ e. cc) refl refl refl
