-- ===== src/Server/Start.antt =====
-- main.go: main, up to the start of the HTTP server. What is logged is left out, and that the
-- consumer starts to run, in a goroutine, before the relay's setting is checked.
mod Parts
pub mod Relayed
pub mod Bound
use atproto_push_gateway.Base.{
  ℕ, ◌==◌, Text, Bool, true, false, not, ◌&&◌, [], ◌∷◌, ◌++◌, Option, none, some, lit, drop,
  has_prefix, if◌then◌else◌, Result, ok, err, ◌>>=◌,
}
use atproto_push_gateway.Store.{Store, Db}
use atproto_push_gateway.Store
use atproto_push_gateway.Store.Load.{new}
use atproto_push_gateway.Store.Tokens.{has_registered_dids}
use atproto_push_gateway.Push.Multi.{MultiSender}
use atproto_push_gateway.Relay
use atproto_push_gateway.Xrpc
use atproto_push_gateway.OriginVerify.{Config}
use atproto_push_gateway.Resolvers.Profile
use atproto_push_gateway.Resolvers.PostText
use atproto_push_gateway.Resolvers.Did
use atproto_push_gateway.Did.{DidDocument}
use atproto_push_gateway.Server.{
  Platform, Fatal, bad_did, bad_store, relay_wants_data_only, get_env, get_env_int64, is_true,
}
use atproto_push_gateway.Server.Senders.{configure_sender}

pub record Settings : Type 0 where
  pub did_cache_size : ℕ
  pub profile_cache_size : ℕ
  pub max_decompressed_bytes : ℕ
  pub post_text_max_graphemes : ℕ
  pub post_text_cache_size : ℕ

-- What is set up: the consumer by its connection, its limits, its resolvers with the URL that they
-- fetch from, and whether it starts
-- at once; the two handlers; the middleware; and where the server listens.
pub record Gateway : Type 0 where
  pub jetstream_url : Text
  pub max_decompressed_bytes : ℕ
  pub post_text_max_graphemes : ℕ
  pub appview_url : Text
  pub profiles : Profile.Resolver
  pub post_texts : Option PostText.Resolver
  pub dids : Did.Resolver DidDocument
  pub started : Bool
  pub sender : MultiSender
  pub xrpc : Xrpc.Handler
  pub relay : Option (Relay.Handler Store)
  pub origin : Config
  pub bind_addr : Text

module _ (p : Platform) where
  unfoldable pub read_settings : Result Fatal Settings
  unfolding get_env_int64
  read_settings = do
    did_cache_size ← get_env_int64 p (lit "DID_CACHE_SIZE") 10_000
    profile_cache_size ← get_env_int64 p (lit "PROFILE_CACHE_SIZE") 10_000
    max_decompressed_bytes ← get_env_int64 p (lit "JETSTREAM_MAX_DECOMPRESSED_BYTES") 8_388_608
    post_text_max_graphemes ← get_env_int64 p (lit "PUSH_POST_TEXT_MAX_GRAPHEMES") 300
    post_text_cache_size ← get_env_int64 p (lit "PUSH_POST_TEXT_CACHE_SIZE") 10_000
    ok (record {
      did_cache_size = did_cache_size;
      profile_cache_size = profile_cache_size;
      max_decompressed_bytes = max_decompressed_bytes;
      post_text_max_graphemes = post_text_max_graphemes;
      post_text_cache_size = post_text_cache_size;
    })

  unfoldable pub read_service_did : Result Fatal Text
  unfolding get_env
  read_service_did =
      let did = get_env p (lit "PUSH_GATEWAY_DID") (lit "did:web:localhost") in
      if not (has_prefix did (lit "did:web:")) then err bad_did else ok did

  -- `file` holds the tables of the database at a path.
  unfoldable pub open_store : Db → (file : Text → Store) → Result Fatal Store
  unfolding get_env
  open_store db file =
      elim (new db (file (get_env p (lit "SQLITE_PATH") (lit "./push-gateway.db")))) [
        | err _ ↦ err bad_store
        | ok s ↦ ok s
      ]

  -- The relay refuses to run without data-only messages.
  unfoldable pub start_relay :
      Store → (service_did : Text) → Result Fatal (Option (Relay.Handler Store))
  unfolding is_true
  start_relay s service_did =
      if is_true p (lit "RELAY_ENABLED") []
      then (if not (is_true p (lit "FCM_DATA_ONLY") [])
          then err relay_wants_data_only
          else ok (some (Relay.new_handler s (lit "https://" ++ drop 8 service_did))))
      else ok none

  unfoldable pub origin_config : Config
  unfolding get_env is_true
  origin_config = record {
    secret = get_env p (lit "ORIGIN_VERIFY_SECRET") [];
    header_name = get_env p (lit "ORIGIN_VERIFY_HEADER_NAME") (lit "X-Origin-Verify");
    exclude_health = is_true p (lit "ORIGIN_VERIFY_EXCLUDE_HEALTH") [];
    exclude_did_json = is_true p (lit "ORIGIN_VERIFY_EXCLUDE_DID_JSON") [];
  }

  unfoldable pub bind_addr : Text
  unfolding get_env is_true
  bind_addr =
      let addr = b':' ∷ get_env p (lit "PUSH_GATEWAY_PORT") (lit "8080") in
      if is_true p (lit "DEV_MODE") [] && not (is_true p (lit "DEV_MODE_ALLOW_PUBLIC") [])
      then lit "127.0.0.1" ++ addr
      else addr

  -- xrpc.NewHandler, with the consumer's NotifyTokenRegistered.
  unfoldable pub xrpc_handler : Store → (service_did : Text) → Xrpc.Handler
  unfolding is_true
  xrpc_handler s service_did = record {
    store = s;
    dev_mode = is_true p (lit "DEV_MODE") [];
    service_did = service_did;
    wants_signal = true;
    backfills = [];
    signalled = 0;
  }

  unfoldable pub assemble :
      Store → (service_did : Text) → Settings → MultiSender → Option (Relay.Handler Store) → Gateway
  unfolding is_true
  assemble s service_did settings sender relay = record {
    jetstream_url =
        get_env p (lit "JETSTREAM_URL") (lit "wss://jetstream2.us-east.bsky.network/subscribe");
    max_decompressed_bytes = settings.max_decompressed_bytes;
    post_text_max_graphemes = settings.post_text_max_graphemes;
    appview_url = get_env p (lit "PUSH_APPVIEW_URL") (lit "https://public.api.bsky.app");
    profiles = Profile.new_resolver settings.profile_cache_size;
    post_texts =
        if is_true p (lit "PUSH_POST_TEXT_FETCH") (lit "true")
        then some (PostText.new_resolver settings.post_text_cache_size)
        else none;
    dids = Did.new_resolver settings.did_cache_size;
    started = has_registered_dids s;
    sender = sender;
    xrpc = xrpc_handler s service_did;
    relay = relay;
    origin = origin_config;
    bind_addr = bind_addr;
  }

  unfoldable pub start : Db → (file : Text → Store) → Result Fatal Gateway
  unfolding read_service_did read_settings open_store start_relay assemble
  start db file = do
    service_did ← read_service_did
    settings ← read_settings
    s ← open_store db file
    sender ← configure_sender p
    relay ← start_relay s service_did
    ok (assemble s service_did settings sender relay)
