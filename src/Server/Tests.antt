-- ===== src/Server/Tests.antt =====
-- Starts of the gateway in fixed environments.
use atproto_push_gateway.Base.{
  ℕ, ◌≡◌, refl, ◌==◌, Text, true, false, Map, [], ◌∷◌, none, some, lit, lookup, has_prefix, ok, err,
  decimal, horner, digits_onto,
}
use atproto_push_gateway.Store.{Store, Db, WebPushEndpoint}
use atproto_push_gateway.Store.Load.{
  new, load_dids, load_blocks, load_blocks_by_rkey, load_verifications,
}
use atproto_push_gateway.Store.Tokens.{has_registered_dids}
use atproto_push_gateway.Store.History.{empty}
use atproto_push_gateway.Push.Fcm.{
  FcmSender, new_fcm_sender_from_bytes, set_data_only, fcm_message, fcm_send,
}
use atproto_push_gateway.Push.Multi.{new_multi_sender, is_expo_token, multi_send}
use atproto_push_gateway.Push.Multi
use atproto_push_gateway.Push.{sent}
use atproto_push_gateway.Relay
use atproto_push_gateway.Relay.{new_handler, trim_right}
use atproto_push_gateway.Relay.Delivery.{relayed}
use atproto_push_gateway.Resolvers.Profile
use atproto_push_gateway.Resolvers.Did
use atproto_push_gateway.Vapid.{Crypto}
use atproto_push_gateway.Server.{
  Platform, bad_did, bad_integer, relay_wants_data_only, is_digit, digits_value, parse_positive,
  get_env, get_env_int64, is_true,
}
use atproto_push_gateway.Server.Senders.{
  or_fatal, decode_base64, apns_of, fcm_of, configure_apns, configure_fcm, configure_sender,
}
use atproto_push_gateway.Server.Start.{
  Settings, Gateway, read_settings, read_service_did, open_store, start_relay, origin_config,
  bind_addr, xrpc_handler, assemble, start,
}
use atproto_push_gateway.Jetstream.System.{new_consumer}
use atproto_push_gateway.Server.Shutdown.{
  closing, Running, listen, stop_consumer, signal, close_listeners, times_out, Steps, none_yet,
  one_more,
}
use atproto_push_gateway.Server.Shutdown.Ordered.{IsInOrder, listen-reaches}
use atproto_push_gateway.Server.Start.Relayed.{IsDataMessage, start_relays_data}

abbrev up : Db
up = λ _. true

abbrev file : Text → Store
file path = empty

abbrev platform : Map Text → Platform
platform env = record {
  getenv = λ key. elim (lookup key env) [ none ↦ [] | some v ↦ v ];
  read_file = λ path. none;
  decode_std = λ s. some s;
  decode_raw_std = λ s. none;
  is_ecdsa_key = λ b. true;
  project_id = λ b. some (lit "project");
  has_credentials = λ b. true;
}

program : Unit {0}
unfolding lookup ◌==◌ has_prefix new load_dids load_blocks load_blocks_by_rkey load_verifications
    has_registered_dids new_fcm_sender_from_bytes set_data_only new_multi_sender new_handler
    trim_right is_digit digits_value parse_positive get_env get_env_int64 is_true or_fatal
    decode_base64 apns_of fcm_of configure_apns configure_fcm configure_sender read_settings
    read_service_did open_store start_relay origin_config bind_addr xrpc_handler assemble start
    Profile.new_resolver Did.new_resolver is_expo_token horner digits_onto
program = tt

abbrev relaying : Platform
relaying = platform (
    (lit "RELAY_ENABLED", lit "true")
    ∷ (lit "FCM_DATA_ONLY", lit "true")
    ∷ (lit "FCM_SERVICE_ACCOUNT_BASE64", lit "account")
    ∷ [])

abbrev developing : Platform
developing = platform ((lit "DEV_MODE", lit "true") ∷ (lit "DID_CACHE_SIZE", decimal 50) ∷ [])

refused :
    start (platform ((lit "RELAY_ENABLED", lit "true") ∷ [])) up file ≡ err relay_wants_data_only
unfolding program
refused = refl

not_web : start (platform ((lit "PUSH_GATEWAY_DID", lit "did:plc:a") ∷ [])) up file ≡ err bad_did
unfolding program
not_web = refl

no_size :
    start (platform ((lit "DID_CACHE_SIZE", lit "0") ∷ [])) up file
    ≡ err (bad_integer (lit "DID_CACHE_SIZE"))
unfolding program
no_size = refl

abbrev settings : ℕ → Settings
settings dids = record {
  did_cache_size = dids;
  profile_cache_size = 10_000;
  max_decompressed_bytes = 8_388_608;
  post_text_max_graphemes = 300;
  post_text_cache_size = 10_000;
}

abbrev fcm_sender : FcmSender
fcm_sender = record {
  project_id = lit "project";
  base_url = lit "https://fcm.googleapis.com";
  data_only = true;
}

abbrev relay_handler : Relay.Handler Store
relay_handler = record {
  store = empty;
  base_url = lit "https://localhost";
  windows = [];
  shape_logged = false;
  sent = [];
}

abbrev relay_gateway : Gateway
relay_gateway =
    assemble relaying empty (lit "did:web:localhost") (settings 10_000)
      (record (new_multi_sender []) { fcm = some fcm_sender }) (some relay_handler)

relay_started : start relaying up file ≡ ok relay_gateway
unfolding program
relay_started = refl

abbrev dev_gateway : Gateway
dev_gateway =
    assemble developing empty (lit "did:web:localhost") (settings 50) (new_multi_sender []) none

dev_started : start developing up file ≡ ok dev_gateway
unfolding program
dev_started = refl

abbrev crypto : Crypto
crypto = record {
  raw_url = λ s. some s;
  url = λ s. none;
  raw_std = λ s. none;
  std = λ s. none;
  on_p256 = λ b. true;
  jwt_valid = λ k t. true;
}

abbrev multi_outside : Multi.Outside
multi_outside = record { http = λ r. none; sign = λ n. none; fcm_token = none; now = 0 }

abbrev relay_outside : Relay.Outside
relay_outside = record { send = λ n. sent; crypto = crypto; encode = λ b. b; now = 0 }

abbrev endpoint : WebPushEndpoint
endpoint = record {
  platform = lit "android";
  device_token = lit "native";
  app_id = lit "app";
  vapid_public_key = [];
  instance_host = [];
}

start_relays_data_example :
    (multi_send multi_outside relay_gateway.sender (relayed relay_outside endpoint (1 ∷ [])) ≡ (
      relay_gateway.sender,
      fcm_send multi_outside.http multi_outside.fcm_token fcm_sender
          (relayed relay_outside endpoint (1 ∷ [])),
    ))
    × IsDataMessage (1 ∷ []) (fcm_message fcm_sender (relayed relay_outside endpoint (1 ∷ [])))
unfolding program
start_relays_data_example =
    start_relays_data relaying up file relay_gateway relay_handler fcm_sender multi_outside
      relay_outside endpoint (1 ∷ []) relay_started refl refl refl refl

abbrev stopped : Running
stopped = record (listen (new_consumer empty)) {
  stage = closing;
  listening = false;
  timed_out = true;
  consumer = stop_consumer (new_consumer empty);
}

stopped-Steps : Steps (λ raw. none) (lit "wss://j") (listen (new_consumer empty)) stopped
unfolding listen
stopped-Steps =
    one_more (one_more (one_more none_yet (signal refl)) (close_listeners refl))
      (times_out refl refl)

listen-reaches_example : IsInOrder closing stopped
unfolding listen
listen-reaches_example =
    listen-reaches (λ raw. none) (lit "wss://j") (new_consumer empty) stopped stopped-Steps
