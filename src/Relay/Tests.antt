-- ===== src/Relay/Tests.antt =====
-- Runs of the relay at fixed inputs.
use atproto_push_gateway.Base.{
  has_prefix, eq_iff, ◌≡◌, ◌≢◌, ◌≤◌, refl, ◌==◌, Text, true, false, [], ◌∷◌, ◌++◌, none, some, lit,
  ◌⊎◌, inr, ok, arith, Map, lookup, cut, split, trim_space, is_space, byte_len, lower, after_last,
  to_lower,
}
use atproto_push_gateway.Store.{Store, WebPushEndpoint, Db}
use atproto_push_gateway.Store.Endpoints.{
  create_webpush_endpoint, get_webpush_endpoint, delete_webpush_endpoint,
  delete_webpush_endpoints_for_device, touch_webpush_endpoint, find_row, insert_row,
}
use atproto_push_gateway.Store.History.{empty}
use atproto_push_gateway.Push.{SendResult, sent}
use atproto_push_gateway.Vapid.{
  Crypto, parse_header, verify, decode_key, same_key, parse_public_key,
}
use atproto_push_gateway.Vapid.Pinning.{verify_iff}
use atproto_push_gateway.Relay.{EndpointStore, Window, Handler, Outside}
use atproto_push_gateway.Relay.Sqlite.{sqlite}
use atproto_push_gateway.Relay.Limiter.{allow}
use atproto_push_gateway.Relay.Limiter.Burst.{accepted, accepted_in_minute}
use atproto_push_gateway.Relay.Register.{
  RegisterRequest, UnregisterRequest, Response, endpoint_url, handle_register, handle_unregister,
}
use atproto_push_gateway.Relay.Delivery.{
  PushRequest, relayed, is_dropped, is_admitted, after_send, forward, check_and_forward,
  handle_push,
}
use atproto_push_gateway.Relay.Routes.{Request, push_to, segment_of, serve}
use atproto_push_gateway.Relay.Routes.Served.{IsRoutable, path_of, push_of, serve-destroys}
use atproto_push_gateway.Relay.Routes.Delivered.{IsDelivered, registered_delivers}
use atproto_push_gateway.Relay.Delivery.Statuses.{destroys, IsGone, handle_push_forged}
use atproto_push_gateway.Relay.Delivery.Forwarding.{IsForwarded, handle_push_forwards}

abbrev up : Db
up = λ _. true

abbrev same : Text → Text
same id = id

abbrev relay_store : EndpointStore Store
relay_store = sqlite same up (some (lit "id")) 5

-- Decoders that read a text as its code points, and a JWT that is always valid.
abbrev plain : Crypto
plain = record {
  raw_url = λ s. some s;
  url = λ s. none;
  raw_std = λ s. none;
  std = λ s. none;
  on_p256 = λ b. true;
  jwt_valid = λ k t. true;
}

abbrev outside : SendResult → Outside
outside answer = record { send = λ n. answer; crypto = plain; encode = λ b. b; now = 100 }

abbrev key : Text
key = 4 ∷ lit "AAAAAAAAAAAAAAAAAAAAAAAAAAAAAAAAAAAAAAAAAAAAAAAAAAAAAAAAAAAAAAAA"

abbrev pinned : WebPushEndpoint
pinned = record {
  platform = lit "ios";
  device_token = lit "token";
  app_id = lit "app";
  vapid_public_key = key;
  instance_host = lit "host";
}

abbrev handler : Handler Store
handler = record {
  store = record empty {
    endpoint_rows =
        record { endpoint_hash = lit "id"; endpoint = pinned; last_push_at = none } ∷ [];
  };
  base_url = lit "https://relay";
  windows = [];
  shape_logged = false;
  sent = [];
}

abbrev delivery : PushRequest
delivery = record {
  id = lit "id";
  authorization = lit "vapid t=jwt,k=" ++ key;
  content_encoding = lit "aes128gcm";
  body = some (lit "cipher");
}

program : Unit {0}
unfolding handle_push is_dropped is_admitted after_send forward check_and_forward relayed verify
    parse_header parse_public_key same_key decode_key allow get_webpush_endpoint
    create_webpush_endpoint delete_webpush_endpoint delete_webpush_endpoints_for_device
    touch_webpush_endpoint find_row insert_row handle_register handle_unregister lookup cut split
    trim_space is_space byte_len lower after_last to_lower ◌==◌ accepted
program = tt

verified : verify plain delivery.authorization key ≡ ok tt
unfolding program
verified = refl

delivered : (handle_push relay_store (outside sent) delivery handler).1 ≡ 201
unfolding program
delivered = refl

unpinned_bad_header :
    (handle_push relay_store
      (outside sent)
      (record delivery { authorization = lit "Bearer x" })
      handler).1
    ≡ 202
unfolding program
unpinned_bad_header = refl

abbrev unknown : PushRequest
unknown = record delivery { id = lit "other" }

abbrev forged : PushRequest
forged = record delivery { authorization = lit "Bearer x" }

rejects : verify plain forged.authorization key ≢ ok tt
unfolding program
rejects = λ e. cc

handle_push_forged_example :
    (((handle_push relay_store (outside sent) forged handler).1 ≡ 202)
      ⊎ ((handle_push relay_store (outside sent) forged handler).1 ≡ 429))
    × ((handle_push relay_store (outside sent) forged handler).0.sent ≡ handler.sent)
    × ((handle_push relay_store (outside sent) forged handler).0.store ≡ handler.store)
unfolding program
handle_push_forged_example =
    handle_push_forged relay_store (outside sent) forged handler pinned refl (λ e. cc) rejects

handle_push_forwards_example :
    ((handle_push relay_store (outside sent) delivery handler).0.sent ≡ handler.sent)
    ⊎ IsForwarded relay_store (outside sent) delivery handler
handle_push_forwards_example = handle_push_forwards relay_store (outside sent) delivery handler

abbrev windows : Map Window
windows =
    (lit "k", record { count = 58; start = 7 }) ∷ (lit "n", record { count = 60; start = 5 }) ∷ []

accepted_in_minute_example :
    accepted
      (lit "n")
      ((60_000_000_010, lit "n") ∷ (60_000_000_020, lit "k") ∷ (60_000_000_030, lit "n") ∷ [])
      windows
    ≤ 60
unfolding program
accepted_in_minute_example =
    accepted_in_minute (lit "n") 60_000_000_010
      ((60_000_000_020, lit "k") ∷ (60_000_000_030, lit "n") ∷ []) windows
      (inr (record { count = 60; start = 5 }, refl, omega arith)) (omega arith, (omega arith, tt))

abbrev request : RegisterRequest
request = record {
  device_token = lit " token ";
  platform = lit "iOS";
  app_id = lit "app";
  vapid_public_key = key;
  instance_host = lit "host";
}

abbrev removal : UnregisterRequest
removal = record {
  endpoint = endpoint_url (lit "https://relay") (lit "id");
  device_token = [];
  app_id = [];
}

abbrev registering : Request
registering = record {
  method = lit "POST";
  path = path_of (lit "register");
  authorization = [];
  content_encoding = [];
  body = none;
  register = some request;
  unregister = none;
}

abbrev pushing : Request
pushing = record {
  method = lit "POST";
  path = path_of (lit "id");
  authorization = lit "vapid t=jwt,k=" ++ key;
  content_encoding = lit "aes128gcm";
  body = some (lit "cipher");
  register = none;
  unregister = none;
}

routes : Unit {0}
unfolding program serve push_to segment_of has_prefix
routes = tt

the_id-IsRoutable : IsRoutable (lit "id")
the_id-IsRoutable = (
  λ e. ground (arith, eq_iff (lit "id") [], e),
  ((λ e. omega arith), ((λ e. omega arith), tt)),
  λ e. ground (arith, eq_iff (lit "id") (lit "register"), e),
  λ e. ground (arith, eq_iff (lit "id") (lit "unregister"), e),
)

abbrev probe : Request
probe = record pushing { method = lit "GET" }

abbrev probed : Handler Store × Response
probed = serve relay_store (outside sent) probe handler

serve-destroys_example :
    ((probe.method ≡ lit "POST")
      × ((destroys probed.1.status ≡ false) ⊎ IsGone relay_store (outside sent) delivery handler))
    ⊎ ((probe.method ≢ lit "POST")
        × (probed.1.status ≡ 405)
        × (destroys probed.1.status ≡ true)
        × (probed.0 ≡ handler))
unfolding push_of
serve-destroys_example =
    serve-destroys relay_store (outside sent) (lit "id") probe handler the_id-IsRoutable refl

abbrev fresh_handler : Handler Store
fresh_handler = record handler { store = empty }

registered_delivers_example :
    IsDelivered same up none 5
      (outside sent)
      (lit "id")
      pushing
      request
      (lit "cipher")
      fresh_handler
      (serve relay_store (outside sent) registering fresh_handler)
unfolding routes
registered_delivers_example =
    registered_delivers same up up (lit "id") 5 5 (outside sent) (outside sent) none registering
      pushing request (lit "cipher") fresh_handler the_id-IsRoutable refl refl refl refl refl refl
      refl refl (inr ((verify_iff plain delivery.authorization key).0 verified)) refl (omega arith)
      (omega arith) (inr refl)
