-- ===== src/Relay/Sqlite.antt =====
-- The gateway's store as the relay's.
use atproto_push_gateway.Base.{ℕ, Text, Option}
use atproto_push_gateway.Store.{Store, Db}
use atproto_push_gateway.Store.Endpoints
use atproto_push_gateway.Relay.{EndpointStore}

-- `hash`, the answers of the database, the fresh random id and the time are given from outside.
abbrev pub sqlite :
    (hash : Text → Text) → Db → (fresh : Option Text) → (now : ℕ) → EndpointStore Store
sqlite hash db fresh now = record {
  create_webpush_endpoint = Endpoints.create_webpush_endpoint hash db fresh;
  get_webpush_endpoint = Endpoints.get_webpush_endpoint hash db;
  delete_webpush_endpoint = Endpoints.delete_webpush_endpoint hash db;
  delete_webpush_endpoints_for_device = Endpoints.delete_webpush_endpoints_for_device db;
  touch_webpush_endpoint = Endpoints.touch_webpush_endpoint hash db now;
}
