-- ===== src/Xrpc/Routes.antt =====
-- handler.go: RegisterRoutes, what the routes that only read answer, and handleTestPush. A pattern
-- of net/http with GET serves HEAD too; a request for a path under another method gets 405.
pub mod Gated
use atproto_push_gateway.Base.{
  ℕ, ◌==◌, Text, Bool, true, false, not, ◌&&◌, ◌||◌, List, [], ◌∷◌, ◌++◌, Option, none, some, lit,
  length, drop, nat_eq, if◌then◌else◌, Result, ok, err,
}
use atproto_push_gateway.Store.{Store, Db, PushToken}
use atproto_push_gateway.Store.Tokens.{get_tokens_for_did}
use atproto_push_gateway.Store.Endpoints.{count_webpush_endpoints}
use atproto_push_gateway.Xrpc.{Request, Handler, Outside}
use atproto_push_gateway.Xrpc.Auth.{transits_cloudflare}
use atproto_push_gateway.Xrpc.Registration.{
  RegisterPushRequest, TestRequest, lexicon_register_push, lexicon_unregister_push,
  handle_register_push, handle_unregister_push, handle_test_register,
}

pub data Route : Type 0 where
  register_push unregister_push did_document health test_register test_push : Route

-- The paths, with the method that each wants; two only in the development mode.
unfoldable pub route_of : (dev_mode : Bool) → (path : Text) → Option (Text × Route)
route_of dev_mode path =
    if path == lit "/xrpc/" ++ lexicon_register_push
    then some (lit "POST", register_push)
    else if path == lit "/xrpc/" ++ lexicon_unregister_push
    then some (lit "POST", unregister_push)
    else if path == lit "/.well-known/did.json"
    then some (lit "GET", did_document)
    else if path == lit "/health"
    then some (lit "GET", health)
    else if dev_mode && path == lit "/test/register"
    then some (lit "POST", test_register)
    else if dev_mode && path == lit "/test/push"
    then some (lit "POST", test_push)
    else none

-- The counts of GetStats and the number of endpoints; a query that fails leaves its count at 0.
pub record Health : Type 0 where
  pub registered_dids : ℕ
  pub total_tokens : ℕ
  pub tracked_blocks : ℕ
  pub relay_endpoints : ℕ

-- The fields of the DID document that depend on the configuration.
pub record ServiceDocument : Type 0 where
  pub id : Text
  pub service_endpoint : Text

pub data Body : Type 0 where
  empty : Body
  document : ServiceDocument → Body
  stats : Health → Body
  tokens : ℕ → Body

pub data Count : Type 0 where
  count_push_tokens count_blocks count_endpoints : Count

unfoldable pub health_of : (counts_up : Count → Bool) → Store → Health
health_of counts_up s = record {
  registered_dids = length s.registered_dids;
  total_tokens = if counts_up count_push_tokens then length s.push_tokens else 0;
  tracked_blocks = if counts_up count_blocks then length s.block_rows else 0;
  relay_endpoints = if counts_up count_endpoints then count_webpush_endpoints s else 0;
}

-- "https://" and what follows "did:web:".
unfoldable pub service_document : (service_did : Text) → ServiceDocument
service_document service_did = record {
  id = service_did;
  service_endpoint = lit "https://" ++ drop 8 service_did;
}

unfoldable pub handle_test_push : Db → (actor_did : Option Text) → Handler → ℕ × Body
handle_test_push db none h = (400, empty)
handle_test_push db (some actor) h = elim (get_tokens_for_did db h.store actor) [
  | err e ↦ (404, empty)
  | ok found ↦ if nat_eq (length found) 0 then (404, empty) else (200, tokens (length found))
]

-- The bodies that the JSON decoder can make of a request's.
pub record Decoded : Type 0 where
  pub push : Option RegisterPushRequest
  pub test : Option TestRequest
  pub actor : Option Text

module _ (o : Outside) (db : Db) (counts_up : Count → Bool) where
  unfoldable pub serve_route : Route → Request → Decoded → Handler → Handler × ℕ × Body
  unfolding health_of service_document handle_test_push
  serve_route register_push r body h =
      let (h', status) = handle_register_push o db r body.push h in (h', status, empty)
  serve_route unregister_push r body h =
      let (h', status) = handle_unregister_push o db r body.push h in (h', status, empty)
  serve_route did_document r body h =
      if not (transits_cloudflare o h r)
      then (h, 403, empty)
      else (h, 200, document (service_document h.service_did))
  serve_route health r body h =
      if not (transits_cloudflare o h r)
      then (h, 403, empty)
      else (h, 200, stats (health_of counts_up h.store))
  serve_route test_register r body h =
      let (h', status) = handle_test_register db body.test h in (h', status, empty)
  serve_route test_push r body h =
      let (status, answer) = handle_test_push db body.actor h in (h, status, answer)

  unfoldable pub serve : (method path : Text) → Request → Decoded → Handler → Handler × ℕ × Body
  unfolding route_of serve_route
  serve method path r body h = elim (route_of h.dev_mode path) [
    | none ↦ (h, 404, empty)
    | some (wanted, route) ↦
        if method == wanted || (wanted == lit "GET" && method == lit "HEAD")
        then serve_route route r body h
        else (h, 405, empty)
  ]
