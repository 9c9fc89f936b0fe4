-- ===== src/Xrpc/Registration.antt =====
-- handler.go: handleRegisterPush, handleUnregisterPush and handleTestRegister; blocks.go:
-- maybeStartBlocksBackfill. A body is what the JSON decoder makes of it, none if it fails or is
-- over the limit.
pub mod Owner
use atproto_push_gateway.Base.{
  ℕ, ◌+◌, ◌==◌, Text, Bool, true, false, not, ◌&&◌, ◌||◌, List, [], ◌∷◌, ◌++◌, Option, none, some,
  lit, ltb, if◌then◌else◌, byte_len, Result, ok, err,
}
use atproto_push_gateway.Store.{Store, Db, Error}
use atproto_push_gateway.Store.Tokens.{register_token, unregister_token}
use atproto_push_gateway.Store.Blocks.{mark_blocks_backfilled}
use atproto_push_gateway.Xrpc.{Request, Handler, Outside}
use atproto_push_gateway.Xrpc.Auth.{verify_auth}

pub record RegisterPushRequest : Type 0 where
  pub service_did : Text
  pub token : Text
  pub platform : Text
  pub app_id : Text

abbrev pub lexicon_register_push : Text
lexicon_register_push = lit "app.bsky.notification.registerPush"

abbrev pub lexicon_unregister_push : Text
lexicon_unregister_push = lit "app.bsky.notification.unregisterPush"

abbrev pub max_token_len : ℕ
max_token_len = 2048

abbrev pub max_app_id_len : ℕ
max_app_id_len = 256

-- The checks that both handlers make: the fields are there, and the service is this one.
unfoldable pub is_addressed : Handler → RegisterPushRequest → Bool
is_addressed h req =
    not (req.service_did == [] || req.token == [] || req.platform == [] || req.app_id == [])
    && req.service_did == h.service_did

unfoldable pub is_push_platform : Text → Bool
is_push_platform p = p == lit "ios" || p == lit "android" || p == lit "web"

unfoldable pub is_short : RegisterPushRequest → Bool
is_short req =
    not (ltb max_token_len (byte_len req.token)) && not (ltb max_app_id_len (byte_len req.app_id))

-- The backfill that is started is noted; Backfill is what it does.
unfoldable pub maybe_start_blocks_backfill : Db → (actor : Text) → Handler → Handler
maybe_start_blocks_backfill db actor h =
    let (s', claimed) = mark_blocks_backfilled db actor h.store in
    elim claimed [
      | err e ↦ record h { store = s' }
      | ok true ↦ record h { store = s'; backfills = h.backfills ++ actor ∷ [] }
      | ok false ↦ record h { store = s' }
    ]

-- onTokenRegistered, if it is not nil.
unfoldable pub signal : Handler → Handler
signal h = if h.wants_signal then record h { signalled = h.signalled + 1 } else h

-- From the store's call on.
unfoldable pub register_for : Db → (actor : Text) → RegisterPushRequest → Handler → Handler × ℕ
unfolding maybe_start_blocks_backfill signal
register_for db actor req h =
    let (s', registered) = register_token db actor req.platform req.token req.app_id h.store in
    elim registered [
      | err e ↦ (record h { store = s' }, 500)
      | ok _ ↦ (signal (maybe_start_blocks_backfill db actor (record h { store = s' })), 200)
    ]

unfoldable pub unregister_for : Db → (actor : Text) → RegisterPushRequest → Handler → Handler × ℕ
unregister_for db actor req h =
    let (s', removed) = unregister_token db actor req.platform req.token req.app_id h.store in
    elim removed [ err e ↦ (record h { store = s' }, 500) | ok _ ↦ (record h { store = s' }, 200) ]

-- The body of handleTestRegister.
pub record TestRequest : Type 0 where
  pub actor_did : Text
  pub token : Text
  pub platform : Text
  pub app_id : Text

-- The development mode's registration, with no check of who asks.
unfoldable pub handle_test_register : Db → Option TestRequest → Handler → Handler × ℕ
unfolding signal
handle_test_register db none h = (h, 400)
handle_test_register db (some req) h =
    let (s', registered) =
      register_token db req.actor_did req.platform req.token req.app_id h.store in
    elim registered [
      | err e ↦ (record h { store = s' }, 500)
      | ok _ ↦ (signal (record h { store = s' }), 200)
    ]

module _ (o : Outside) (db : Db) where
  unfoldable pub handle_register_push : Request → Option RegisterPushRequest → Handler → Handler × ℕ
  handle_register_push r body h = elim (verify_auth o h lexicon_register_push r) [
    | none ↦ (h, 401)
    | some actor ↦ elim body [
      | none ↦ (h, 400)
      | some req ↦
          if not (is_addressed h req)
          then (h, 400)
          else if not (is_push_platform req.platform)
          then (h, 400)
          else if not (is_short req)
          then (h, 400)
          else register_for db actor req h
    ]
  ]

  unfoldable pub handle_unregister_push :
      Request → Option RegisterPushRequest → Handler → Handler × ℕ
  handle_unregister_push r body h = elim (verify_auth o h lexicon_unregister_push r) [
    | none ↦ (h, 401)
    | some actor ↦ elim body [
      | none ↦ (h, 400)
      | some req ↦
          if not (is_addressed h req)
          then (h, 400)
          else if not (is_short req)
          then (h, 400)
          else unregister_for db actor req h
    ]
  ]
