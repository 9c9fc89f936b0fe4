-- ===== src/Relay/Delivery.antt =====
-- relay.go: handlePush.
pub mod Statuses
pub mod Forwarding
pub mod Delivers
use atproto_push_gateway.Base.{
  ℕ, ◌*◌, ◌==◌, Text, Bytes, Bool, true, not, ◌&&◌, ◌||◌, [], ◌∷◌, Option, none, some, lit, length,
  take, ltb, nat_eq, if◌then◌else◌, Result, ok, err,
}
use atproto_push_gateway.Store.{WebPushEndpoint, Error, endpoint_not_found}
use atproto_push_gateway.Push.{Notification, SendResult, sent, token_invalid, failed}
use atproto_push_gateway.Vapid.{verify}
use atproto_push_gateway.Relay.{EndpointStore, Handler, Outside}
use atproto_push_gateway.Relay.Limiter.{allow}

abbrev pub max_ciphertext_bytes : ℕ
max_ciphertext_bytes = 2800

abbrev pub read_limit : ℕ
read_limit = 64 * 1024

-- The parts of the request that are read; the body is none if reading it fails.
pub record PushRequest : Type 0 where
  pub id : Text
  pub authorization : Text
  pub content_encoding : Text
  pub body : Option Bytes

-- The notification that carries a ciphertext to the device of an endpoint.
unfoldable pub relayed : Outside → WebPushEndpoint → Bytes → Notification
relayed o e body = record {
  token = e.device_token;
  platform = e.platform;
  title = lit "Fediverse";
  body = [];
  fields = (lit "m", o.encode body) ∷ (lit "source", lit "webpush") ∷ [];
}

-- Whether a body is dropped: empty, too long, or in an encoding that the device cannot read.
unfoldable pub is_dropped : PushRequest → Bytes → Bool
is_dropped r body =
    nat_eq (length body) 0
    || ltb max_ciphertext_bytes (length body)
    || (not (r.content_encoding == []) && not (r.content_encoding == lit "aes128gcm"))

-- Whether the check of the sender lets the request through: a failed one counts only if a key is
-- pinned.
unfoldable pub is_admitted : Outside → PushRequest → WebPushEndpoint → Bool
is_admitted o r e = elim (verify o.crypto r.authorization e.vapid_public_key) [
  | ok _ ↦ true
  | err _ ↦ e.vapid_public_key == []
]

module _ {S : Type 0} (store : EndpointStore S) (o : Outside) where
  -- What follows the answer of the sender.
  unfoldable pub after_send : PushRequest → WebPushEndpoint → SendResult → Handler S → Handler S × ℕ
  after_send r e sent h = (record h { store = (store.touch_webpush_endpoint r.id h.store).0 }, 201)
  after_send r e token_invalid h = (
    record h {
      store = (store.delete_webpush_endpoints_for_device e.device_token e.app_id h.store).0;
    },
    404,
  )
  after_send r e failed h = (h, 502)

  unfoldable pub forward : PushRequest → WebPushEndpoint → Bytes → Handler S → Handler S × ℕ
  forward r e body h =
      if is_dropped r body
      then (h, 202)
      else (let n = relayed o e body in after_send r e (o.send n) (record h { sent = n ∷ h.sent }))

  -- From the first line of the shape on: the checks on the sender and the body.
  unfoldable pub check_and_forward : PushRequest → WebPushEndpoint → Handler S → Handler S × ℕ
  check_and_forward r e h =
      if not (is_admitted o r e)
      then (h, 202)
      else elim r.body [ none ↦ (h, 500) | some b ↦ forward r e (take read_limit b) h ]

  unfoldable pub handle_push : PushRequest → Handler S → Handler S × ℕ
  unfolding check_and_forward
  handle_push r h = elim (store.get_webpush_endpoint h.store r.id) [
    | err endpoint_not_found ↦ (h, 404)
    | err _ ↦ (h, 500)
    | ok e ↦
        (let (windows, allowed) = allow o.now r.id h.windows in
          if not allowed
          then (record h { windows = windows }, 429)
          else check_and_forward r e (record h { windows = windows; shape_logged = true }))
  ]
