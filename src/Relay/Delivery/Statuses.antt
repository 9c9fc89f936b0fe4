-- ===== src/Relay/Delivery/Statuses.antt =====
-- What the status of a delivery tells the sender.
use atproto_push_gateway.Base.{
  ℕ, ◌≡◌, ◌≢◌, eq_iff, Bytes, Bool, true, not, ◌&&◌, [], ◌∷◌, leb, nat_eq, ◌⊎◌, inl, inr, Result,
  ok, err, arith, refl, Option-cases, take,
}
use atproto_push_gateway.Store.{
  WebPushEndpoint, Error, endpoint_not_found, db_error, too_many_tokens, no_random,
}
use atproto_push_gateway.Push.{SendResult, sent, token_invalid, failed}
use atproto_push_gateway.Vapid.{verify}
use atproto_push_gateway.Relay.{EndpointStore, Handler, Outside}
use atproto_push_gateway.Relay.Limiter.{allow}
use atproto_push_gateway.Relay.Delivery.{
  PushRequest, relayed, is_admitted, after_send, forward, check_and_forward, handle_push,
  read_limit,
}

-- Mastodon destroys the subscription on a 4xx other than 408 and 429.
abbrev pub destroys : ℕ → Bool
destroys code = leb 400 code && leb code 499 && not (nat_eq code 408) && not (nat_eq code 429)

module _ {S : Type 0} (store : EndpointStore S) (o : Outside) where
  -- The endpoint is unknown, or the provider has called its device's token invalid when the
  -- ciphertext was sent there.
  abbrev pub IsGone : PushRequest → Handler S → Type 0
  IsGone r h =
      (store.get_webpush_endpoint h.store r.id ≡ err endpoint_not_found)
      ⊎ ((e : WebPushEndpoint) × (b : Bytes) × (store.get_webpush_endpoint h.store r.id ≡ ok e)
          × (o.send (relayed o e b) ≡ token_invalid))

  after_send-destroys :
      (r : PushRequest) (e : WebPushEndpoint) (result : SendResult) (h : Handler S)
      → destroys (after_send store o r e result h).1 ≡ true
      → result ≡ token_invalid
  unfolding after_send
  after_send-destroys r e sent h d = cc
  after_send-destroys r e token_invalid h d = refl
  after_send-destroys r e failed h d = cc

  check-destroys :
      (r : PushRequest) (e : WebPushEndpoint) (h : Handler S)
      → destroys (check_and_forward store o r e h).1 ≡ true
      → (b : Bytes) × (o.send (relayed o e b) ≡ token_invalid)
  unfolding check_and_forward forward
  check-destroys r e h d = elim (Option-cases r.body) [
    | inl unread ↦ absurd (ground (arith, unread))
    | inr (b, read) ↦ (
      take read_limit b,
      ground (
        arith,
        read,
        after_send-destroys r e (o.send (relayed o e (take read_limit b)))
            (record h { sent = relayed o e (take read_limit b) ∷ h.sent }),
      ),
    )
  ]

  handle_push_from :
      (r : PushRequest) (h : Handler S) (got : Result Error WebPushEndpoint)
      → store.get_webpush_endpoint h.store r.id ≡ got
      → destroys (handle_push store o r h).1 ≡ true
      → IsGone r h
  unfolding handle_push
  handle_push_from r h (err endpoint_not_found) e d = inl e
  handle_push_from r h (err (db_error s)) e d = absurd (ground (arith, e))
  handle_push_from r h (err too_many_tokens) e d = absurd (ground (arith, e))
  handle_push_from r h (err no_random) e d = absurd (ground (arith, e))
  handle_push_from r h (ok endpoint) e d =
      let windows = (allow o.now r.id h.windows).0 in
      let (b, invalid) =
        check-destroys r endpoint (record h { windows = windows; shape_logged = true })
          (ground (arith, e)) in
      inr (endpoint, b, e, invalid)

  -- A delivery is answered with a status on which Mastodon destroys the subscription only if the
  -- endpoint is unknown, or its device's token was found invalid by the provider.
  pub handle_push-destroys :
      (r : PushRequest) (h : Handler S) → destroys (handle_push store o r h).1 ≡ true → IsGone r h
  handle_push-destroys r h d = handle_push_from r h (store.get_webpush_endpoint h.store r.id) refl d

  -- A request whose check fails, on an endpoint with a pinned key, is answered 202 (or 429 from
  -- the limiter), hands nothing to the sender and leaves the store as it is.
  pub handle_push_forged :
      (r : PushRequest) (h : Handler S) (e : WebPushEndpoint)
      → store.get_webpush_endpoint h.store r.id ≡ ok e
      → e.vapid_public_key ≢ []
      → verify o.crypto r.authorization e.vapid_public_key ≢ ok tt
      → (((handle_push store o r h).1 ≡ 202) ⊎ ((handle_push store o r h).1 ≡ 429))
        × ((handle_push store o r h).0.sent ≡ h.sent)
        × ((handle_push store o r h).0.store ≡ h.store)
  unfolding handle_push is_admitted
  handle_push_forged r h e got pinned rejected = ground (arith, got, eq_iff e.vapid_public_key [])
