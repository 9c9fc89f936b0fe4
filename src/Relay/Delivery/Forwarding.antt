-- ===== src/Relay/Delivery/Forwarding.antt =====
-- What reaches the sender, and from whom.
use atproto_push_gateway.Base.{
  ℕ, zero, suc, ◌≡◌, ◌≤◌, ◌<◌, eq_iff, Bytes, true, false, List, [], ◌∷◌, some, length, take, ◌⊎◌,
  inl, inr, Result, ok, err, arith, refl, ap, lit, Option-cases, Bool-cases,
}
use atproto_push_gateway.Store.{WebPushEndpoint, Error}
use atproto_push_gateway.Push.{SendResult, sent, token_invalid, failed}
use atproto_push_gateway.Vapid
use atproto_push_gateway.Vapid.{verify}
use atproto_push_gateway.Vapid.Pinning.{IsAuthentic, verify_iff}
use atproto_push_gateway.Relay.{EndpointStore, Handler, Outside}
use atproto_push_gateway.Relay.Limiter.{allow}
use atproto_push_gateway.Relay.Delivery.{
  PushRequest, relayed, is_dropped, is_admitted, after_send, forward, handle_push, read_limit,
  max_ciphertext_bytes,
}

take_of_short {ℓ} : {A : Type ℓ} (n : ℕ) (xs : List A) → length (take n xs) < n → take n xs ≡ xs
take_of_short zero xs h = absurd (omega arith)
take_of_short (suc n) [] h = refl
take_of_short (suc n) (x ∷ xs) h = ap (◌∷◌ x) (take_of_short n xs (omega arith))

module _ {S : Type 0} (store : EndpointStore S) (o : Outside) where
  -- The request was forwarded: its id is that of an endpoint, the limiter let it through, its
  -- header is authentic if a key is pinned, its body is not empty, within the ceiling, in an
  -- encoding that devices read, and the whole of it went to the endpoint's device, once.
  pub record IsForwarded (r : PushRequest) (h : Handler S) : Type 0 where
    pub endpoint : WebPushEndpoint
    pub known : store.get_webpush_endpoint h.store r.id ≡ ok endpoint
    pub within_rate : (allow o.now r.id h.windows).1 ≡ true
    pub authentic :
        (endpoint.vapid_public_key ≡ [])
        ⊎ IsAuthentic o.crypto r.authorization endpoint.vapid_public_key
    pub body : Bytes
    pub whole : r.body ≡ some body
    pub full : 0 < length body
    pub fits : length body ≤ max_ciphertext_bytes
    pub readable : (r.content_encoding ≡ []) ⊎ (r.content_encoding ≡ lit "aes128gcm")
    pub handed : (handle_push store o r h).0.sent ≡ relayed o endpoint body ∷ h.sent

  admitted-IsAuthentic :
      (r : PushRequest) (e : WebPushEndpoint)
      → is_admitted o r e ≡ true
      → (e.vapid_public_key ≡ []) ⊎ IsAuthentic o.crypto r.authorization e.vapid_public_key
  unfolding is_admitted
  admitted-IsAuthentic r e admitted =
      by_check (verify o.crypto r.authorization e.vapid_public_key) refl
    where
      by_check :
          (c : Result Vapid.Error (Unit {0}))
          → verify o.crypto r.authorization e.vapid_public_key ≡ c
          → (e.vapid_public_key ≡ []) ⊎ IsAuthentic o.crypto r.authorization e.vapid_public_key
      by_check (ok tt) p = inr ((verify_iff o.crypto r.authorization e.vapid_public_key).0 p)
      by_check (err x) p = inl ((eq_iff e.vapid_public_key []).0 (ground arith))

  undropped :
      (r : PushRequest) (b : Bytes)
      → is_dropped r b ≡ false
      → (0 < length b)
        × (length b ≤ max_ciphertext_bytes)
        × ((r.content_encoding ≡ []) ⊎ (r.content_encoding ≡ lit "aes128gcm"))
  unfolding is_dropped
  undropped r b kept =
      ground (arith, eq_iff r.content_encoding [], eq_iff r.content_encoding (lit "aes128gcm"))

  after_send-sent :
      (r : PushRequest) (e : WebPushEndpoint) (result : SendResult) (h : Handler S)
      → (after_send store o r e result h).0.sent ≡ h.sent
  unfolding after_send
  after_send-sent r e sent h = refl
  after_send-sent r e token_invalid h = refl
  after_send-sent r e failed h = refl

  -- The path of a request that passes every check.
  forwarded :
      (r : PushRequest) (h : Handler S) (e : WebPushEndpoint) (b : Bytes)
      → store.get_webpush_endpoint h.store r.id ≡ ok e
      → (allow o.now r.id h.windows).1 ≡ true
      → is_admitted o r e ≡ true
      → r.body ≡ some b
      → is_dropped r (take read_limit b) ≡ false
      → IsForwarded r h
  unfolding handle_push forward
  forwarded r h e b known within_rate admitted read kept =
      let (full, fits, readable) = undropped r (take read_limit b) kept in
      let whole = take_of_short read_limit b (omega arith) in
      let windows = (allow o.now r.id h.windows).0 in
      let handed = after_send-sent r e (o.send (relayed o e (take read_limit b))) (record h {
        windows = windows;
        shape_logged = true;
        sent = relayed o e (take read_limit b) ∷ h.sent;
      }) in
      record {
        endpoint = e;
        known = known;
        within_rate = within_rate;
        authentic = admitted-IsAuthentic r e admitted;
        body = take read_limit b;
        whole = rw whole read;
        full = full;
        fits = fits;
        readable = readable;
        handed = ground (arith, known, within_rate, admitted, read, kept, handed);
      }

  handle_push_known :
      (r : PushRequest) (h : Handler S) (e : WebPushEndpoint)
      → store.get_webpush_endpoint h.store r.id ≡ ok e
      → ((handle_push store o r h).0.sent ≡ h.sent) ⊎ IsForwarded r h
  unfolding handle_push forward
  handle_push_known r h e known = elim (Bool-cases (allow o.now r.id h.windows).1) [
    | inr limited ↦ inl (ground (arith, known, limited))
    | inl allowed ↦ elim (Bool-cases (is_admitted o r e)) [
      | inr rejected ↦ inl (ground (arith, known, allowed, rejected))
      | inl admitted ↦ elim (Option-cases r.body) [
        | inl unread ↦ inl (ground (arith, known, allowed, admitted, unread))
        | inr (b, read) ↦ elim (Bool-cases (is_dropped r (take read_limit b))) [
          | inl dropped ↦ inl (ground (arith, known, allowed, admitted, read, dropped))
          | inr kept ↦ inr (forwarded r h e b known allowed admitted read kept)
        ]
      ]
    ]
  ]

  -- Every delivery either hands nothing to the sender, or hands over exactly one notification, with
  -- the whole body for the endpoint's device, and then the id is that of an endpoint, the limiter
  -- let the request through, its header is authentic if a key is pinned, and the body is not empty,
  -- within the ceiling, and in an encoding that devices read.
  pub handle_push_forwards :
      (r : PushRequest) (h : Handler S)
      → ((handle_push store o r h).0.sent ≡ h.sent) ⊎ IsForwarded r h
  unfolding handle_push
  handle_push_forwards r h = by_endpoint (store.get_webpush_endpoint h.store r.id) refl
    where
      by_endpoint :
          (got : Result Error WebPushEndpoint)
          → store.get_webpush_endpoint h.store r.id ≡ got
          → ((handle_push store o r h).0.sent ≡ h.sent) ⊎ IsForwarded r h
      by_endpoint (ok e) known = handle_push_known r h e known
      by_endpoint (err x) unknown = inl (ground (arith, unknown))
