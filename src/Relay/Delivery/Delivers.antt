-- ===== src/Relay/Delivery/Delivers.antt =====
-- A delivery that passes every check reaches the device.
use atproto_push_gateway.Base.{
  ◌≡◌, ◌≤◌, ◌<◌, eq_iff, Bytes, true, false, [], ◌∷◌, some, length, take, ℕ, List, zero, suc, refl,
  ap, lit, ◌⊎◌, inl, inr, ok, err, arith, Result,
}
use atproto_push_gateway.Store.{WebPushEndpoint}
use atproto_push_gateway.Push.{SendResult, sent, token_invalid, failed}
use atproto_push_gateway.Vapid
use atproto_push_gateway.Vapid.{verify}
use atproto_push_gateway.Vapid.Pinning.{IsAuthentic, verify_iff}
use atproto_push_gateway.Relay.{EndpointStore, Handler, Outside}
use atproto_push_gateway.Relay.Limiter.{allow}
use atproto_push_gateway.Relay.Delivery.{
  PushRequest, relayed, is_dropped, is_admitted, after_send, forward, check_and_forward,
  handle_push, read_limit, max_ciphertext_bytes,
}

take_of_le {ℓ} : {A : Type ℓ} (n : ℕ) (xs : List A) → length xs ≤ n → take n xs ≡ xs
take_of_le zero [] h = refl
take_of_le zero (x ∷ xs) h = absurd (omega arith)
take_of_le (suc n) [] h = refl
take_of_le (suc n) (x ∷ xs) h = ap (◌∷◌ x) (take_of_le n xs (omega arith))

-- The status for the answer of the sender.
abbrev pub status_of : SendResult → ℕ
status_of sent = 201
status_of token_invalid = 404
status_of failed = 502

module _ {S : Type 0} (store : EndpointStore S) (o : Outside) where
  admitted_of :
      (r : PushRequest) (e : WebPushEndpoint)
      → (e.vapid_public_key ≡ []) ⊎ IsAuthentic o.crypto r.authorization e.vapid_public_key
      → is_admitted o r e ≡ true
  unfolding is_admitted
  admitted_of r e (inr a) =
      rw ((verify_iff o.crypto r.authorization e.vapid_public_key).1 a, is_admitted) refl
  admitted_of r e (inl free) = by_check (verify o.crypto r.authorization e.vapid_public_key) refl
    where
      by_check :
          (c : Result Vapid.Error (Unit {0}))
          → verify o.crypto r.authorization e.vapid_public_key ≡ c
          → is_admitted o r e ≡ true
      by_check (ok x) p = rw (p, is_admitted) refl
      by_check (err x) p = rw (p, is_admitted) ((eq_iff e.vapid_public_key []).1 free)

  kept_of :
      (r : PushRequest) (b : Bytes)
      → 0 < length b
      → length b ≤ max_ciphertext_bytes
      → (r.content_encoding ≡ []) ⊎ (r.content_encoding ≡ lit "aes128gcm")
      → is_dropped r b ≡ false
  unfolding is_dropped
  kept_of r b full fits readable =
      ground (arith, eq_iff r.content_encoding [], eq_iff r.content_encoding (lit "aes128gcm"))

  after_send-answers :
      (r : PushRequest) (e : WebPushEndpoint) (result : SendResult) (h : Handler S)
      → ((after_send store o r e result h).0.sent ≡ h.sent)
        × ((after_send store o r e result h).1 ≡ status_of result)
  unfolding after_send
  after_send-answers r e sent h = (refl, refl)
  after_send-answers r e token_invalid h = (refl, refl)
  after_send-answers r e failed h = (refl, refl)

  -- A delivery to an endpoint that is known, within the rate, authentic if a key is pinned, whose
  -- body is not empty, is within the ceiling and is in an encoding that devices read, hands the
  -- whole body to the sender for the endpoint's device, once, and answers 201, 404 or 502 as the
  -- sender says.
  pub handle_push_delivers :
      (r : PushRequest) (h : Handler S) (e : WebPushEndpoint) (b : Bytes)
      → store.get_webpush_endpoint h.store r.id ≡ ok e
      → (allow o.now r.id h.windows).1 ≡ true
      → (e.vapid_public_key ≡ []) ⊎ IsAuthentic o.crypto r.authorization e.vapid_public_key
      → r.body ≡ some b
      → 0 < length b
      → length b ≤ max_ciphertext_bytes
      → (r.content_encoding ≡ []) ⊎ (r.content_encoding ≡ lit "aes128gcm")
      → ((handle_push store o r h).0.sent ≡ relayed o e b ∷ h.sent)
        × ((handle_push store o r h).1 ≡ status_of (o.send (relayed o e b)))
  unfolding handle_push check_and_forward forward
  handle_push_delivers r h e b known within_rate authentic read full fits readable =
      let admitted = admitted_of r e authentic in
      let kept = kept_of r b full fits readable in
      let whole = take_of_le read_limit b (omega (arith, fits)) in
      let answers = after_send-answers r e (o.send (relayed o e b)) (record h {
        windows = (allow o.now r.id h.windows).0;
        shape_logged = true;
        sent = relayed o e b ∷ h.sent;
      }) in
      ground (arith, known, within_rate, admitted, read, whole, kept, answers)
