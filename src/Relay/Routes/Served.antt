-- ===== src/Relay/Routes/Served.antt =====
-- What the routes answer at the path of an endpoint.
use atproto_push_gateway.Base.{
  ◌≡◌, ◌≢◌, ap, ◌∙◌, ◌==◌, eq_iff, Text, true, false, [], ◌++◌, some, lit, has_prefix, cut-none,
  Lacks, ◌⊎◌, inl, inr, arith, Bool-cases,
}
use atproto_push_gateway.Relay.{EndpointStore, Handler, Outside}
use atproto_push_gateway.Relay.Register.{Response, answer}
use atproto_push_gateway.Relay.Delivery.{PushRequest, handle_push}
use atproto_push_gateway.Relay.Delivery.Statuses.{destroys, IsGone, handle_push-destroys}
use atproto_push_gateway.Relay.Routes.{Request, relay_path, segment_of, push_to, serve}

-- An id that a path can carry and that is no word of the relay; the random ids of the store are.
abbrev pub IsRoutable : Text → Type 0
IsRoutable id = (id ≢ []) × Lacks b'/' id × (id ≢ lit "register") × (id ≢ lit "unregister")

abbrev pub path_of : (id : Text) → Text
path_of id = relay_path ++ id

segment_of-path_of : (id : Text) → IsRoutable id → segment_of (path_of id) ≡ some id
unfolding segment_of has_prefix
segment_of-path_of id (some_id, plain, _, _) = ground (arith, eq_iff id [], cut-none b'/' id plain)

unfoldable pub push_of : (id : Text) → Request → PushRequest
push_of id r = record {
  id = id;
  authorization = r.authorization;
  content_encoding = r.content_encoding;
  body = r.body;
}

module _ {S : Type 0} (store : EndpointStore S) (o : Outside) where
  pub serve-path_of :
      (id : Text) (r : Request) (h : Handler S)
      → IsRoutable id
      → r.path ≡ path_of id
      → r.method ≡ lit "POST"
      → serve store o r h ≡ (
        (handle_push store o (push_of id r) h).0,
        answer (handle_push store o (push_of id r) h).1,
      )
  unfolding serve push_to push_of
  serve-path_of id r h (some_id, plain, no_register, no_unregister) at post =
      let segment =
        ap segment_of at ∙ segment_of-path_of id (some_id, plain, no_register, no_unregister) in
      ground (
        arith,
        segment,
        eq_iff r.method (lit "POST"),
        eq_iff id (lit "register"),
        eq_iff id (lit "unregister"),
      )

  -- Of the requests at the path of an id, a POST is answered with a status on which Mastodon destroys
  -- the subscription only if the endpoint is unknown or its device's token was found invalid by the
  -- provider, and every other method is answered 405, which is such a status, and changes nothing.
  pub serve-destroys :
      (id : Text) (r : Request) (h : Handler S)
      → IsRoutable id
      → r.path ≡ path_of id
      → ((r.method ≡ lit "POST")
          × ((destroys (serve store o r h).1.status ≡ false) ⊎ IsGone store o (push_of id r) h))
        ⊎ ((r.method ≢ lit "POST")
            × ((serve store o r h).1.status ≡ 405)
            × (destroys (serve store o r h).1.status ≡ true)
            × ((serve store o r h).0 ≡ h))
  unfolding serve
  serve-destroys id r h is_id at = elim (Bool-cases (r.method == lit "POST")) [
    | inl post ↦
        let is_post = (eq_iff r.method (lit "POST")).0 post in
        let same = serve-path_of id r h is_id at is_post in
        inl (
          is_post,
          elim (Bool-cases (destroys (handle_push store o (push_of id r) h).1)) [
            | inr kept ↦ inl (ap (λ (p : Handler S × Response). destroys p.1.status) same ∙ kept)
            | inl lost ↦ inr (handle_push-destroys store o (push_of id r) h lost)
          ],
        )
    | inr other ↦
        let segment = ap segment_of at ∙ segment_of-path_of id is_id in
        inr (
          λ e. ground (arith, other, e, eq_iff r.method (lit "POST")),
          ground (arith, segment, other),
          ground (arith, segment, other),
          ground (arith, segment, other),
        )
  ]
