-- ===== src/Relay/Routes/Delivered.antt =====
-- From a registration to a delivery, over the routes.
use mathlib.Core.List.{append_assoc}
use mathlib.Core.Path.{subst}
use atproto_push_gateway.Base.{
  ◌≡◌, ◌≤◌, ◌<◌, ap, ◌∙◌, sym, ◌==◌, Text, Bytes, true, [], ◌∷◌, ◌++◌, Option, some, lit, length,
  has_prefix, cut, ℕ, ◌⊎◌, inl, inr, ok, arith,
}
use atproto_push_gateway.Store.Endpoints.Mapping.{get-create}
use atproto_push_gateway.Store.{Store, WebPushEndpoint, Db, select_endpoint}
use atproto_push_gateway.Store.Endpoints.{create_webpush_endpoint, get_webpush_endpoint}
use atproto_push_gateway.Push.{Notification}
use atproto_push_gateway.Vapid.Pinning.{IsAuthentic}
use atproto_push_gateway.Relay.{EndpointStore, Handler, Outside}
use atproto_push_gateway.Relay.Sqlite.{sqlite}
use atproto_push_gateway.Relay.Limiter.{allow}
use atproto_push_gateway.Relay.Register.{RegisterRequest, Response, endpoint_url, handle_register}
use atproto_push_gateway.Relay.Register.Endpoint.{stored, Outcome-cases}
use atproto_push_gateway.Relay.Delivery.{relayed, max_ciphertext_bytes}
use atproto_push_gateway.Relay.Delivery.Delivers.{status_of, handle_push_delivers}
use atproto_push_gateway.Relay.Routes.{Request, segment_of, serve}
use atproto_push_gateway.Relay.Routes.Served.{IsRoutable, path_of, push_of, serve-path_of}

-- What the sender is to get: the encoded body under the title Fediverse, for the device.
abbrev pub handed_over : WebPushEndpoint → Text → Notification
handed_over e encoded = record {
  token = e.device_token;
  platform = e.platform;
  title = lit "Fediverse";
  body = [];
  fields = (lit "m", encoded) ∷ (lit "source", lit "webpush") ∷ [];
}

module _ {S : Type 0} (store : EndpointStore S) (o : Outside) where
  push_delivers :
      (id : Text) (r : Request) (h : Handler S) (e : WebPushEndpoint) (b : Bytes)
      → IsRoutable id
      → r.method ≡ lit "POST"
      → r.path ≡ path_of id
      → store.get_webpush_endpoint h.store id ≡ ok e
      → (allow o.now id h.windows).1 ≡ true
      → (e.vapid_public_key ≡ []) ⊎ IsAuthentic o.crypto r.authorization e.vapid_public_key
      → r.body ≡ some b
      → 0 < length b
      → length b ≤ max_ciphertext_bytes
      → (r.content_encoding ≡ []) ⊎ (r.content_encoding ≡ lit "aes128gcm")
      → ((serve store o r h).0.sent ≡ relayed o e b ∷ h.sent)
        × ((serve store o r h).1.status ≡ status_of (o.send (relayed o e b)))
  unfolding push_of
  push_delivers id r h e b is_id post at known rate authentic body full fits readable =
      let same = serve-path_of store o id r h is_id at post in
      let (pushed, answered) =
        handle_push_delivers store o (push_of id r) h e b known rate authentic body full fits
          readable in
      (
        ap (λ (p : Handler S × Response). p.0.sent) same ∙ pushed,
        ap (λ (p : Handler S × Response). p.1.status) same ∙ answered,
      )

  serve-register :
      (r : Request) (req : RegisterRequest) (h : Handler S)
      → r.method ≡ lit "POST"
      → r.path ≡ path_of (lit "register")
      → r.register ≡ some req
      → serve store o r h ≡ handle_register store (some req) h
  unfolding serve segment_of has_prefix cut ◌==◌
  serve-register r req h post at decoded =
      ground (arith, decoded, ap segment_of at, ap (λ m. m == lit "POST") post)

module _ (hash : Text → Text) where
  create_webpush_endpoint-id :
      (db : Db) (id : Text) (e : WebPushEndpoint) (s t : Store) (got : Text)
      → create_webpush_endpoint hash db (some id) e s ≡ (t, ok got)
      → got ≡ id
  unfolding create_webpush_endpoint
  create_webpush_endpoint-id db id e s t got made = ground (arith, made)

  -- A registration that is answered 201 leaves the rest of the relay as it was.
  register_fresh :
      (db db' : Db) (id : Text) (now : ℕ) (req : RegisterRequest) (h : Handler Store)
      → (handle_register (sqlite hash db (some id) now) (some req) h).1.status ≡ 201
      → db' select_endpoint ≡ true
      → let (h', response) = handle_register (sqlite hash db (some id) now) (some req) h in
        (response.endpoint ≡ some (endpoint_url h.base_url id))
        × (get_webpush_endpoint hash db' h'.store id ≡ ok (stored req))
        × (h'.windows ≡ h.windows)
        × (h'.sent ≡ h.sent)
  unfolding handle_register
  register_fresh db db' id now req h created up =
      elim (Outcome-cases (create_webpush_endpoint hash db (some id) (stored req) h.store)) [
        | inr (t, e, refused) ↦ absurd (ground (arith, refused))
        | inl (t, got, made) ↦
            let same = create_webpush_endpoint-id db id (stored req) h.store t got made in
            (
              ground (arith, made, same),
              ground
                  (arith, made, same, get-create hash db db' (some id) (stored req) h.store t got),
              ground (arith, made),
              ground (arith, made),
            )
      ]

  -- After a registration, the answer hands out the endpoint of an id, and a delivery there reaches
  -- the registered device.
  abbrev pub IsDelivered :
      Db
      → Option Text
      → (now : ℕ) → Outside
      → (id : Text) → Request
      → RegisterRequest
      → Bytes
      → Handler Store
      → Handler Store × Response
      → Type 0
  IsDelivered db' fresh now' o' id r' req b h (h', response) =
      let (h'', answered) = serve (sqlite hash db' fresh now') o' r' h' in
      let handed = handed_over (stored req) (o'.encode b) in
      (response.endpoint ≡ some (h.base_url ++ path_of id))
      × (h''.sent ≡ handed ∷ h.sent)
      × (answered.status ≡ status_of (o'.send handed))

  -- A registration at POST /relay/register that is answered 201 hands out the relay's base and the
  -- path of the fresh id, and then a POST at this path, within the rate, that is authentic for the
  -- key that was registered (if one was), with a body that is not empty, within the ceiling and in
  -- an encoding that devices read, hands the whole body, encoded, as the field m of a notification
  -- with the title Fediverse to the sender for the registered device, once, and is answered 201, 404
  -- or 502 as the sender says.
  pub registered_delivers :
      (db db' : Db) (id : Text) (now now' : ℕ) (o o' : Outside) (fresh : Option Text)
      (r r' : Request) (req : RegisterRequest) (b : Bytes) (h : Handler Store)
      → IsRoutable id
      → r.method ≡ lit "POST"
      → r.path ≡ path_of (lit "register")
      → r.register ≡ some req
      → (serve (sqlite hash db (some id) now) o r h).1.status ≡ 201
      → db' select_endpoint ≡ true
      → r'.method ≡ lit "POST"
      → r'.path ≡ path_of id
      → (allow o'.now id h.windows).1 ≡ true
      → ((stored req).vapid_public_key ≡ [])
        ⊎ IsAuthentic o'.crypto r'.authorization (stored req).vapid_public_key
      → r'.body ≡ some b
      → 0 < length b
      → length b ≤ max_ciphertext_bytes
      → (r'.content_encoding ≡ []) ⊎ (r'.content_encoding ≡ lit "aes128gcm")
      → IsDelivered db' fresh now' o' id r' req b h (serve (sqlite hash db (some id) now) o r h)
  unfolding relayed
  registered_delivers db db' id now now' o o' fresh r r' req b h is_id post at decoded created up
        post' at' rate authentic body full fits readable =
      let store = sqlite hash db (some id) now in
      let registered = serve-register store o r req h post at decoded in
      let (endpoint, known, windows, sent) =
        register_fresh db db' id now req h
          (sym (ap (λ (p : Handler Store × Response). p.1.status) registered) ∙ created) up in
      let h' = (handle_register store (some req) h).0 in
      let (pushed, answered) =
        push_delivers (sqlite hash db' fresh now') o' id r' h' (stored req) b is_id post' at' known
          (ap (λ w. (allow o'.now id w).1) windows ∙ rate) authentic body full fits readable in
      subst (IsDelivered db' fresh now' o' id r' req b h) (sym registered) (
        endpoint ∙ ap some (append_assoc h.base_url (lit "/relay") (b'/' ∷ id)),
        pushed ∙ ap (λ l. relayed o' (stored req) b ∷ l) sent,
        answered,
      )
