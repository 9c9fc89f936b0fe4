-- ===== src/Relay/Register/Endpoint.antt =====
-- An endpoint from its registration to its removal, on the gateway's store.
use atproto_push_gateway.Base.{
  ℕ, ◌≡◌, ◌≢◌, eq_iff, Text, true, [], ◌++◌, Option, some, lit, map, Lacks, is_space,
  after_last-append, to_lower, trim_space, trim_space-ne-nil, ◌⊎◌, inl, inr, ok, err, arith, refl,
}
use atproto_push_gateway.Store.{
  Store, WebPushEndpoint, Error, Db, endpoint_not_found, select_endpoint, delete_endpoint, Outcome,
}
use atproto_push_gateway.Store.Endpoints.{
  create_webpush_endpoint, get_webpush_endpoint, delete_webpush_endpoint,
}
use atproto_push_gateway.Store.Endpoints.Mapping.{get-create, get-delete}
use atproto_push_gateway.Relay.{Handler}
use atproto_push_gateway.Relay.Sqlite.{sqlite}
use atproto_push_gateway.Relay.Register.{
  RegisterRequest, UnregisterRequest, endpoint_url, last_segment, handle_register,
  handle_unregister,
}

-- What is stored for a request.
abbrev pub stored : RegisterRequest → WebPushEndpoint
stored req = record {
  platform = map to_lower (trim_space req.platform);
  device_token = trim_space req.device_token;
  app_id = trim_space req.app_id;
  vapid_public_key = trim_space req.vapid_public_key;
  instance_host = trim_space req.instance_host;
}

pub Outcome-cases :
    (x : Outcome Text)
    → ((t : Store) × (id : Text) × (x ≡ (t, ok id)))
      ⊎ ((t : Store) × (e : Error) × (x ≡ (t, err e)))
Outcome-cases (t, ok id) = inl (t, id, refl)
Outcome-cases (t, err e) = inr (t, e, refl)

module _ (hash : Text → Text) where
  -- A registration that is answered 201 hands out a URL under the relay's base whose id resolves to
  -- the trimmed request, on a platform that is "ios" or "android", with a token and an app that are
  -- not empty.
  handle_register-get :
      (db db' : Db) (fresh : Option Text) (now : ℕ) (req : RegisterRequest) (h : Handler Store)
      → (handle_register (sqlite hash db fresh now) (some req) h).1.status ≡ 201
      → db' select_endpoint ≡ true
      → let (h', response) = handle_register (sqlite hash db fresh now) (some req) h in
        (id : Text) × (response.endpoint ≡ some (endpoint_url h.base_url id))
        × (get_webpush_endpoint hash db' h'.store id ≡ ok (stored req))
        × (((stored req).platform ≡ lit "ios") ⊎ ((stored req).platform ≡ lit "android"))
        × ((stored req).device_token ≢ [])
        × ((stored req).app_id ≢ [])
  unfolding handle_register
  handle_register-get db db' fresh now req h created up =
      elim (Outcome-cases (create_webpush_endpoint hash db fresh (stored req) h.store)) [
        | inr (t, e, refused) ↦ absurd (ground (arith, refused))
        | inl (t, id, made) ↦ (
          id,
          ground (arith, made),
          ground (arith, made, get-create hash db db' fresh (stored req) h.store t id),
          ground (
            arith,
            eq_iff (stored req).platform (lit "ios"),
            eq_iff (stored req).platform (lit "android"),
          ),
          ground (arith, eq_iff (stored req).device_token []),
          ground (arith, eq_iff (stored req).app_id []),
        )
      ]

  last_segment-endpoint_url :
      (base id : Text) → Lacks b'/' id → last_segment (endpoint_url base id) ≡ id
  unfolding last_segment
  last_segment-endpoint_url base id plain =
      ground (arith, after_last-append b'/' (base ++ lit "/relay") id plain)

  -- Unregistering with the URL of an id, which has no slash, is answered 204 if the database does
  -- not fail, and then the id is unknown.
  handle_unregister-get :
      (db db' : Db) (fresh : Option Text) (now : ℕ) (base id : Text) (h : Handler Store)
      → Lacks b'/' id
      → db delete_endpoint ≡ true
      → db' select_endpoint ≡ true
      → let req : UnregisterRequest = record {
        endpoint = endpoint_url base id;
        device_token = [];
        app_id = [];
      } in
        let (h', status) = handle_unregister (sqlite hash db fresh now) (some req) h in
        (status ≡ 204) × (get_webpush_endpoint hash db' h'.store id ≡ err endpoint_not_found)
  unfolding handle_unregister is_space delete_webpush_endpoint last_segment
  handle_unregister-get db db' fresh now base id h plain down up =
      let ink = trim_space-ne-nil (base ++ lit "/relay") b'/' id refl in
      ground (
        arith,
        eq_iff (trim_space (endpoint_url base id)) [],
        last_segment-endpoint_url base id plain,
        get-delete hash db db' id h.store,
      )
