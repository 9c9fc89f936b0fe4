-- ===== src/Store/Endpoints/Mapping.antt =====
-- The endpoints as a mapping from ids to devices: one row for a hash and one for a device.
use atproto_push_gateway.Base.{
  ◌≡◌, refl, eq_iff, eq_refl, Text, Bool, true, false, not, List, [], ◌∷◌, ◌++◌, some, none, Option,
  some_of, some_of-append, some_of-keep, keep, arith, if◌then◌else◌, ok, err,
}
use atproto_push_gateway.Store.{
  Store, EndpointRow, WebPushEndpoint, Db, endpoint_not_found, select_endpoint, delete_endpoint,
}
use atproto_push_gateway.Store.Endpoints.{
  is_device, has_hash, find_row, create_webpush_endpoint, get_webpush_endpoint,
  delete_webpush_endpoint,
}

-- No two rows have the same hash, and no two the same device token and app.
abbrev pub IsMapping : List EndpointRow → Type 0
IsMapping [] = Unit
IsMapping (r ∷ rows) =
    (some_of (has_hash r.endpoint_hash) rows ≡ false)
    × (some_of (is_device r.endpoint.device_token r.endpoint.app_id) rows ≡ false)
    × IsMapping rows

pub keep-IsMapping :
    (p : EndpointRow → Bool) (rows : List EndpointRow) → IsMapping rows → IsMapping (keep p rows)
keep-IsMapping p [] h = h
keep-IsMapping p (r ∷ rows) (hash, device, h) = ground (
  arith,
  keep-IsMapping p rows h,
  some_of-keep (has_hash r.endpoint_hash) p rows,
  some_of-keep (is_device r.endpoint.device_token r.endpoint.app_id) p rows,
)

append-IsMapping :
    (rows : List EndpointRow) (r : EndpointRow)
    → IsMapping rows
    → some_of (has_hash r.endpoint_hash) rows ≡ false
    → some_of (is_device r.endpoint.device_token r.endpoint.app_id) rows ≡ false
    → IsMapping (rows ++ r ∷ [])
append-IsMapping [] r h new_hash new_device = (refl, refl, tt)
append-IsMapping (q ∷ rows) r (hash, device, h) new_hash new_device = (
  rw (some_of-append (has_hash q.endpoint_hash)) (
      ground
        (arith, eq_iff q.endpoint_hash r.endpoint_hash, eq_iff r.endpoint_hash q.endpoint_hash)),
  rw (some_of-append (is_device q.endpoint.device_token q.endpoint.app_id)) (
      ground (
        arith,
        eq_iff q.endpoint.device_token r.endpoint.device_token,
        eq_iff r.endpoint.device_token q.endpoint.device_token,
        eq_iff q.endpoint.app_id r.endpoint.app_id,
        eq_iff r.endpoint.app_id q.endpoint.app_id,
      )),
  append-IsMapping rows r h (ground arith) (ground arith),
)

some_of-keep-not {ℓ} :
    {A : Type ℓ} (p : A → Bool) (xs : List A) → some_of p (keep (λ x. not (p x)) xs) ≡ false
some_of-keep-not p [] = refl
some_of-keep-not p (x ∷ xs) = ground (arith, some_of-keep-not p xs)

module _ (hash : Text → Text) where
  -- CreateWebPushEndpoint keeps the mapping, whether it succeeds or fails.
  pub create-IsMapping :
      (db : Db) (fresh : Option Text) (e : WebPushEndpoint) (s : Store)
      → IsMapping s.endpoint_rows
      → IsMapping (create_webpush_endpoint hash db fresh e s).0.endpoint_rows
  unfolding create_webpush_endpoint
  create-IsMapping db none e s h = h
  create-IsMapping db (some id) e s h =
      let row : EndpointRow = record {
        endpoint_hash = hash id;
        endpoint = e;
        last_push_at = none;
      } in
      let others = keep (λ r. not (is_device e.device_token e.app_id r)) s.endpoint_rows in
      ground (
        arith,
        h,
        append-IsMapping others row (keep-IsMapping _ s.endpoint_rows h),
        some_of-keep-not (is_device e.device_token e.app_id) s.endpoint_rows,
      )

  pub find_row-append :
      (h : Text) (rows : List EndpointRow) (r : EndpointRow)
      → find_row h (rows ++ r ∷ []) ≡ (
          if some_of (has_hash h) rows
          then find_row h rows
          else if has_hash h r
          then some r
          else none)
  unfolding find_row
  find_row-append h [] r = refl
  find_row-append h (q ∷ rows) r = ground (arith, find_row-append h rows r)

  -- What CreateWebPushEndpoint answers with an id resolves to the device that was stored.
  pub get-create :
      (db db' : Db) (fresh : Option Text) (e : WebPushEndpoint) (s t : Store) (id : Text)
      → create_webpush_endpoint hash db fresh e s ≡ (t, ok id)
      → db' select_endpoint ≡ true
      → get_webpush_endpoint hash db' t id ≡ ok e
  unfolding create_webpush_endpoint get_webpush_endpoint
  get-create db db' none e s t id made up = cc
  get-create db db' (some i) e s t id made up =
      let row : EndpointRow = record {
        endpoint_hash = hash i;
        endpoint = e;
        last_push_at = none;
      } in
      let others = keep (λ r. not (is_device e.device_token e.app_id r)) s.endpoint_rows in
      ground (arith, find_row-append (hash i) others row, eq_refl (hash i))

  find_row-kept :
      (h : Text) (rows : List EndpointRow) → find_row h (keep (λ r. not (has_hash h r)) rows) ≡ none
  unfolding find_row
  find_row-kept h [] = refl
  find_row-kept h (r ∷ rows) = ground (arith, find_row-kept h rows)

  -- After DeleteWebPushEndpoint succeeds the id is unknown, whether or not it was known before.
  pub get-delete :
      (db db' : Db) (id : Text) (s : Store)
      → db delete_endpoint ≡ true
      → db' select_endpoint ≡ true
      → get_webpush_endpoint hash db' (delete_webpush_endpoint hash db id s).0 id
        ≡ err endpoint_not_found
  unfolding delete_webpush_endpoint get_webpush_endpoint
  get-delete db db' id s up up' = ground (arith, find_row-kept (hash id) s.endpoint_rows)

  find_row-some_of :
      (h : Text) (rows : List EndpointRow) (r : EndpointRow)
      → find_row h rows ≡ some r
      → (some_of (has_hash h) rows ≡ true)
        × (some_of (is_device r.endpoint.device_token r.endpoint.app_id) rows ≡ true)
        × (r.endpoint_hash ≡ h)
  unfolding find_row
  find_row-some_of h [] r found = cc
  find_row-some_of h (q ∷ rows) r found = ground (
    arith,
    find_row-some_of h rows r,
    eq_iff q.endpoint_hash h,
    eq_refl r.endpoint.device_token,
    eq_refl r.endpoint.app_id,
  )

  find_row-same_device :
      (h g : Text) (rows : List EndpointRow) (r q : EndpointRow)
      → IsMapping rows
      → find_row h rows ≡ some r
      → find_row g rows ≡ some q
      → r.endpoint.device_token ≡ q.endpoint.device_token
      → r.endpoint.app_id ≡ q.endpoint.app_id
      → h ≡ g
  unfolding find_row
  find_row-same_device h g [] r q m found other token app = cc
  find_row-same_device h g (x ∷ rows) r q (_, device, m) found other token app = ground (
    arith,
    eq_iff x.endpoint_hash h,
    eq_iff x.endpoint_hash g,
    find_row-same_device h g rows r q m,
    find_row-some_of h rows r,
    find_row-some_of g rows q,
  )

  get-eq-ok :
      (db : Db) (s : Store) (id : Text) (e : WebPushEndpoint)
      → get_webpush_endpoint hash db s id ≡ ok e
      → (r : EndpointRow) × (find_row (hash id) s.endpoint_rows ≡ some r) × (r.endpoint ≡ e)
  unfolding get_webpush_endpoint
  get-eq-ok db s id e got = ground arith

  -- Two ids that resolve to the same device and app have the same hash: a device has one endpoint.
  get_same_device :
      (db : Db) (s : Store) (i j : Text) (e f : WebPushEndpoint)
      → IsMapping s.endpoint_rows
      → get_webpush_endpoint hash db s i ≡ ok e
      → get_webpush_endpoint hash db s j ≡ ok f
      → e.device_token ≡ f.device_token
      → e.app_id ≡ f.app_id
      → hash i ≡ hash j
  get_same_device db s i j e f m got other token app =
      let (r, found, is_e) = get-eq-ok db s i e got in
      let (q, found', is_f) = get-eq-ok db s j f other in
      find_row-same_device (hash i) (hash j) s.endpoint_rows r q m found found' (ground arith)
        (ground arith)
