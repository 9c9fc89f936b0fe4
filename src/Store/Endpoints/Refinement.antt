-- ===== src/Store/Endpoints/Refinement.antt =====
-- The table of endpoints as a function from the hash of an id to the device, over any calls.
use atproto_push_gateway.Base.{
  ◌≡◌, refl, ap, ◌∙◌, eq_iff, Text, Bool, false, not, List, [], ◌∷◌, ◌++◌, none, some, ℕ, some_of,
  keep, map, arith, if◌then◌else◌, Option-cases, inl, inr,
}
use mathlib.Core.Path.{fun_ext}
use atproto_push_gateway.Store.{Store, EndpointRow, WebPushEndpoint, Db}
use atproto_push_gateway.Store.Endpoints.{
  is_device, has_hash, find_row, create_webpush_endpoint, get_webpush_endpoint,
  delete_webpush_endpoint, delete_webpush_endpoints_for_device, touch_webpush_endpoint,
}
use atproto_push_gateway.Store.Endpoints.Mapping.{
  IsMapping, create-IsMapping, keep-IsMapping, find_row-append,
}
use atproto_push_gateway.Store.Endpoints.Calls.{
  Call, create, delete_one, delete_all, touch, Devices, view, without_device, assign, is_free,
  succeeded, perform, promise, perform_all, promise_all, read,
}

module _ (hash : Text → Text) where
  missing-find_row :
      (h : Text) (rows : List EndpointRow)
      → some_of (has_hash h) rows ≡ false
      → find_row h rows ≡ none
  unfolding find_row
  missing-find_row h [] e = refl
  missing-find_row h (r ∷ rows) e = ground (arith, missing-find_row h rows)

  free-some_of :
      (h : Text) (rows : List EndpointRow) → is_free (view rows h) ≡ not (some_of (has_hash h) rows)
  unfolding find_row is_free view
  free-some_of h [] = refl
  free-some_of h (r ∷ rows) = ground (arith, free-some_of h rows)

  keep-view :
      (token app h : Text) (rows : List EndpointRow)
      → IsMapping rows
      → view (keep (λ r. not (is_device token app r)) rows) h
        ≡ without_device token app (view rows) h
  unfolding find_row view without_device
  keep-view token app h [] m = refl
  keep-view token app h (r ∷ rows) (new_hash, _, m) = ground (
    arith,
    keep-view token app h rows m,
    missing-find_row h rows,
    eq_iff r.endpoint_hash h,
    new_hash,
  )

  delete-view :
      (g h : Text) (rows : List EndpointRow)
      → view (keep (λ r. not (has_hash g r)) rows) h ≡ assign g none (view rows) h
  unfolding find_row view assign
  delete-view g h [] = ground arith
  delete-view g h (r ∷ rows) =
      ground (
        arith,
        delete-view g h rows,
        eq_iff r.endpoint_hash h,
        eq_iff r.endpoint_hash g,
        eq_iff g h,
      )

  touch-view :
      (now : ℕ) (g h : Text) (rows : List EndpointRow)
      → view (map (λ r. if has_hash g r then record r { last_push_at = some now } else r) rows) h
        ≡ view rows h
  unfolding find_row view
  touch-view now g h [] = refl
  touch-view now g h (r ∷ rows) = ground (arith, touch-view now g h rows)

  touch-some_of :
      (now : ℕ) (g : Text) (p : EndpointRow → Bool) (rows : List EndpointRow)
      → ((r : EndpointRow) → p (record r { last_push_at = some now }) ≡ p r)
      → some_of p (map (λ r. if has_hash g r then record r { last_push_at = some now } else r) rows)
        ≡ some_of p rows
  touch-some_of now g p [] same = refl
  touch-some_of now g p (r ∷ rows) same = ground (arith, touch-some_of now g p rows same, same r)

  touch-IsMapping :
      (now : ℕ) (g : Text) (rows : List EndpointRow)
      → IsMapping rows
      → IsMapping (map (λ r. if has_hash g r then record r { last_push_at = some now } else r) rows)
  touch-IsMapping now g [] m = tt
  touch-IsMapping now g (r ∷ rows) (new_hash, new_device, m) = ground (
    arith,
    touch-IsMapping now g rows m,
    new_hash,
    new_device,
    touch-some_of now g (has_hash r.endpoint_hash) rows (λ _. refl),
    touch-some_of now g (is_device r.endpoint.device_token r.endpoint.app_id) rows (λ _. refl),
  )

  append-view :
      (h : Text) (rows : List EndpointRow) (r : EndpointRow)
      → some_of (has_hash r.endpoint_hash) rows ≡ false
      → view (rows ++ r ∷ []) h ≡ assign r.endpoint_hash (some r.endpoint) (view rows) h
  unfolding view assign
  append-view h rows r new =
      ground
        (arith, find_row-append hash h rows r, eq_iff r.endpoint_hash h, missing-find_row h rows)

  abbrev IsKept : Store × Bool → Devices × Bool → Type 0
  IsKept (t, b) promised =
      IsMapping t.endpoint_rows × (◌≡◌ {A = Devices × Bool} (view t.endpoint_rows, b) promised)

  create-promise :
      (db : Db) (id : Text) (e : WebPushEndpoint) (s : Store)
      → IsMapping s.endpoint_rows
      → ◌≡◌ {A = Devices × Bool}
          (
            view (perform hash (create db (some id) e) s).0.endpoint_rows,
            (perform hash (create db (some id) e) s).1,
          )
          (promise hash (create db (some id) e) (view s.endpoint_rows))
  unfolding perform promise create_webpush_endpoint succeeded
  create-promise db id e s m =
      let row : EndpointRow = record {
        endpoint_hash = hash id;
        endpoint = e;
        last_push_at = none;
      } in
      let others = keep (λ r. not (is_device e.device_token e.app_id r)) s.endpoint_rows in
      let kept : view others ≡ without_device e.device_token e.app_id (view s.endpoint_rows) =
        fun_ext λ h. keep-view e.device_token e.app_id h s.endpoint_rows m in
      let free = free-some_of (hash id) others in
      let made : some_of (has_hash (hash id)) others ≡ false
          → view (others ++ row ∷ []) ≡ assign (hash id) (some e) (view others) =
        λ new. fun_ext λ h. append-view h others row new in
      rw (← kept) (ground (arith, free, made))

  -- One call does what it promises.
  perform-promise :
      (c : Call) (s : Store)
      → IsMapping s.endpoint_rows
      → IsKept (perform hash c s) (promise hash c (view s.endpoint_rows))
  unfolding perform promise create_webpush_endpoint delete_webpush_endpoint
      delete_webpush_endpoints_for_device touch_webpush_endpoint succeeded
  perform-promise (create db none e) s m = (m, refl)
  perform-promise (create db (some id) e) s m =
      (create-IsMapping hash db (some id) e s m, create-promise db id e s m)
  perform-promise (delete_one db id) s m =
      let gone : view (keep (λ r. not (has_hash (hash id) r)) s.endpoint_rows)
          ≡ assign (hash id) none (view s.endpoint_rows) =
        fun_ext λ h. delete-view (hash id) h s.endpoint_rows in
      ground (arith, m, gone, keep-IsMapping (λ r. not (has_hash (hash id) r)) s.endpoint_rows m)
  perform-promise (delete_all db token app) s m =
      let gone : view (keep (λ r. not (is_device token app r)) s.endpoint_rows)
          ≡ without_device token app (view s.endpoint_rows) =
        fun_ext λ h. keep-view token app h s.endpoint_rows m in
      ground (arith, m, gone, keep-IsMapping (λ r. not (is_device token app r)) s.endpoint_rows m)
  perform-promise (touch db now id) s m =
      let same : view (
            map (λ r. if has_hash (hash id) r then record r { last_push_at = some now } else r)
              s.endpoint_rows)
          ≡ view s.endpoint_rows =
        fun_ext λ h. touch-view now (hash id) h s.endpoint_rows in
      ground (arith, m, same, touch-IsMapping now (hash id) s.endpoint_rows m)

  get-view :
      (db : Db) (s : Store) (id : Text)
      → get_webpush_endpoint hash db s id ≡ read db (view s.endpoint_rows (hash id))
  unfolding get_webpush_endpoint view read
  get-view db s id = elim (Option-cases (find_row (hash id) s.endpoint_rows)) [
    | inl missing ↦ ground (arith, missing)
    | inr (r, found) ↦ ground (arith, found)
  ]

  all-promised :
      (cs : List Call) (s : Store)
      → IsMapping s.endpoint_rows
      → IsMapping (perform_all hash cs s).0.endpoint_rows
        × (view (perform_all hash cs s).0.endpoint_rows
            ≡ (promise_all hash cs (view s.endpoint_rows)).0)
        × ((perform_all hash cs s).1 ≡ (promise_all hash cs (view s.endpoint_rows)).1)
  unfolding perform_all promise_all
  all-promised [] s m = (m, refl, refl)
  all-promised (c ∷ cs) s m =
      let (kept, promised) = perform-promise c s m in
      let (later, viewed, answered) = all-promised cs (perform hash c s).0 kept in
      (
        later,
        viewed ∙ ap (λ q. (promise_all hash cs q.0).0) promised,
        ap (λ b. b ∷ (perform_all hash cs (perform hash c s).0).1) (ap (λ q. q.1) promised)
            ∙ ap (λ bs. (promise hash c (view s.endpoint_rows)).1 ∷ bs)
                (answered ∙ ap (λ q. (promise_all hash cs q.0).1) promised),
      )

  -- Any calls on a table in which no two rows have the same hash or the same device, whichever of
  -- them the database fails, leave such a table, succeed and fail as the same calls on a function
  -- from hashes to devices do, and a read answers what that function then has for the hash.
  pub perform_all_refines :
      (cs : List Call) (s : Store) (db : Db) (id : Text)
      → IsMapping s.endpoint_rows
      → IsMapping (perform_all hash cs s).0.endpoint_rows
        × ((perform_all hash cs s).1 ≡ (promise_all hash cs (view s.endpoint_rows)).1)
        × (get_webpush_endpoint hash db (perform_all hash cs s).0 id
            ≡ read db ((promise_all hash cs (view s.endpoint_rows)).0 (hash id)))
  perform_all_refines cs s db id m =
      let (kept, viewed, answered) = all-promised cs s m in
      (
        kept,
        answered,
        get-view db (perform_all hash cs s).0 id ∙ ap (λ f. read db (f (hash id))) viewed,
      )
