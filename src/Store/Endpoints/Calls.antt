-- ===== src/Store/Endpoints/Calls.antt =====
-- Calls of webpush.go's functions in a row, and what they promise of a function from the hash of an
-- id to the device.
use atproto_push_gateway.Base.{
  ◌==◌, Text, Bool, true, false, ◌&&◌, List, [], ◌∷◌, Option, none, some, ℕ, if◌then◌else◌, Result,
  ok, err,
}
use atproto_push_gateway.Store.{
  Store, EndpointRow, WebPushEndpoint, Db, Error, begin, commit, delete_device, insert_endpoint,
  delete_endpoint, touch_endpoint, endpoint_not_found, select_endpoint, db_error,
}
use atproto_push_gateway.Store.Endpoints.{
  is_device_platform, find_row, create_webpush_endpoint, delete_webpush_endpoint,
  delete_webpush_endpoints_for_device, touch_webpush_endpoint,
}

pub data Call : Type 0 where
  create : Db → (fresh : Option Text) → WebPushEndpoint → Call
  delete_one : Db → (id : Text) → Call
  delete_all : Db → (token app : Text) → Call
  touch : Db → (now : ℕ) → (id : Text) → Call

-- The devices by the hashes of their ids.
abbrev pub Devices : Type 0
Devices = Text → Option WebPushEndpoint

unfoldable pub view : List EndpointRow → Devices
view rows h = elim (find_row h rows) [ none ↦ none | some r ↦ some r.endpoint ]

unfoldable pub without_device : (token app : Text) → Devices → Devices
without_device token app f h = elim (f h) [
  | none ↦ none
  | some e ↦ if e.device_token == token && e.app_id == app then none else some e
]

unfoldable pub assign : Text → Option WebPushEndpoint → Devices → Devices
assign h new f k = if h == k then new else f k

unfoldable pub is_free : Option WebPushEndpoint → Bool
is_free none = true
is_free (some _) = false

unfoldable pub succeeded : {A : Type 0} → Result Error A → Bool
succeeded (ok _) = true
succeeded (err _) = false

-- The answer of a read, from the device of its hash.
unfoldable pub read : Db → Option WebPushEndpoint → Result Error WebPushEndpoint
read db none = if db select_endpoint then err endpoint_not_found else err (db_error select_endpoint)
read db (some e) = if db select_endpoint then ok e else err (db_error select_endpoint)

module _ (hash : Text → Text) where
  -- A call of the store, and whether it returned no error.
  unfoldable pub perform : Call → Store → Store × Bool
  unfolding succeeded
  perform (create db fresh e) s =
      let (t, result) = create_webpush_endpoint hash db fresh e s in (t, succeeded result)
  perform (delete_one db id) s =
      let (t, result) = delete_webpush_endpoint hash db id s in (t, succeeded result)
  perform (delete_all db token app) s =
      let (t, result) = delete_webpush_endpoints_for_device db token app s in (t, succeeded result)
  perform (touch db now id) s =
      let (t, result) = touch_webpush_endpoint hash db now id s in (t, succeeded result)

  -- What the call promises: a device has the last id that was made for it, and an id is its own
  -- device's alone.
  unfoldable pub promise : Call → Devices → Devices × Bool
  unfolding without_device assign is_free
  promise (create db none e) f = (f, false)
  promise (create db (some id) e) f =
      let others = without_device e.device_token e.app_id f in
      if db begin
        && db delete_device
        && db insert_endpoint
        && db commit
        && is_free (others (hash id))
        && is_device_platform e.platform
      then (assign (hash id) (some e) others, true)
      else (f, false)
  promise (delete_one db id) f =
      if db delete_endpoint then (assign (hash id) none f, true) else (f, false)
  promise (delete_all db token app) f =
      if db delete_device then (without_device token app f, true) else (f, false)
  promise (touch db now id) f = (f, db touch_endpoint)

  unfoldable pub perform_all : List Call → Store → Store × List Bool
  perform_all [] s = (s, [])
  perform_all (c ∷ cs) s = let (t, b) = perform c s in let (u, bs) = perform_all cs t in (u, b ∷ bs)

  unfoldable pub promise_all : List Call → Devices → Devices × List Bool
  promise_all [] f = (f, [])
  promise_all (c ∷ cs) f = let (g, b) = promise c f in let (k, bs) = promise_all cs g in (k, b ∷ bs)
