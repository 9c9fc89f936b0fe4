-- ===== src/Store/Endpoints.antt =====
-- webpush.go. The hash of an endpoint id (SHA-256 in base64url) is the parameter `hash`, and the
-- fresh random id, none if the random source fails, an argument of the call that makes one.
pub mod Mapping
pub mod Calls
pub mod Refinement
mod Tests
use atproto_push_gateway.Base.{
  ℕ, ◌==◌, Text, Bool, not, ◌&&◌, List, [], ◌∷◌, ◌++◌, Option, none, some, length, keep, map,
  some_of, ◌||◌, lit, if◌then◌else◌, Result, ok, err,
}
use atproto_push_gateway.Store.{
  Store, WebPushEndpoint, EndpointRow, Db, Error, db_error, endpoint_not_found, no_random, Outcome,
  begin, commit, delete_device, insert_endpoint, select_endpoint, delete_endpoint, touch_endpoint,
}

-- device_token = ? AND app_id = ?
abbrev pub is_device : Text → Text → EndpointRow → Bool
is_device token app r = r.endpoint.device_token == token && r.endpoint.app_id == app

-- endpoint_hash = ?, the primary key.
abbrev pub has_hash : Text → EndpointRow → Bool
has_hash h r = r.endpoint_hash == h

-- CHECK (platform IN ('ios', 'android'))
unfoldable pub is_device_platform : Text → Bool
is_device_platform p = p == lit "ios" || p == lit "android"

-- INSERT INTO webpush_endpoints: refused on a taken primary key and on a failed CHECK.
unfoldable pub insert_row : EndpointRow → List EndpointRow → Option (List EndpointRow)
unfolding is_device_platform
insert_row row rows =
    if some_of (has_hash row.endpoint_hash) rows
    then none
    else if is_device_platform row.endpoint.platform
    then some (rows ++ row ∷ [])
    else none

-- The first row of a hash.
unfoldable pub find_row : Text → List EndpointRow → Option EndpointRow
find_row h [] = none
find_row h (r ∷ rows) = if has_hash h r then some r else find_row h rows

module _ (hash : Text → Text) where
  unfoldable pub create_webpush_endpoint : Db → Option Text → WebPushEndpoint → Store → Outcome Text
  unfolding insert_row
  create_webpush_endpoint db none e s = (s, err no_random)
  create_webpush_endpoint db (some id) e s =
      let row : EndpointRow = record {
        endpoint_hash = hash id;
        endpoint = e;
        last_push_at = none;
      } in
      if not (db begin)
      then (s, err (db_error begin))
      else if not (db delete_device)
      then (s, err (db_error delete_device))
      else if not (db insert_endpoint)
      then (s, err (db_error insert_endpoint))
      else elim (insert_row row
          (keep (λ r. not (is_device e.device_token e.app_id r)) s.endpoint_rows)) [
            | none ↦ (s, err (db_error insert_endpoint))
            | some rows ↦
                if not (db commit)
                then (s, err (db_error commit))
                else (record s { endpoint_rows = rows }, ok id)
          ]

  unfoldable pub get_webpush_endpoint : Db → Store → Text → Result Error WebPushEndpoint
  get_webpush_endpoint db s id =
      if not (db select_endpoint)
      then err (db_error select_endpoint)
      else elim (find_row (hash id) s.endpoint_rows) [
        | none ↦ err endpoint_not_found
        | some r ↦ ok r.endpoint
      ]

  unfoldable pub delete_webpush_endpoint : Db → Text → Store → Outcome (Unit {0})
  delete_webpush_endpoint db id s =
      if not (db delete_endpoint) then (s, err (db_error delete_endpoint)) else (
        record s { endpoint_rows = keep (λ r. not (has_hash (hash id) r)) s.endpoint_rows },
        ok tt,
      )

  -- `now` is the database's datetime('now').
  unfoldable pub touch_webpush_endpoint : Db → (now : ℕ) → Text → Store → Outcome (Unit {0})
  touch_webpush_endpoint db now id s =
      if not (db touch_endpoint) then (s, err (db_error touch_endpoint)) else (
        record s {
          endpoint_rows =
              map (λ r. if has_hash (hash id) r then record r { last_push_at = some now } else r)
                s.endpoint_rows;
        },
        ok tt,
      )

unfoldable pub delete_webpush_endpoints_for_device :
    Db → (token app : Text) → Store → Outcome (Unit {0})
delete_webpush_endpoints_for_device db token app s =
    if not (db delete_device) then (s, err (db_error delete_device)) else (
      record s { endpoint_rows = keep (λ r. not (is_device token app r)) s.endpoint_rows },
      ok tt,
    )

unfoldable pub count_webpush_endpoints : Store → ℕ
count_webpush_endpoints s = length s.endpoint_rows
