-- ===== src/Relay/Register.antt =====
-- relay.go: handleRegister and handleUnregister. A request is what the JSON decoder made of the
-- body, none if it failed.
pub mod Endpoint
use atproto_push_gateway.Base.{
  ℕ, ◌==◌, Text, not, ◌&&◌, ◌||◌, [], ◌∷◌, ◌++◌, Option, none, some, lit, map, if◌then◌else◌,
  to_lower, trim_space, after_last, Result, ok, err,
}
use atproto_push_gateway.Relay.{EndpointStore, Handler}

pub record RegisterRequest : Type 0 where
  pub device_token : Text
  pub platform : Text
  pub app_id : Text
  pub vapid_public_key : Text
  pub instance_host : Text

pub record UnregisterRequest : Type 0 where
  pub endpoint : Text
  pub device_token : Text
  pub app_id : Text

-- A status, and the endpoint of the body if there is one.
pub record Response : Type 0 where
  pub status : ℕ
  pub endpoint : Option Text

abbrev pub answer : ℕ → Response
answer code = record { status = code; endpoint = none }

-- fmt.Sprintf("%s/relay/%s", base, id)
abbrev pub endpoint_url : Text → Text → Text
endpoint_url base id = base ++ lit "/relay" ++ b'/' ∷ id

-- The last path segment, or the whole text if it has no slash.
unfoldable pub last_segment : Text → Text
last_segment url = elim (after_last b'/' url) [ none ↦ url | some id ↦ id ]

module _ {S : Type 0} (store : EndpointStore S) where
  unfoldable pub handle_register : Option RegisterRequest → Handler S → Handler S × Response
  handle_register none h = (h, answer 400)
  handle_register (some req) h =
      let platform = map to_lower (trim_space req.platform) in
      if not (platform == lit "ios") && not (platform == lit "android")
      then (h, answer 400)
      else if trim_space req.device_token == []
      then (h, answer 400)
      else if trim_space req.app_id == []
      then (h, answer 400)
      else (let (s', created) =
            store.create_webpush_endpoint
              (record {
                platform = platform;
                device_token = trim_space req.device_token;
                app_id = trim_space req.app_id;
                vapid_public_key = trim_space req.vapid_public_key;
                instance_host = trim_space req.instance_host;
              })
              h.store in
          elim created [
            | err e ↦ (record h { store = s' }, answer 500)
            | ok id ↦ (
              record h { store = s' },
              record { status = 201; endpoint = some (endpoint_url h.base_url id) },
            )
          ])

  unfoldable pub handle_unregister : Option UnregisterRequest → Handler S → Handler S × ℕ
  unfolding last_segment
  handle_unregister none h = (h, 400)
  handle_unregister (some req) h =
      if not (trim_space req.endpoint == [])
      then (let (s', removed) = store.delete_webpush_endpoint (last_segment req.endpoint) h.store in
          elim removed [
            | ok _ ↦ (record h { store = s' }, 204)
            | err e ↦ (record h { store = s' }, 500)
          ])
      else if not (trim_space req.device_token == []) && not (trim_space req.app_id == [])
      then (let (s', removed) =
            store.delete_webpush_endpoints_for_device req.device_token req.app_id h.store in
          elim removed [
            | ok _ ↦ (record h { store = s' }, 204)
            | err e ↦ (record h { store = s' }, 500)
          ])
      else (h, 400)
