-- ===== src/Relay.antt =====
-- internal/relay/relay.go: the state of the relay, the store that it is a client of, and what its
-- handlers are given.
pub mod Limiter
pub mod Register
pub mod Delivery
pub mod Routes
pub mod Sqlite
mod Tests
use atproto_push_gateway.Base.{
  nat_eq, false, ◌==◌, ◌&&◌, [], ◌∷◌, if◌then◌else◌, ℕ, Text, Bytes, Bool, Map, List, Option,
  Result, ◌≡◌, ok, err,
}
use atproto_push_gateway.Store.{WebPushEndpoint, Error}
use atproto_push_gateway.Push.{Notification, SendResult}
use atproto_push_gateway.Vapid.{Crypto}

-- The interface Store, over a state S: an operation returns the new state and its result.
pub record EndpointStore (S : Type 0) : Type 0 where
  pub create_webpush_endpoint : WebPushEndpoint → S → S × Result Error Text
  pub get_webpush_endpoint : S → Text → Result Error WebPushEndpoint
  pub delete_webpush_endpoint : Text → S → S × Result Error (Unit {0})
  pub delete_webpush_endpoints_for_device : (token app : Text) → S → S × Result Error (Unit {0})
  pub touch_webpush_endpoint : Text → S → S × Result Error (Unit {0})

pub record Window : Type 0 where
  pub count : ℕ
  pub start : ℕ

-- Handler, with the windows of its limiter, whether shapeOnce has run, and the notifications that
-- were handed to the sender, the last one first.
pub record Handler (S : Type 0) : Type 0 where
  pub store : S
  pub base_url : Text
  pub windows : Map Window
  pub shape_logged : Bool
  pub sent : List Notification

-- The sender, the checks of package vapid, base64.RawURLEncoding.EncodeToString and the time.
pub record Outside : Type 0 where
  pub send : Notification → SendResult
  pub crypto : Crypto
  pub encode : Bytes → Text
  pub now : ℕ

-- strings.TrimRight, of one character.
unfoldable pub trim_right : ℕ → Text → Text
trim_right c [] = []
trim_right c (x ∷ xs) =
    let rest = trim_right c xs in if nat_eq x c && rest == [] then [] else x ∷ rest

-- NewHandler
unfoldable pub new_handler : {S : Type 0} → S → (base_url : Text) → Handler S
unfolding trim_right
new_handler store base_url = record {
  store = store;
  base_url = trim_right b'/' base_url;
  windows = [];
  shape_logged = false;
  sent = [];
}
