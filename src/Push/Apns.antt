-- ===== src/Push/Apns.antt =====
-- apns.go: APNsSender. Signing the provider token is the argument `sign`, from the time to the
-- signed JWT, none if it fails. Times are in nanoseconds.
pub mod Freshness
mod Tests
use atproto_push_gateway.Base.{
  ℕ, ◌+◌, ◌*◌, ◌-◌, ◌==◌, Text, Bytes, Bool, not, ◌&&◌, ◌||◌, [], ◌∷◌, ◌++◌, Option, none, some,
  lit, nat_eq, ltb, if◌then◌else◌,
}
use atproto_push_gateway.Push.{
  Notification, SendResult, sent, token_invalid, failed, apns, HttpRequest, HttpResponse, Http,
}

pub record ApnsSender : Type 0 where
  pub topic : Text
  pub base_url : Text
  pub token : Text
  pub token_exp : ℕ

-- NewAPNsSenderFromBytes. `is_ecdsa_key` tells whether the bytes are PEM of an ECDSA key in PKCS8.
unfoldable pub new_apns_sender_from_bytes :
    (is_ecdsa_key : Bytes → Bool)
    → (key : Bytes) → (topic : Text) → (sandbox : Bool) → Option ApnsSender
new_apns_sender_from_bytes is_ecdsa_key key topic sandbox =
    if not (is_ecdsa_key key)
    then none
    else some (record {
      topic = topic;
      base_url =
          if sandbox
          then lit "https://api.sandbox.push.apple.com"
          else lit "https://api.push.apple.com";
      token = [];
      token_exp = 0;
    })

abbrev pub minute : ℕ
minute = 60 * 1_000_000_000

abbrev pub hour : ℕ
hour = 60 * minute

unfoldable pub get_token : (ℕ → Option Text) → ℕ → ApnsSender → ApnsSender × Option Text
get_token sign now a =
    if not (a.token == []) && ltb (now + 5 * minute) a.token_exp
    then (a, some a.token)
    else elim (sign now) [
      | none ↦ (a, none)
      | some signed ↦ (record a { token = signed; token_exp = now + hour }, some signed)
    ]

unfoldable pub apns_request : ApnsSender → (jwt : Text) → Notification → HttpRequest
apns_request a jwt n = record {
  url = a.base_url ++ (lit "/3/device/" ++ n.token);
  headers =
      (lit "Authorization", lit "bearer " ++ jwt)
      ∷ (lit "apns-topic", a.topic)
      ∷ (lit "apns-push-type", lit "alert")
      ∷ (lit "apns-priority", lit "10")
      ∷ (lit "Content-Type", lit "application/json")
      ∷ [];
  payload = apns (record {
    title = n.title;
    body = n.body;
    sound = lit "default";
    mutable_content = 1;
    fields = n.fields;
  });
}

-- The answer of the provider.
unfoldable pub apns_result : Option HttpResponse → SendResult
apns_result none = failed
apns_result (some response) =
    if nat_eq response.status 200
    then sent
    else if nat_eq response.status 410
        || response.reason == lit "Unregistered"
        || response.reason == lit "BadDeviceToken"
    then token_invalid
    else failed

unfoldable pub apns_send :
    Http → (ℕ → Option Text) → ℕ → ApnsSender → Notification → ApnsSender × SendResult
unfolding get_token apns_request apns_result
apns_send http sign now a n =
    let (a', jwt) = get_token sign now a in
    elim jwt [ none ↦ (a', failed) | some t ↦ (a', apns_result (http (apns_request a' t n))) ]
