-- ===== src/Push/Multi.antt =====
-- push.go: MultiSender, which picks the sender by platform and by the form of the token.
use atproto_push_gateway.Base.{
  ℕ, ◌==◌, Text, Bool, Option, none, some, lit, if◌then◌else◌, has_prefix,
}
use atproto_push_gateway.Push.{Notification, SendResult, sent, failed, Http}
use atproto_push_gateway.Push.Expo.{ExpoPushSender, expo_send}
use atproto_push_gateway.Push.Fcm.{FcmSender, fcm_send}
use atproto_push_gateway.Push.Apns.{ApnsSender, apns_send}

pub record MultiSender : Type 0 where
  pub expo : ExpoPushSender
  pub apns : Option ApnsSender
  pub fcm : Option FcmSender

unfoldable pub new_multi_sender : (expo_token : Text) → MultiSender
new_multi_sender expo_token = record {
  expo = record { access_token = expo_token; base_url = lit "https://exp.host" };
  apns = none;
  fcm = none;
}

-- What the senders need from outside: the HTTP client, the signing of the APNs token, the OAuth2
-- token of FCM, and the time.
pub record Outside : Type 0 where
  pub http : Http
  pub sign : ℕ → Option Text
  pub fcm_token : Option Text
  pub now : ℕ

unfoldable pub is_expo_token : Text → Bool
is_expo_token token = has_prefix token (lit "ExponentPushToken[")

-- A native token without its sender is passed over, with no error.
unfoldable pub send_ios : Outside → MultiSender → Notification → MultiSender × SendResult
send_ios o m n = if is_expo_token n.token then (m, expo_send o.http m.expo n) else elim m.apns [
  | none ↦ (m, sent)
  | some a ↦
      (let (a', result) = apns_send o.http o.sign o.now a n in
        (record m { apns = some a' }, result))
]

unfoldable pub send_android : Outside → MultiSender → Notification → MultiSender × SendResult
send_android o m n =
    if is_expo_token n.token
    then (m, expo_send o.http m.expo n)
    else elim m.fcm [ none ↦ (m, sent) | some f ↦ (m, fcm_send o.http o.fcm_token f n) ]

unfoldable pub multi_send : Outside → MultiSender → Notification → MultiSender × SendResult
unfolding send_ios send_android
multi_send o m n =
    if n.platform == lit "ios"
    then send_ios o m n
    else if n.platform == lit "android"
    then send_android o m n
    else (m, failed)
