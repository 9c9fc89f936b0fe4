-- ===== src/Push/Tests.antt =====
-- Runs of the senders at fixed inputs.
use atproto_push_gateway.Base.{
  ◌≡◌, refl, ◌==◌, ◌⊎◌, true, false, none, some, lit, [], lookup, insert, has_prefix,
}
use atproto_push_gateway.Push.{Notification, sent, token_invalid}
use atproto_push_gateway.Push.Fcm.{FcmSender, channel_id, fcm_message, fcm_request, fcm_send}
use atproto_push_gateway.Push.Multi.{
  MultiSender, Outside, is_expo_token, new_multi_sender, send_ios, send_android, multi_send,
}
use atproto_push_gateway.Push.Gone.{IsGoneApns, IsGoneFcm, multi_send-gone}

abbrev sender : MultiSender
sender = record (new_multi_sender []) {
  fcm = some (record { project_id = lit "p"; base_url = lit "https://fcm"; data_only = true });
}

-- FCM knows none of its devices.
abbrev outside : Outside
outside = record {
  http = λ r. some (record { status = 404; reason = lit "UNREGISTERED" });
  sign = λ n. none;
  fcm_token = some (lit "oauth");
  now = 0;
}

abbrev notification : Notification
notification = record {
  token = lit "device";
  platform = lit "android";
  title = lit "t";
  body = [];
  fields = [];
}

program : Unit {0}
unfolding ◌==◌ lookup insert has_prefix new_multi_sender channel_id fcm_message fcm_request fcm_send
    is_expo_token send_ios send_android multi_send
program = tt

gone : (multi_send outside sender notification).1 ≡ token_invalid
unfolding program
gone = refl

-- A native token of a platform that has no sender is passed over.
passed_over : (multi_send outside sender (record notification { platform = lit "ios" })).1 ≡ sent
unfolding program
passed_over = refl

multi_send-gone_example :
    (is_expo_token notification.token ≡ false)
    × (((notification.platform ≡ lit "ios") × IsGoneApns outside.http notification)
        ⊎ ((notification.platform ≡ lit "android")
            × ((f : FcmSender) × (sender.fcm ≡ some f) × IsGoneFcm outside.http f notification)))
multi_send-gone_example = multi_send-gone outside sender notification gone
