-- ===== src/Push/Fcm.antt =====
-- fcm.go: FCMSender. The OAuth2 token source is an argument, none if it fails.
use atproto_push_gateway.Base.{
  ◌==◌, Text, Bytes, Bool, not, false, ◌||◌, [], ◌∷◌, ◌++◌, Option, none, some, lit, nat_eq,
  if◌then◌else◌, lookup, insert,
}
use atproto_push_gateway.Push.{
  Notification, SendResult, sent, token_invalid, failed, FcmMessage, fcm, HttpRequest, Http,
}

pub record FcmSender : Type 0 where
  pub project_id : Text
  pub base_url : Text
  pub data_only : Bool

-- NewFCMSenderFromBytes. `project_id` is json.Unmarshal of the account, none if it fails, and
-- `has_credentials` whether google.CredentialsFromJSON succeeds.
unfoldable pub new_fcm_sender_from_bytes :
    (project_id : Bytes → Option Text) → (has_credentials : Bytes → Bool) → Bytes → Option FcmSender
new_fcm_sender_from_bytes project_id has_credentials account = elim (project_id account) [
  | none ↦ none
  | some id ↦
      if id == []
      then none
      else if not (has_credentials account)
      then none
      else some (record {
        project_id = id;
        base_url = lit "https://fcm.googleapis.com";
        data_only = false;
      })
]

unfoldable pub set_data_only : Bool → FcmSender → FcmSender
set_data_only enabled f = record f { data_only = enabled }

-- n.Data["reason"], or "default" if that is empty or missing.
unfoldable pub channel_id : Notification → Text
channel_id n = elim (lookup (lit "reason") n.fields) [
  | none ↦ lit "default"
  | some reason ↦ if reason == [] then lit "default" else reason
]

unfoldable pub fcm_message : FcmSender → Notification → FcmMessage
unfolding channel_id
fcm_message f n =
    if f.data_only
    then record {
      token = n.token;
      notification = none;
      fields =
          insert (lit "channelId") (channel_id n)
            (insert (lit "body") n.body (insert (lit "title") n.title n.fields));
      priority = lit "high";
      android_channel = none;
    }
    else record {
      token = n.token;
      notification = some (record { title = n.title; body = n.body });
      fields = n.fields;
      priority = lit "high";
      android_channel = some (channel_id n);
    }

unfoldable pub fcm_request : FcmSender → (access_token : Text) → Notification → HttpRequest
unfolding fcm_message
fcm_request f access_token n = record {
  url = f.base_url ++ (lit "/v1/projects/" ++ (f.project_id ++ lit "/messages:send"));
  headers =
      (lit "Authorization", lit "Bearer " ++ access_token)
      ∷ (lit "Content-Type", lit "application/json")
      ∷ [];
  payload = fcm (fcm_message f n);
}

unfoldable pub fcm_send : Http → Option Text → FcmSender → Notification → SendResult
unfolding fcm_request
fcm_send http none f n = failed
fcm_send http (some access_token) f n = elim (http (fcm_request f access_token n)) [
  | none ↦ failed
  | some response ↦
      if nat_eq response.status 200
      then sent
      else if response.reason == lit "UNREGISTERED" || response.reason == lit "NOT_FOUND"
      then token_invalid
      else failed
]
