-- ===== src/Push/Expo.antt =====
-- push.go: ExpoPushSender.
use atproto_push_gateway.Base.{
  ◌==◌, Text, true, not, [], ◌∷◌, ◌++◌, none, some, lit, nat_eq, if◌then◌else◌, Map,
}
use atproto_push_gateway.Push.{Notification, SendResult, sent, failed, expo, HttpRequest, Http}

pub record ExpoPushSender : Type 0 where
  pub access_token : Text
  pub base_url : Text

unfoldable pub expo_request : ExpoPushSender → Notification → HttpRequest
expo_request e n =
    let content_type : Map Text = (lit "Content-Type", lit "application/json") ∷ [] in
    record {
      url = e.base_url ++ lit "/--/api/v2/push/send";
      headers =
          if not (e.access_token == [])
          then content_type ++ (lit "Authorization", lit "Bearer " ++ e.access_token) ∷ []
          else content_type;
      payload = expo (record {
        to = n.token;
        title = n.title;
        body = n.body;
        fields = n.fields;
        sound = lit "default";
        mutable_content = true;
      });
    }

unfoldable pub expo_send : Http → ExpoPushSender → Notification → SendResult
expo_send http e n = elim (http (expo_request e n)) [
  | none ↦ failed
  | some response ↦ if nat_eq response.status 200 then sent else failed
]
