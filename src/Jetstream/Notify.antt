-- ===== src/Jetstream/Notify.antt =====
-- consumer.go: sendNotification.
pub mod Permitted
pub mod Complete
use atproto_push_gateway.Base.{
  ℕ, ◌+◌, ◌==◌, Text, Bool, not, ◌&&◌, List, [], ◌∷◌, ◌++◌, Map, Option, none, some, lit,
  if◌then◌else◌, Result, ok, err,
}
use atproto_push_gateway.Store.{PushToken}
use atproto_push_gateway.Store.Tokens.{is_registered, get_tokens_for_did, unregister_token}
use atproto_push_gateway.Store.Blocks.{is_blocked}
use atproto_push_gateway.Push.{Notification, SendResult, sent, token_invalid, failed}
use atproto_push_gateway.Jetstream.{Consumer, Outside}
use atproto_push_gateway.Jetstream.PostText.{sanitize_post_text, truncate_post_text}
use atproto_push_gateway.Jetstream.Format.{
  reason_fetches_subject_text, carries_actor_post_text, format_notification,
}

-- What sendNotification is asked to tell.
pub record Event : Type 0 where
  pub actor_did : Text
  pub target_did : Text
  pub reason : Text
  pub record_uri : Text
  pub subject_uri : Text
  pub post_text : Text

-- The display name and the handle of the actor, "" and "" without a resolver.
unfoldable pub profile_of : Outside → Text → Text × Text
profile_of o did = elim o.resolve_profile [ none ↦ ([], []) | some resolve ↦ resolve did ]

-- The post text, fetched if the event carries none and its reason warrants it.
unfoldable pub post_text_of : Outside → Event → Text
post_text_of o e = elim o.resolve_text [
  | none ↦ e.post_text
  | some resolve ↦
      if e.post_text == [] && not (e.subject_uri == []) && reason_fetches_subject_text e.reason
      then truncate_post_text (sanitize_post_text (resolve e.subject_uri)) o.max_graphemes
      else e.post_text
]

-- A field that is set only under a condition.
abbrev pub field_if : Bool → Text → Text → Map Text
field_if b key value = if b then (key, value) ∷ [] else []

unfoldable pub notification_fields : Event → (display_name handle post_text : Text) → Map Text
notification_fields e display_name handle post_text =
    (lit "recipientDid", e.target_did)
    ∷ (lit "actorDid", e.actor_did)
    ∷ (lit "reason", e.reason)
    ∷ (lit "uri", e.record_uri)
    ∷ (lit "actorDisplayName", display_name)
    ∷ (lit "actorHandle", handle)
    ∷ (field_if (not (e.subject_uri == [])) (lit "subject") e.subject_uri
        ++ (field_if (not (post_text == [])) (lit "reasonSubject") post_text
            ++ field_if (not (post_text == []) && carries_actor_post_text e.reason) (lit "bodyText")
                post_text))

unfoldable pub notification_for : Outside → Event → PushToken → Notification
unfolding profile_of post_text_of notification_fields
notification_for o e t =
    let (display_name, handle) = profile_of o e.actor_did in
    let post_text = post_text_of o e in
    let (title, body) = format_notification e.reason display_name handle post_text in
    record {
      token = t.push_token;
      platform = t.platform;
      title = title;
      body = body;
      fields = notification_fields e display_name handle post_text;
    }

-- What follows the answer of the sender; the error of UnregisterToken is only logged.
unfoldable pub after_send : Outside → PushToken → SendResult → Consumer → Consumer
after_send o t sent c = record c { pushes_sent = c.pushes_sent + 1 }
after_send o t token_invalid c = record c {
  push_errors = c.push_errors + 1;
  store = (unregister_token o.db t.actor_did t.platform t.push_token t.app_id c.store).0;
}
after_send o t failed c = record c { push_errors = c.push_errors + 1 }

-- The loop over the tokens.
unfoldable pub send_each : Outside → Event → List PushToken → Consumer → Consumer
unfolding after_send
send_each o e [] c = c
send_each o e (t ∷ tokens) c =
    let n = notification_for o e t in
    send_each o e tokens (after_send o t (o.send n) (record c { handed = c.handed ++ n ∷ [] }))

unfoldable pub send_notification : Outside → Event → Consumer → Consumer
send_notification o e c =
    if not (is_registered c.store e.target_did)
    then c
    else if is_blocked c.store e.actor_did e.target_did
    then c
    else elim (get_tokens_for_did o.db c.store e.target_did) [
      | err _ ↦ c
      | ok tokens ↦ send_each o e tokens (record c { matched_events = c.matched_events + 1 })
    ]
