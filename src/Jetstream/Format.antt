-- ===== src/Jetstream/Format.antt =====
-- consumer.go: the tables of titles and bodies, and formatNotification.
use atproto_push_gateway.Base.{
  ◌==◌, Text, Bool, not, ◌&&◌, ◌||◌, List, [], ◌∷◌, ◌++◌, Map, none, some, lit, lookup, nat_eq,
  if◌then◌else◌,
}

abbrev pub reason_titles : Map Text
reason_titles =
    (lit "like", lit "New like")
    ∷ (lit "repost", lit "New repost")
    ∷ (lit "reply", lit "New reply")
    ∷ (lit "mention", lit "New mention")
    ∷ (lit "quote", lit "New quote")
    ∷ (lit "follow", lit "New follower")
    ∷ (lit "like-via-repost", lit "New like")
    ∷ (lit "repost-via-repost", lit "New repost")
    ∷ (lit "verified", lit "Verified")
    ∷ (lit "unverified", lit "Verification removed")
    ∷ []

abbrev pub reason_body_templates : Map Text
reason_body_templates =
    (lit "like", lit "%s liked your post")
    ∷ (lit "repost", lit "%s reposted your post")
    ∷ (lit "reply", lit "%s replied to your post")
    ∷ (lit "mention", lit "%s mentioned you")
    ∷ (lit "quote", lit "%s quoted your post")
    ∷ (lit "follow", lit "%s followed you")
    ∷ (lit "like-via-repost", lit "%s liked a post you reposted")
    ∷ (lit "repost-via-repost", lit "%s reposted a post you reposted")
    ∷ (lit "verified", lit "Your account has been verified")
    ∷ (lit "unverified", lit "Your account verification was removed")
    ∷ []

abbrev pub reason_body_templates_with_text : Map Text
reason_body_templates_with_text =
    (lit "reply", lit "%s replied: %s")
    ∷ (lit "quote", lit "%s quoted your post: %s")
    ∷ (lit "mention", lit "%s mentioned you: %s")
    ∷ (lit "like", lit "%s liked your post: %s")
    ∷ (lit "repost", lit "%s reposted your post: %s")
    ∷ (lit "like-via-repost", lit "%s liked a post you reposted: %s")
    ∷ (lit "repost-via-repost", lit "%s reposted a post you reposted: %s")
    ∷ []

unfoldable pub reason_fetches_subject_text : Text → Bool
reason_fetches_subject_text reason =
    reason == lit "like"
    || reason == lit "repost"
    || reason == lit "like-via-repost"
    || reason == lit "repost-via-repost"

unfoldable pub carries_actor_post_text : Text → Bool
carries_actor_post_text reason =
    reason == lit "reply" || reason == lit "quote" || reason == lit "mention"

-- A read of a missing key of a map of strings is "".
unfoldable pub text_at : Text → Map Text → Text
text_at key m = elim (lookup key m) [ none ↦ [] | some v ↦ v ]

-- fmt.Sprintf of a template whose only verbs are %s, as many as there are arguments.
unfoldable pub sprintf : Text → List Text → Text
sprintf [] args = []
sprintf (c ∷ []) args = c ∷ []
sprintf (c ∷ d ∷ t) [] = c ∷ sprintf (d ∷ t) []
sprintf (c ∷ d ∷ t) (a ∷ args) =
    let filled = a ++ sprintf t args in
    let copied = c ∷ sprintf (d ∷ t) (a ∷ args) in
    if nat_eq c b'%' && nat_eq d b's' then filled else copied

-- The name that is shown for the actor.
unfoldable pub actor_name : (display_name handle : Text) → Text
actor_name display_name handle =
    if not (display_name == [])
    then display_name
    else if not (handle == [])
    then handle
    else lit "Someone"

unfoldable pub format_notification : (reason display_name handle post_text : Text) → Text × Text
unfolding text_at sprintf actor_name
format_notification reason display_name handle post_text =
    let found_title = text_at reason reason_titles in
    let title = if found_title == [] then lit "Notification" else found_title in
    let name = actor_name display_name handle in
    let template = text_at reason reason_body_templates in
    let without_text =
      if template == []
      then (title, name)
      else if reason == lit "verified" || reason == lit "unverified"
      then (title, template)
      else (title, sprintf template (name ∷ [])) in
    if not (post_text == [])
    then elim (lookup reason reason_body_templates_with_text) [
      | some with_text ↦ (title, sprintf with_text (name ∷ post_text ∷ []))
      | none ↦ without_text
    ]
    else without_text
