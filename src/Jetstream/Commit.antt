-- ===== src/Jetstream/Commit.antt =====
-- consumer.go: handleCommit and the handlers of the collections.
pub mod Posts
pub mod Verified
pub mod Recipients
use atproto_push_gateway.Base.{
  ◌==◌, Text, Bytes, Bool, not, ◌&&◌, ◌||◌, List, [], ◌∷◌, ◌++◌, Option, none, some, lit, drop,
  split_parts, has_prefix, if◌then◌else◌, Result, ok, err,
}
use atproto_push_gateway.Store.Tokens.{is_registered}
use atproto_push_gateway.Store.Blocks.{add_block, remove_block_by_rkey}
use atproto_push_gateway.Store.Verifications.{add_verification, remove_verification_by_rkey}
use atproto_push_gateway.Jetstream.{
  Consumer, Outside, CommitEvent, SubjectRecord, PostRecord, Embed, Feature,
}
use atproto_push_gateway.Jetstream.PostText.{sanitize_post_text, truncate_post_text}
use atproto_push_gateway.Jetstream.Notify.{Event, send_notification}

-- The authority of an AT URI: what stands between "at://" and the next slash.
unfoldable pub extract_did_from_uri : Text → Text
extract_did_from_uri uri =
    if not (has_prefix uri (lit "at://")) then [] else (split_parts b'/' (drop 5 uri)).0

-- fmt.Sprintf("at://%s/<collection>/%s", actor, rkey)
abbrev pub record_uri_of : (actor collection rkey : Text) → Text
record_uri_of actor collection rkey =
    lit "at://" ++ (actor ++ (lit "/" ++ (collection ++ (lit "/" ++ rkey))))

-- An event about the subject of a like or a repost.
abbrev pub subject_event : (actor to reason record_uri subject_uri : Text) → Event
subject_event actor to reason record_uri subject_uri = record {
  actor_did = actor;
  target_did = to;
  reason = reason;
  record_uri = record_uri;
  subject_uri = subject_uri;
  post_text = [];
}

-- The notification to the reposter through whom the subject was found.
unfoldable pub notify_via :
    Outside
    → (actor target via_reason record_uri subject_uri : Text) → Option Text
    → Consumer
    → Consumer
notify_via o actor target via_reason record_uri subject_uri none c = c
notify_via o actor target via_reason record_uri subject_uri (some via) c =
    let reposter = extract_did_from_uri via in
    if not (reposter == []) && not (reposter == actor) && not (reposter == target)
    then send_notification o (subject_event actor reposter via_reason record_uri subject_uri) c
    else c

-- The notifications of a like or a repost: to the author of the subject, and to the reposter.
unfoldable pub notify_subject :
    Outside → (actor reason via_reason record_uri : Text) → SubjectRecord → Consumer → Consumer
unfolding notify_via
notify_subject o actor reason via_reason record_uri r c =
    let target = extract_did_from_uri r.subject_uri in
    if target == [] || target == actor
    then c
    else notify_via o actor target via_reason record_uri r.subject_uri r.via_uri
        (send_notification o (subject_event actor target reason record_uri r.subject_uri) c)

module _ (o : Outside) (actor rkey : Text) where
  unfoldable pub handle_like : Bytes → Consumer → Consumer
  unfolding notify_subject
  handle_like raw c = elim (o.decoders.like raw) [
    | none ↦ c
    | some like ↦
        notify_subject o actor (lit "like") (lit "like-via-repost")
          (record_uri_of actor (lit "app.bsky.feed.like") rkey) like c
  ]

  unfoldable pub handle_repost : Bytes → Consumer → Consumer
  unfolding notify_subject
  handle_repost raw c = elim (o.decoders.repost raw) [
    | none ↦ c
    | some repost ↦
        notify_subject o actor (lit "repost") (lit "repost-via-repost")
          (record_uri_of actor (lit "app.bsky.feed.repost") rkey) repost c
  ]

  abbrev pub post_uri : Text
  post_uri = record_uri_of actor (lit "app.bsky.feed.post") rkey

  -- A reply or a quote, which names the post that it is about.
  unfoldable pub notify_author : (reason uri post_text : Text) → Consumer → Consumer
  notify_author reason uri post_text c =
      let target = extract_did_from_uri uri in
      if not (target == []) && not (target == actor)
      then send_notification o
          (record {
            actor_did = actor;
            target_did = target;
            reason = reason;
            record_uri = post_uri;
            subject_uri = uri;
            post_text = post_text;
          })
          c
      else c

  -- The quoted record, if the embed is one.
  unfoldable pub quoted_uri : Option Embed → Option Text
  quoted_uri none = none
  quoted_uri (some embed) =
      if embed.embed_type == lit "app.bsky.embed.record" then embed.record_uri else none

  unfoldable pub notify_mention : (post_text : Text) → Feature → Consumer → Consumer
  notify_mention post_text f c =
      if f.feature_type == lit "app.bsky.richtext.facet#mention"
        && not (f.did == [])
        && not (f.did == actor)
      then send_notification o
          (record {
            actor_did = actor;
            target_did = f.did;
            reason = lit "mention";
            record_uri = post_uri;
            subject_uri = [];
            post_text = post_text;
          })
          c
      else c

  unfoldable pub notify_features : (post_text : Text) → List Feature → Consumer → Consumer
  notify_features post_text [] c = c
  notify_features post_text (f ∷ fs) c = notify_features post_text fs (notify_mention post_text f c)

  unfoldable pub notify_facets : (post_text : Text) → List (List Feature) → Consumer → Consumer
  notify_facets post_text [] c = c
  notify_facets post_text (fs ∷ facets) c =
      notify_facets post_text facets (notify_features post_text fs c)

  -- The reply or the quote, if there is one.
  unfoldable pub notify_if :
      (reason : Text) → Option Text → (post_text : Text) → Consumer → Consumer
  notify_if reason none post_text c = c
  notify_if reason (some uri) post_text c = notify_author reason uri post_text c

  unfoldable pub handle_post : Bytes → Consumer → Consumer
  unfolding notify_if
  handle_post raw c = elim (o.decoders.post raw) [
    | none ↦ c
    | some post ↦
        (let post_text = truncate_post_text (sanitize_post_text post.text) o.max_graphemes in
          notify_facets post_text post.facets (
            notify_if (lit "quote") (quoted_uri post.embed) post_text
              (notify_if (lit "reply") post.reply_parent post_text c)))
  ]

  -- An event that is about no post.
  abbrev pub account_event : (to reason collection : Text) → Event
  account_event to reason collection = record {
    actor_did = actor;
    target_did = to;
    reason = reason;
    record_uri = record_uri_of actor collection rkey;
    subject_uri = [];
    post_text = [];
  }

  unfoldable pub handle_follow : Bytes → Consumer → Consumer
  handle_follow raw c = elim (o.decoders.follow raw) [
    | none ↦ c
    | some subject ↦
        if subject == [] || subject == actor
        then c
        else send_notification o
            (account_event subject (lit "follow") (lit "app.bsky.graph.follow")) c
  ]

  unfoldable pub handle_block_create : Bytes → Consumer → Consumer
  handle_block_create raw c = elim (o.decoders.block raw) [
    | none ↦ c
    | some subject ↦
        if subject == []
        then c
        else if is_registered c.store actor || is_registered c.store subject
        then record c { store = (add_block o.db actor subject rkey c.store).0 }
        else c
  ]

  unfoldable pub handle_block_delete : Consumer → Consumer
  handle_block_delete c =
      if rkey == []
      then c
      else record c { store = (remove_block_by_rkey o.db actor rkey c.store).0 }

  unfoldable pub handle_verification_create : Bytes → Consumer → Consumer
  handle_verification_create raw c = elim (o.decoders.verification raw) [
    | none ↦ c
    | some subject ↦
        if subject == []
        then c
        else (let c' = record c { store = (add_verification o.db actor subject rkey c.store).0 } in
            if not (is_registered c'.store subject)
            then c'
            else send_notification o
                (account_event subject (lit "verified") (lit "app.bsky.graph.verification")) c')
  ]

  unfoldable pub handle_verification_delete : Consumer → Consumer
  handle_verification_delete c =
      if rkey == []
      then c
      else (let (s', removed) = remove_verification_by_rkey o.db actor rkey c.store in
          let c' = record c { store = s' } in
          elim removed [
            | err _ ↦ c'
            | ok subject ↦
                if subject == []
                then c'
                else if not (is_registered s' subject)
                then c'
                else send_notification o
                    (account_event subject (lit "unverified") (lit "app.bsky.graph.verification"))
                    c'
          ])

-- The operations of a commit that are looked at, by the collection.
unfoldable pub on_create : CommitEvent → (Consumer → Consumer) → Consumer → Consumer
on_create commit handle c = if commit.operation == lit "create" then handle c else c

unfoldable pub on_create_or_delete :
    CommitEvent → (create delete : Consumer → Consumer) → Consumer → Consumer
on_create_or_delete commit create delete c =
    if commit.operation == lit "create"
    then create c
    else if commit.operation == lit "delete"
    then delete c
    else c

unfoldable pub handle_commit : Outside → (actor : Text) → CommitEvent → Consumer → Consumer
handle_commit o actor commit c =
    let rkey = commit.rkey in
    let raw = commit.raw in
    if commit.collection == lit "app.bsky.feed.like"
    then on_create commit (handle_like o actor rkey raw) c
    else if commit.collection == lit "app.bsky.feed.repost"
    then on_create commit (handle_repost o actor rkey raw) c
    else if commit.collection == lit "app.bsky.feed.post"
    then on_create commit (handle_post o actor rkey raw) c
    else if commit.collection == lit "app.bsky.graph.follow"
    then on_create commit (handle_follow o actor rkey raw) c
    else if commit.collection == lit "app.bsky.graph.block"
    then on_create_or_delete commit (handle_block_create o actor rkey raw)
        (handle_block_delete o actor rkey) c
    else if commit.collection == lit "app.bsky.graph.verification"
    then on_create_or_delete commit (handle_verification_create o actor rkey raw)
        (handle_verification_delete o actor rkey) c
    else c
