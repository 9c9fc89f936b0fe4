-- ===== src/Jetstream/Tests.antt =====
-- Runs of the consumer at fixed inputs.
use mathlib.Core.List.{Perm}
use atproto_push_gateway.Base.{
  List, ◌≡◌, ◌≤◌, refl, ◌==◌, true, [], ◌∷◌, ◌++◌, none, some, lit, arith, length, map, trim_space,
  is_space, lookup, lookup_in, has_prefix, split_parts,
}
use atproto_push_gateway.Store.Rows.{read_rows, precedes, insert_by, order_by}
use atproto_push_gateway.Store.Tokens.{is_registered, get_tokens_for_did}
use atproto_push_gateway.Store.Blocks.{has_block, is_blocked}
use atproto_push_gateway.Store.History.{empty}
use atproto_push_gateway.Push.{Notification, sent}
use atproto_push_gateway.Jetstream.{Consumer, Outside, CommitEvent, SubjectRecord}
use atproto_push_gateway.Jetstream.PostText.{
  collapse, sanitize_post_text, cut_at, ellipsis, truncate_post_text,
}
use atproto_push_gateway.Jetstream.PostText.OneLine.{truncate_post_text_lem}
use atproto_push_gateway.Jetstream.Format.{sprintf, format_notification, text_at, actor_name}
use atproto_push_gateway.Jetstream.Notify.{
  Event, notification_for, post_text_of, profile_of, after_send, send_each, send_notification,
}
use atproto_push_gateway.Jetstream.Notify.Complete.{address, device, send_notification_tells}
use atproto_push_gateway.Jetstream.Commit.{
  extract_did_from_uri, notify_via, notify_subject, handle_like, on_create, handle_commit,
}
use atproto_push_gateway.Jetstream.Commit.Recipients.{Notifies, handle_commit-Notifies}

abbrev alice_like : SubjectRecord
alice_like = record { subject_uri = lit "at://did:alice/app.bsky.feed.post/1"; via_uri = none }

abbrev outside : Outside
outside = record {
  db = λ _. true;
  send = λ n. sent;
  decoders = record {
    like = λ raw. some alice_like;
    repost = λ raw. none;
    post = λ raw. none;
    follow = λ raw. none;
    block = λ raw. none;
    verification = λ raw. none;
  };
  resolve_profile = none;
  resolve_text = none;
  max_graphemes = 300;
}

abbrev consumer : Consumer
consumer = record {
  store = record empty {
    push_tokens =
        record {
          actor_did = lit "did:alice";
          platform = lit "ios";
          push_token = lit "t";
          app_id = lit "app";
        }
        ∷ [];
    registered_dids = (lit "did:alice", true) ∷ [];
  };
  matched_events = 0;
  pushes_sent = 0;
  push_errors = 0;
  handed = [];
}

abbrev like : CommitEvent
like = record {
  rev = lit "r";
  operation = lit "create";
  collection = lit "app.bsky.feed.like";
  rkey = lit "rk";
  raw = [];
}

program : Unit {0}
unfolding handle_commit handle_like on_create notify_subject notify_via extract_did_from_uri
    send_notification send_each after_send notification_for post_text_of profile_of
    format_notification text_at sprintf actor_name is_registered is_blocked has_block
    get_tokens_for_did read_rows order_by insert_by precedes lookup lookup_in has_prefix split_parts
    sanitize_post_text collapse truncate_post_text cut_at trim_space is_space ◌==◌
program = tt

one_push : (handle_commit outside (lit "did:bob") like consumer).pushes_sent ≡ 1
unfolding program
one_push = refl

formatted :
    format_notification (lit "reply") [] (lit "bob.test") (lit "hi")
    ≡ (lit "New reply", lit "bob.test replied: hi")
unfolding program
formatted = refl

one_line : sanitize_post_text (lit " a" ++ 10 ∷ 13 ∷ 9 ∷ lit "b ") ≡ lit "a b"
unfolding program
one_line = refl

handle_commit-Notifies_example :
    Notifies (lit "did:bob") consumer (handle_commit outside (lit "did:bob") like consumer)
handle_commit-Notifies_example = handle_commit-Notifies outside (lit "did:bob") like consumer

abbrev event : Event
event = record {
  actor_did = lit "did:bob";
  target_did = lit "did:alice";
  reason = lit "follow";
  record_uri = lit "at://did:bob/app.bsky.graph.follow/1";
  subject_uri = [];
  post_text = [];
}

send_notification_tells_example :
    (new : List Notification) × ((send_notification outside event consumer).handed ≡ new)
    × Perm (map address new) (map device consumer.store.push_tokens)
unfolding program
send_notification_tells_example =
    send_notification_tells outside event consumer refl refl refl (λ n. refl)

truncate_post_text_lem_example :
    (truncate_post_text (lit "abc") 2 ≡ lit "ab" ++ ellipsis ∷ [])
    × (length (truncate_post_text (lit "abc") 2) ≤ 3)
truncate_post_text_lem_example = truncate_post_text_lem (lit "abc") 2 (omega arith)
