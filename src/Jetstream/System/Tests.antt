-- ===== src/Jetstream/System/Tests.antt =====
-- A consumer with a token, a message that carries a block, and the workers' steps.
use mathlib.Core.List.{Perm}
use atproto_push_gateway.Base.{
  ◌≡◌, ◌≢◌, ◌==◌, eq_iff, refl, Text, Bytes, true, false, [], ◌∷◌, ◌++◌, Option, none, some, lit,
  arith, lookup, lookup_in, length, digits_onto,
}
use atproto_push_gateway.Store.{Store}
use atproto_push_gateway.Store.Tokens.{is_registered, has_registered_dids}
use atproto_push_gateway.Store.Blocks.{has_block, blocked_of_rkey}
use atproto_push_gateway.Store.History.{empty}
use atproto_push_gateway.Push.{sent}
use atproto_push_gateway.Jetstream.{Outside}
use atproto_push_gateway.Jetstream.Stream.{
  JetstreamEvent, text, second, enqueue, track_cursor, take_event, count_event, read_message,
  take_item,
}
use atproto_push_gateway.Jetstream.Lifecycle
use atproto_push_gateway.Jetstream.Lifecycle.{connect_url}
use atproto_push_gateway.Jetstream.System.{
  waiting, polling, reading, System, new_consumer, get_stats, Steps, none_yet, one_more, start,
  go_on, dial_works, poll, receive,
}
use atproto_push_gateway.Jetstream.System.Refinement.{view, Steps-view}
use atproto_push_gateway.Jetstream.System.Served.{IsServed, Steps-IsServed}
use atproto_push_gateway.Jetstream.System.Drained.{drains}
use atproto_push_gateway.Jetstream.System.Reordered.{
  block_created, block_items, with_items, overtaken_blocked,
}

abbrev outside : Outside
outside = record {
  db = λ _. true;
  send = λ n. sent;
  decoders = record {
    like = λ raw. none;
    repost = λ raw. none;
    post = λ raw. none;
    follow = λ raw. none;
    block = λ raw. some (lit "did:carol");
    verification = λ raw. none;
  };
  resolve_profile = none;
  resolve_text = none;
  max_graphemes = 300;
}

abbrev store : Store
store = record empty { registered_dids = (lit "did:alice", true) ∷ [] }

abbrev decode : Bytes → Option JetstreamEvent
decode raw = some (record {
  did = lit "did:alice";
  time_us = 5;
  kind = lit "commit";
  commit = some (block_created (lit "k") raw);
})

abbrev url : Text
url = lit "wss://j"

program : Unit {0}
unfolding new_consumer has_registered_dids connect_url digits_onto read_message count_event
    take_event enqueue track_cursor take_item ◌==◌ is_registered lookup lookup_in blocked_of_rkey
    get_stats
program = tt

abbrev state : System
state =
    let s = new_consumer store in
    record s { place = reading second; idle = 8; dialled = connect_url url 0 ∷ [] }

connected : Steps decode url (new_consumer store) state
unfolding program
connected =
    one_more
      (one_more (one_more (one_more none_yet (start refl refl)) (go_on second refl refl))
        (dial_works second refl))
      (poll second refl refl)

Steps-view_example : Lifecycle.Steps url (view (new_consumer store)) (view state)
Steps-view_example = Steps-view decode url (new_consumer store) state connected

-- The message has come.
abbrev told : System
told = record state {
  place = polling second;
  reader = read_message decode (text []) state.reader;
  arrived = record { actor_did = lit "did:alice"; commit = block_created (lit "k") [] } ∷ [];
}

told-Steps : Steps decode url (new_consumer store) told
unfolding program
told-Steps = one_more connected (receive second (text []) refl)

one_queued : length told.reader.commit_queue ≡ 1
unfolding program
one_queued = refl

Steps-IsServed_example : IsServed told
Steps-IsServed_example = Steps-IsServed decode url store told told-Steps

begun : told.place ≢ waiting
begun e = ground (arith, e)

drains_example :
    (t : System) × Steps decode url told t
    × (t.reader.commit_queue ≡ [])
    × (t.busy ≡ [])
    × (t.arrived ≡ told.arrived)
    × Perm t.handled (told.taken ++ told.reader.commit_queue)
unfolding program
drains_example = drains decode url outside store told told-Steps begun refl

overtaken_blocked_example :
    let r = with_items state 0 (block_items (lit "did:alice") (lit "k") [] []) in
    ((t : System) × Steps decode url r t
      × (has_block t.consumer.store (lit "did:alice") (lit "did:carol") ≡ false))
    × ((t : System) × Steps decode url r t
        × (has_block t.consumer.store (lit "did:alice") (lit "did:carol") ≡ true))
unfolding program
overtaken_blocked_example =
    overtaken_blocked decode url outside state 0 (lit "did:alice") (lit "k") [] (lit "did:carol") []
      refl someone key refl refl refl refl
  where
    someone : lit "did:carol" ≢ []
    someone = ground (arith, eq_iff (lit "did:carol") [])

    key : lit "k" ≢ []
    key = ground (arith, eq_iff (lit "k") [])
