-- ===== src/Jetstream/System.antt =====
-- consumer.go: NewConsumer, Run, connect and the eight goroutines of dispatchWorker at once.
pub mod Refinement
pub mod Workers
pub mod Reads
pub mod Served
pub mod Drained
pub mod Reordered
mod Tests
use atproto_push_gateway.Base.{
  ℕ, zero, suc, ◌+◌, ◌≡◌, Text, Bytes, Bool, true, false, List, [], ◌∷◌, ◌++◌, Option, some,
}
use atproto_push_gateway.Store.{Store}
use atproto_push_gateway.Store.Tokens.{has_registered_dids}
use atproto_push_gateway.Jetstream.{Consumer, Outside}
use atproto_push_gateway.Jetstream.Commit.{handle_commit}
use atproto_push_gateway.Jetstream.Stream.{
  JetstreamEvent, DispatchItem, Reader, Message, carried, read_message, take_item, second,
}
use atproto_push_gateway.Jetstream.Lifecycle.{connect_url, doubled}

-- const numWorkers
abbrev pub num_workers : ℕ
num_workers = 8

-- Where the goroutine of Run is: before the first token, at the head of its loop, about to dial, at
-- the select of connect, in ReadMessage, in the pause after a connection, or returned.
pub data Place : Type 0 where
  waiting returned : Place
  looping dialling polling reading pausing : (backoff : ℕ) → Place

-- The channels and fields of Consumer (startCh, stopCh, what the reader writes, what the handlers
-- write), where Run is, the URLs it has dialled, how many workers are at their select, and the
-- items that the others handle. The last three fields are a record of the past: the commits that
-- messages carried, those that workers took, and those whose handling has ended.
pub record System : Type 0 where
  pub place : Place
  pub started : Bool
  pub stopping : Bool
  pub dialled : List Text
  pub reader : Reader
  pub idle : ℕ
  pub busy : List DispatchItem
  pub consumer : Consumer
  pub arrived : List DispatchItem
  pub taken : List DispatchItem
  pub handled : List DispatchItem

abbrev pub new_reader : Reader
new_reader = record {
  bytes_received = 0;
  events_received = 0;
  events_dropped = 0;
  last_cursor = 0;
  commit_queue = [];
}

-- NewConsumer, with the store that it is given.
unfoldable pub new_consumer : Store → System
new_consumer store = record {
  place = waiting;
  started = has_registered_dids store;
  stopping = false;
  dialled = [];
  reader = new_reader;
  idle = 0;
  busy = [];
  consumer = record {
    store = store;
    matched_events = 0;
    pushes_sent = 0;
    push_errors = 0;
    handed = [];
  };
  arrived = [];
  taken = [];
  handled = [];
}

pub record Stats : Type 0 where
  pub events_received : ℕ
  pub bytes_received : ℕ
  pub pushes_sent : ℕ
  pub push_errors : ℕ
  pub matched_events : ℕ
  pub events_dropped : ℕ
  pub last_cursor : ℕ

unfoldable pub get_stats : System → Stats
get_stats s = record {
  events_received = s.reader.events_received;
  bytes_received = s.reader.bytes_received;
  pushes_sent = s.consumer.pushes_sent;
  push_errors = s.consumer.push_errors;
  matched_events = s.consumer.matched_events;
  events_dropped = s.reader.events_dropped;
  last_cursor = s.reader.last_cursor;
}

module _ (decode : Bytes → Option JetstreamEvent) (url : Text) where
  abbrev pub after_dial : System → Place → System
  after_dial s place = record s {
    place = place;
    dialled = connect_url url s.reader.last_cursor ∷ s.dialled;
  }

  -- A step of one of the goroutines, or of a caller: a token is registered or Stop is called
  -- (token_registered, stop); Run goes from place to place; a worker takes the first item of the
  -- channel, ends the handling of an item, or returns; and the store, which the other parts of the
  -- server share, changes (elsewhere).
  pub data Step : System → System → Type 0 where
    token_registered : {s : System} → Step s (record s { started = true })
    stop : {s : System} → Step s (record s { stopping = true })
    start :
        {s : System}
        → s.place ≡ waiting
        → s.started ≡ true
        → Step s (record s { place = looping second; idle = num_workers })
    give_up :
        {s : System}
        → s.place ≡ waiting
        → s.stopping ≡ true
        → Step s (record s { place = returned })
    quit :
        {s : System} (backoff : ℕ)
        → s.place ≡ looping backoff
        → s.stopping ≡ true
        → Step s (record s { place = returned })
    go_on :
        {s : System} (backoff : ℕ)
        → s.place ≡ looping backoff
        → s.stopping ≡ false
        → Step s (record s { place = dialling backoff })
    dial_fails :
        {s : System} (backoff : ℕ)
        → s.place ≡ dialling backoff
        → Step s (after_dial s (pausing backoff))
    dial_works :
        {s : System} (backoff : ℕ)
        → s.place ≡ dialling backoff
        → Step s (after_dial s (polling backoff))
    poll :
        {s : System} (backoff : ℕ)
        → s.place ≡ polling backoff
        → s.stopping ≡ false
        → Step s (record s { place = reading backoff })
    finish :
        {s : System} (backoff : ℕ)
        → s.place ≡ polling backoff
        → s.stopping ≡ true
        → Step s (record s { place = pausing second })
    receive :
        {s : System} (backoff : ℕ) (m : Message)
        → s.place ≡ reading backoff
        → Step s (record s {
          place = polling backoff;
          reader = read_message decode m s.reader;
          arrived = s.arrived ++ carried decode m;
        })
    read_fails :
        {s : System} (backoff : ℕ)
        → s.place ≡ reading backoff
        → Step s (record s { place = pausing backoff })
    wake :
        {s : System} (backoff : ℕ)
        → s.place ≡ pausing backoff
        → Step s (record s { place = looping (doubled backoff) })
    leave :
        {s : System} (backoff : ℕ)
        → s.place ≡ pausing backoff
        → s.stopping ≡ true
        → Step s (record s { place = returned })
    take :
        {s : System} (others : ℕ) (item : DispatchItem)
        → s.idle ≡ suc others
        → (take_item s.reader).1 ≡ some item
        → Step s (record s {
          reader = (take_item s.reader).0;
          idle = others;
          busy = s.busy ++ item ∷ [];
          taken = s.taken ++ item ∷ [];
        })
    done :
        {s : System} (o : Outside) (before after : List DispatchItem) (item : DispatchItem)
        → s.busy ≡ before ++ (item ∷ after)
        → Step s (record s {
          idle = s.idle + 1;
          busy = before ++ after;
          consumer = handle_commit o item.actor_did item.commit s.consumer;
          handled = s.handled ++ item ∷ [];
        })
    worker_quits :
        {s : System} (others : ℕ)
        → s.idle ≡ suc others
        → s.stopping ≡ true
        → Step s (record s { idle = others })
    elsewhere :
        {s : System} (store : Store)
        → Step s (record s { consumer = record s.consumer { store = store } })

  -- Any number of steps.
  pub data Steps : System → System → Type 0 where
    none_yet : {s : System} → Steps s s
    one_more : {s t u : System} → Steps s t → Step t u → Steps s u

  pub and_then : (s t u : System) → Steps s t → Steps t u → Steps s u
  and_then s t _ first none_yet = first
  and_then s t u first (one_more {t = v} more last) = one_more (and_then s t v first more) last
