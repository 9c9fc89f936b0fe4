-- ===== src/Jetstream/Stream.antt =====
-- consumer.go: the reading loop of connect, and the channel of commits.
use atproto_push_gateway.Base.{
  ℕ, ◌+◌, ◌*◌, ◌==◌, Text, Bytes, not, List, [], ◌∷◌, ◌++◌, Option, none, some, lit, length, ltb,
  if◌then◌else◌,
}
use atproto_push_gateway.Jetstream.{CommitEvent}

-- What json.Unmarshal makes of a message. `time_us` counts the time stamps that are above 0; any
-- other is 0.
pub record JetstreamEvent : Type 0 where
  pub did : Text
  pub time_us : ℕ
  pub kind : Text
  pub commit : Option CommitEvent

pub record DispatchItem : Type 0 where
  pub actor_did : Text
  pub commit : CommitEvent

-- The counters of Consumer that the reader writes, and the channel of commits.
pub record Reader : Type 0 where
  pub bytes_received : ℕ
  pub events_received : ℕ
  pub events_dropped : ℕ
  pub last_cursor : ℕ
  pub commit_queue : List DispatchItem

abbrev pub queue_capacity : ℕ
queue_capacity = 1024

-- The send on the channel that does not block.
unfoldable pub enqueue : DispatchItem → Reader → Reader
enqueue item r =
    if ltb (length r.commit_queue) queue_capacity
    then record r { commit_queue = r.commit_queue ++ item ∷ [] }
    else record r { events_dropped = r.events_dropped + 1 }

unfoldable pub track_cursor : JetstreamEvent → Reader → Reader
track_cursor e r = if ltb 0 e.time_us then record r { last_cursor = e.time_us } else r

unfoldable pub take_event : JetstreamEvent → Reader → Reader
unfolding enqueue track_cursor
take_event e r =
    let r' = track_cursor e r in
    if not (e.kind == lit "commit") then r' else elim e.commit [
      | none ↦ r'
      | some commit ↦ enqueue (record { actor_did = e.did; commit = commit }) r'
    ]

-- A message of the connection, with what the zstd decoder (for a binary one) makes of it; the JSON
-- decoder is an argument.
pub data Message : Type 0 where
  text : Bytes → Message
  binary : (compressed : Bytes) → (decompressed : Option Bytes) → Message

unfoldable pub count_event : (Bytes → Option JetstreamEvent) → Bytes → Reader → Reader
unfolding take_event
count_event decode message r =
    let r' = record r { events_received = r.events_received + 1 } in
    elim (decode message) [ none ↦ r' | some e ↦ take_event e r' ]

-- The commits that a message carries, as items of the channel: at most one.
abbrev pub item_of : JetstreamEvent → List DispatchItem
item_of e = if not (e.kind == lit "commit") then [] else elim e.commit [
  | none ↦ []
  | some commit ↦ record { actor_did = e.did; commit = commit } ∷ []
]

abbrev pub carried : (Bytes → Option JetstreamEvent) → Message → List DispatchItem
carried decode (text m) = elim (decode m) [ none ↦ [] | some e ↦ item_of e ]
carried decode (binary m none) = []
carried decode (binary m (some d)) = elim (decode d) [ none ↦ [] | some e ↦ item_of e ]

-- One round of the loop, from the message that was read.
unfoldable pub read_message : (Bytes → Option JetstreamEvent) → Message → Reader → Reader
unfolding count_event
read_message decode (text m) r =
    count_event decode m (record r { bytes_received = r.bytes_received + length m })
read_message decode (binary m none) r = record r { bytes_received = r.bytes_received + length m }
read_message decode (binary m (some d)) r =
    count_event decode d (record r { bytes_received = r.bytes_received + length m })

-- A worker takes the first item of the channel, if there is one.
unfoldable pub take_item : Reader → Reader × Option DispatchItem
take_item r = elim r.commit_queue [
  | [] ↦ (r, none)
  | item ∷ items ↦ (record r { commit_queue = items }, some item)
]

-- Durations in milliseconds.
abbrev pub second : ℕ
second = 1000

abbrev pub max_backoff : ℕ
max_backoff = 60 * second
