-- ===== src/Jetstream/System/Reads.antt =====
-- What a message does to the channel of commits and to the counters.
use mathlib.Core.List
use mathlib.Core.List.{
  nil-sublist, append-nil, append_assoc, Sublist, Perm, sublist-append_left, perm_middle,
  perm_append_comm,
}
use atproto_push_gateway.Base.{
  ℕ, ◌+◌, ◌≡◌, ◌≤◌, refl, sym, ap, ◌∙◌, ◌==◌, Bytes, List, [], ◌∷◌, ◌++◌, Option, none, some, lit,
  ltb, length, length-append, arith, Option-cases, Bool-cases, inl, inr,
}
use atproto_push_gateway.Jetstream.Stream.{
  JetstreamEvent, DispatchItem, Reader, queue_capacity, enqueue, track_cursor, take_event, Message,
  item_of, carried, text, binary, count_event, read_message,
}

-- What reading does to the channel: of some items, those for which there is room go to its end, in
-- order, and the others are counted; and how many messages it counts.
pub record Reads (messages : ℕ) (items : List DispatchItem) (r t : Reader) : Type 0 where
  pub kept : List DispatchItem
  pub queued : t.commit_queue ≡ r.commit_queue ++ kept
  pub thinned : Sublist kept items
  pub counted : length kept + t.events_dropped ≡ length items + r.events_dropped
  pub bounded : length r.commit_queue ≤ queue_capacity → length t.commit_queue ≤ queue_capacity
  pub received : t.events_received ≡ r.events_received + messages

Reads-nothing :
    (messages : ℕ) (r t : Reader)
    → t.commit_queue ≡ r.commit_queue
    → t.events_dropped ≡ r.events_dropped
    → t.events_received ≡ r.events_received + messages
    → Reads messages [] r t
Reads-nothing messages r t queue dropped received = record {
  kept = [];
  queued = queue ∙ sym (append-nil r.commit_queue);
  thinned = List.Sublist.refl [];
  counted = omega (arith, dropped);
  bounded = λ h. omega (arith, h, ap length queue);
  received = received;
}

enqueue-Reads : (i : DispatchItem) (r : Reader) → Reads 0 (i ∷ []) r (enqueue i r)
unfolding enqueue
enqueue-Reads i r = elim (Bool-cases (ltb (length r.commit_queue) queue_capacity)) [
  | inl room ↦ rw room (record {
    kept = i ∷ [];
    queued = refl;
    thinned = List.Sublist.refl (i ∷ []);
    counted = omega arith;
    bounded = λ h. ground (arith, room, length-append r.commit_queue (i ∷ []));
    received = omega arith;
  })
  | inr full ↦ rw full (record {
    kept = [];
    queued = sym (append-nil r.commit_queue);
    thinned = nil-sublist (i ∷ []);
    counted = omega arith;
    bounded = λ h. h;
    received = omega arith;
  })
]

track_cursor-Reads : (e : JetstreamEvent) (r : Reader) → Reads 0 [] r (track_cursor e r)
unfolding track_cursor
track_cursor-Reads e r =
    Reads-nothing 0 r (track_cursor e r) (ground arith) (ground arith) (ground arith)

-- Reading goes on from a reader with the same channel and the same count of dropped items.
after_same :
    (n m k : ℕ) (items : List DispatchItem) (r s t : Reader)
    → s.commit_queue ≡ r.commit_queue
    → s.events_dropped ≡ r.events_dropped
    → s.events_received ≡ r.events_received + n
    → n + m ≡ k
    → Reads m items s t
    → Reads k items r t
after_same n m k items r s t queue dropped received sum reads = record {
  kept = reads.kept;
  queued = reads.queued ∙ ap (λ q. q ++ reads.kept) queue;
  thinned = reads.thinned;
  counted = omega (arith, reads.counted, dropped);
  bounded = λ h. reads.bounded (omega (arith, h, ap length queue));
  received = omega (arith, reads.received, received, sum);
}

take_event-Reads : (e : JetstreamEvent) (r : Reader) → Reads 0 (item_of e) r (take_event e r)
unfolding take_event track_cursor
take_event-Reads e r = elim (Bool-cases (e.kind == lit "commit")) [
  | inr other ↦ rw other (track_cursor-Reads e r)
  | inl commit ↦ elim (Option-cases e.commit) [
    | inl bare ↦ rw (commit, bare) (track_cursor-Reads e r)
    | inr (c, there) ↦
        rw (commit, there)
          (after_same 0 0 0 _ r (track_cursor e r) _ (ground arith) (ground arith) (ground arith)
            refl (enqueue-Reads (record { actor_did = e.did; commit = c }) (track_cursor e r)))
  ]
]

module _ (decode : Bytes → Option JetstreamEvent) where
  count_event-Reads :
      (m : Bytes) (r : Reader)
      → Reads 1 (elim (decode m) [ none ↦ [] | some e ↦ item_of e ]) r (count_event decode m r)
  unfolding count_event
  count_event-Reads m r =
      let r' : Reader = record r { events_received = r.events_received + 1 } in
      elim (Option-cases (decode m)) [
        | inl bad ↦ rw (bad, count_event) (Reads-nothing 1 r r' refl refl refl)
        | inr (e, good) ↦
            rw (good, count_event)
              (after_same 1 0 1 (item_of e) r r' (take_event e r') refl refl refl refl
                (take_event-Reads e r'))
      ]

  -- How many messages are counted of one: a compressed one that does not decompress is not.
  pub counted_of : Message → ℕ
  counted_of (text m) = 1
  counted_of (binary m none) = 0
  counted_of (binary m (some d)) = 1

  pub read_message-Reads :
      (m : Message) (r : Reader)
      → Reads (counted_of m) (carried decode m) r (read_message decode m r)
  unfolding read_message counted_of
  read_message-Reads (text m) r =
      let r' : Reader = record r { bytes_received = r.bytes_received + length m } in
      after_same 0 1 1 _ r r' (count_event decode m r') refl refl (omega arith) refl
        (count_event-Reads m r')
  read_message-Reads (binary m none) r =
      Reads-nothing 0 r (record r { bytes_received = r.bytes_received + length m }) refl refl
        (omega arith)
  read_message-Reads (binary m (some d)) r =
      let r' : Reader = record r { bytes_received = r.bytes_received + length m } in
      after_same 0 1 1 _ r r' (count_event decode d r') refl refl (omega arith) refl
        (count_event-Reads d r')

  length-item_of : (e : JetstreamEvent) → length (item_of e) ≤ 1
  length-item_of e = ground arith

  pub length-carried : (m : Message) → length (carried decode m) ≤ counted_of m
  unfolding counted_of
  length-carried (text m) = elim (Option-cases (decode m)) [
    | inl bad ↦ rw (bad, length) (omega arith)
    | inr (e, good) ↦ rw (good, length) (length-item_of e)
  ]
  length-carried (binary m none) = omega arith
  length-carried (binary m (some d)) = elim (Option-cases (decode d)) [
    | inl bad ↦ rw (bad, length) (omega arith)
    | inr (e, good) ↦ rw (good, length) (length-item_of e)
  ]
