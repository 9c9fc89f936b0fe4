-- ===== src/Jetstream/System/Served.antt =====
-- What becomes of the commits that messages carry.
use mathlib.Core.List
use mathlib.Core.List.{
  nil-sublist, append-nil, append_assoc, Sublist, Perm, sublist-append_left, perm_middle,
  perm_append_comm,
}
use atproto_push_gateway.Base.{
  ◌+◌, ◌≡◌, ◌≤◌, refl, sym, ap, ◌∙◌, Text, Bytes, List, [], ◌∷◌, ◌++◌, Option, some, length,
  length-append, arith,
}
use mathlib.Core.Path.{subst}
use atproto_push_gateway.Store.{Store}
use atproto_push_gateway.Jetstream.{Consumer, Outside}
use atproto_push_gateway.Jetstream.Commit.{handle_commit}
use atproto_push_gateway.Jetstream.Commit.Recipients.{handle_commit-Notifies}
use atproto_push_gateway.Jetstream.Stream.{
  JetstreamEvent, DispatchItem, Reader, queue_capacity, Message, carried, read_message, take_item,
}
use atproto_push_gateway.Jetstream.System.Reads.{read_message-Reads, length-carried}
use atproto_push_gateway.Jetstream.System.Workers.{Steps-IsStaffed, most_of}
use atproto_push_gateway.Jetstream.System.{
  System, new_consumer, get_stats, num_workers, Step, Steps, none_yet, one_more, token_registered,
  stop, start, give_up, quit, go_on, dial_fails, dial_works, poll, finish, receive, read_fails,
  wake, leave, take, done, worker_quits, elsewhere,
}

-- The commits that arrived are accounted for.
pub record IsServed (s : System) : Type 0 where
  pub in_order : Sublist (s.taken ++ s.reader.commit_queue) s.arrived
  pub dropped_or_taken :
      length s.taken + length s.reader.commit_queue + (get_stats s).events_dropped
      ≡ length s.arrived
  pub at_workers : Perm (s.handled ++ s.busy) s.taken
  pub capacity : length s.reader.commit_queue ≤ queue_capacity
  pub workers : s.idle + length s.busy ≤ num_workers
  pub pushed : (get_stats s).pushes_sent + (get_stats s).push_errors ≡ length s.consumer.handed
  pub events : length s.arrived ≤ (get_stats s).events_received

-- What is kept of the fields that the steps of the reader and of the workers change.
record IsTally (reader : Reader) (busy : List DispatchItem) (consumer : Consumer)
    (arrived taken handled : List DispatchItem) : Type 0 where
  in_order : Sublist (taken ++ reader.commit_queue) arrived
  dropped_or_taken :
      length taken + length reader.commit_queue + reader.events_dropped ≡ length arrived
  at_workers : Perm (handled ++ busy) taken
  capacity : length reader.commit_queue ≤ queue_capacity
  pushed : consumer.pushes_sent + consumer.push_errors ≡ length consumer.handed
  events : length arrived ≤ reader.events_received

abbrev Tally : System → Type 0
Tally s = IsTally s.reader s.busy s.consumer s.arrived s.taken s.handled

take_item_lem :
    (r : Reader) (item : DispatchItem)
    → (take_item r).1 ≡ some item
    → (r.commit_queue ≡ item ∷ (take_item r).0.commit_queue)
      × ((take_item r).0.events_dropped ≡ r.events_dropped)
      × ((take_item r).0.events_received ≡ r.events_received)
unfolding take_item
take_item_lem r item first = ground (arith, first)

module _ (decode : Bytes → Option JetstreamEvent) (url : Text) where
  receive-Tally :
      (s : System) (m : Message)
      → Tally s
      → Tally (record s {
        reader = read_message decode m s.reader;
        arrived = s.arrived ++ carried decode m;
      })
  receive-Tally s m h =
      let reads = read_message-Reads decode m s.reader in
      let queue = s.reader.commit_queue in
      let items = carried decode m in
      record {
        in_order =
            subst (λ q. Sublist q (s.arrived ++ items))
              (append_assoc s.taken queue reads.kept ∙ sym (ap (λ q. s.taken ++ q) reads.queued))
              (List.Sublist.append h.in_order reads.thinned);
        dropped_or_taken = omega (
          arith,
          h.dropped_or_taken,
          reads.counted,
          ap length reads.queued,
          length-append queue reads.kept,
          length-append s.arrived items,
        );
        at_workers = h.at_workers;
        capacity = reads.bounded h.capacity;
        pushed = h.pushed;
        events = omega (
          arith,
          h.events,
          reads.received,
          length-carried decode m,
          length-append s.arrived items,
        );
      }

  take-Tally :
      (s : System) (item : DispatchItem)
      → (take_item s.reader).1 ≡ some item
      → Tally s
      → Tally (record s {
        reader = (take_item s.reader).0;
        busy = s.busy ++ item ∷ [];
        taken = s.taken ++ item ∷ [];
      })
  take-Tally s item first h =
      let (queue, dropped, received) = take_item_lem s.reader item first in
      record {
        in_order =
            subst (λ q. Sublist q s.arrived)
              (ap (λ q. s.taken ++ q) queue
                ∙ sym (append_assoc s.taken (item ∷ []) (take_item s.reader).0.commit_queue))
              h.in_order;
        dropped_or_taken = omega (
          arith,
          h.dropped_or_taken,
          dropped,
          ap length queue,
          length-append s.taken (item ∷ []),
        );
        at_workers =
            subst (λ l. Perm l (s.taken ++ item ∷ [])) (append_assoc s.handled s.busy (item ∷ []))
              (List.Perm.append_right (item ∷ []) h.at_workers);
        capacity = omega (arith, h.capacity, ap length queue);
        pushed = h.pushed;
        events = omega (arith, h.events, received);
      }

  done-Tally :
      (s : System) (o : Outside) (before after : List DispatchItem) (item : DispatchItem)
      → s.busy ≡ before ++ (item ∷ after)
      → Tally s
      → Tally (record s {
        busy = before ++ after;
        consumer = handle_commit o item.actor_did item.commit s.consumer;
        handled = s.handled ++ item ∷ [];
      })
  done-Tally s o before after item at h =
      let (new, appended, permitted, counted) =
        handle_commit-Notifies o item.actor_did item.commit s.consumer in
      record {
        in_order = h.in_order;
        dropped_or_taken = h.dropped_or_taken;
        at_workers =
            subst (λ l. Perm l s.taken) (sym (append_assoc s.handled (item ∷ []) (before ++ after)))
              (List.Perm.trans
                (List.Perm.append_left s.handled (List.Perm.symm (perm_middle before after)))
                (subst (λ l. Perm (s.handled ++ l) s.taken) at h.at_workers));
        capacity = h.capacity;
        pushed =
            omega
              (arith, h.pushed, counted, ap length appended, length-append s.consumer.handed new);
        events = h.events;
      }

  step-Tally : (s t : System) → Step decode url s t → Tally s → Tally t
  step-Tally s _ token_registered h = h
  step-Tally s _ stop h = h
  step-Tally s _ (start at on) h = h
  step-Tally s _ (give_up at stopping) h = h
  step-Tally s _ (quit b at stopping) h = h
  step-Tally s _ (go_on b at running) h = h
  step-Tally s _ (dial_fails b at) h = h
  step-Tally s _ (dial_works b at) h = h
  step-Tally s _ (poll b at running) h = h
  step-Tally s _ (finish b at stopping) h = h
  step-Tally s _ (receive b m at) h = receive-Tally s m h
  step-Tally s _ (read_fails b at) h = h
  step-Tally s _ (wake b at) h = h
  step-Tally s _ (leave b at stopping) h = h
  step-Tally s _ (take others item idle first) h = take-Tally s item first h
  step-Tally s _ (done o before after item at) h = done-Tally s o before after item at h
  step-Tally s _ (worker_quits others idle stopping) h = h
  step-Tally s _ (elsewhere store) h = record {
    in_order = h.in_order;
    dropped_or_taken = h.dropped_or_taken;
    at_workers = h.at_workers;
    capacity = h.capacity;
    pushed = h.pushed;
    events = h.events;
  }

  Steps-Tally : (s t : System) → Steps decode url s t → Tally s → Tally t
  Steps-Tally s _ none_yet h = h
  Steps-Tally s t (one_more {t = v} before last) h = step-Tally v t last (Steps-Tally s v before h)

  new_consumer-Tally : (store : Store) → Tally (new_consumer store)
  unfolding new_consumer
  new_consumer-Tally store = record {
    in_order = List.Sublist.refl [];
    dropped_or_taken = refl;
    at_workers = List.Perm.refl [];
    capacity = omega arith;
    pushed = refl;
    events = omega arith;
  }

  -- In every state that a consumer reaches, whatever the messages, the answers of the database and
  -- of the senders and the order of the goroutines' steps: the commits that workers took, and after
  -- them those of the channel, are the commits that arrived, in their order, but for some, whose
  -- number is the count of dropped events; the commits taken are those whose handling has ended
  -- and those at busy workers; the channel holds at most 1024, and the workers are at most 8; and
  -- the stats count each notification handed to the sender once, as sent or as an error, and no
  -- more commits than messages.
  pub Steps-IsServed :
      (store : Store) (s : System) → Steps decode url (new_consumer store) s → IsServed s
  unfolding get_stats new_consumer
  Steps-IsServed store s steps =
      let h = Steps-Tally (new_consumer store) s steps (new_consumer-Tally store) in
      let staffed = Steps-IsStaffed decode url (new_consumer store) s steps refl in
      record {
        in_order = h.in_order;
        dropped_or_taken = h.dropped_or_taken;
        at_workers = h.at_workers;
        capacity = h.capacity;
        workers = most_of s.place s.stopping (s.idle + length s.busy) staffed;
        pushed = h.pushed;
        events = h.events;
      }
