-- ===== src/Jetstream/System/Drained.antt =====
-- The workers empty the channel.
use mathlib.Core.List.{append-nil, append_assoc, Perm}
use mathlib.Core.Path.{subst}
use atproto_push_gateway.Base.{
  ℕ, suc, ◌+◌, ◌≡◌, ◌≢◌, refl, sym, ap, ◌∙◌, Text, Bytes, Bool, false, List, [], ◌∷◌, ◌++◌, Option,
  some, length, arith,
}
use atproto_push_gateway.Store.{Store}
use atproto_push_gateway.Jetstream.{Outside}
use atproto_push_gateway.Jetstream.Commit.{handle_commit}
use atproto_push_gateway.Jetstream.Stream.{JetstreamEvent, DispatchItem, Reader, take_item}
use atproto_push_gateway.Jetstream.System.Served.{Steps-IsServed}
use atproto_push_gateway.Jetstream.System.Workers.{IsStaff, Steps-IsStaffed}
use atproto_push_gateway.Jetstream.System.{
  Place, waiting, returned, looping, dialling, polling, reading, pausing, System, new_consumer,
  num_workers, Steps, none_yet, one_more, and_then, take, done,
}

module _ (decode : Bytes → Option JetstreamEvent) (url : Text) (o : Outside) where
  -- What workers can do alone, from a state to one where none of them is busy.
  record Clears (s t : System) : Type 0 where
    steps : Steps decode url s t
    clear : t.busy ≡ []
    idle : t.idle ≡ s.idle + length s.busy
    arrived : t.arrived ≡ s.arrived
    queue : t.reader.commit_queue ≡ s.reader.commit_queue
    taken : t.taken ≡ s.taken

  after_done : (s : System) (item : DispatchItem) (after : List DispatchItem) → System
  after_done s item after = record s {
    idle = s.idle + 1;
    busy = after;
    consumer = handle_commit o item.actor_did item.commit s.consumer;
    handled = s.handled ++ item ∷ [];
  }

  clear_all : (busy : List DispatchItem) (s : System) → s.busy ≡ busy → (t : System) × Clears s t
  unfolding after_done
  clear_all [] s at = (
    s,
    record {
      steps = none_yet;
      clear = at;
      idle = omega (arith, ap length at);
      arrived = refl;
      queue = refl;
      taken = refl;
    },
  )
  clear_all (item ∷ after) s at =
      let v = after_done s item after in
      let (t, cleared) = clear_all after v refl in
      (
        t,
        record {
          steps =
              and_then decode url s v t (one_more none_yet (done o [] after item at)) cleared.steps;
          clear = cleared.clear;
          idle = omega (arith, cleared.idle, ap length at);
          arrived = cleared.arrived;
          queue = cleared.queue;
          taken = cleared.taken;
        },
      )

  take_first :
      (r : Reader) (item : DispatchItem) (items : List DispatchItem)
      → r.commit_queue ≡ item ∷ items
      → ((take_item r).1 ≡ some item) × ((take_item r).0.commit_queue ≡ items)
  unfolding take_item
  take_first r item items queue = ground (arith, queue)

  after_take : (s : System) (others : ℕ) (item : DispatchItem) → System
  after_take s others item = record s {
    reader = (take_item s.reader).0;
    idle = others;
    busy = s.busy ++ item ∷ [];
    taken = s.taken ++ item ∷ [];
  }

  -- Workers with nothing to do take the items of the channel one by one.
  empty_all :
      (queue : List DispatchItem) (others : ℕ) (s : System)
      → s.reader.commit_queue ≡ queue
      → s.busy ≡ []
      → s.idle ≡ suc others
      → (t : System) × Steps decode url s t
        × (t.reader.commit_queue ≡ [])
        × (t.busy ≡ [])
        × (t.arrived ≡ s.arrived)
        × (t.taken ≡ s.taken ++ queue)
  unfolding after_done after_take
  empty_all [] others s queue clear idle =
      (s, none_yet, queue, clear, refl, sym (append-nil s.taken))
  empty_all (item ∷ items) others s queue clear idle =
      let (first, rest) = take_first s.reader item items queue in
      let v = after_take s others item in
      let busy_with : v.busy ≡ item ∷ [] = ap (λ l. l ++ item ∷ []) clear in
      let w = after_done v item [] in
      let (t, steps, empty, all_clear, arrived, taken) =
        empty_all items others w rest refl (omega arith) in
      (
        t,
        and_then decode url s w t
            (one_more (one_more none_yet (take others item idle first))
              (done o [] [] item busy_with))
            steps,
        empty,
        all_clear,
        arrived,
        taken ∙ append_assoc s.taken (item ∷ []) items,
      )

  staffed_now :
      (p : Place) (stopping : Bool) (n : ℕ)
      → IsStaff p stopping n
      → p ≢ waiting
      → stopping ≡ false
      → n ≡ num_workers
  staffed_now waiting stopping n h begun running = absurd (begun refl)
  staffed_now returned stopping n (_, h) begun running = ground (arith, h, running)
  staffed_now (looping b) stopping n (_, h) begun running = ground (arith, h, running)
  staffed_now (dialling b) stopping n (_, h) begun running = ground (arith, h, running)
  staffed_now (polling b) stopping n (_, h) begun running = ground (arith, h, running)
  staffed_now (reading b) stopping n (_, h) begun running = ground (arith, h, running)
  staffed_now (pausing b) stopping n (_, h) begun running = ground (arith, h, running)

  -- Once Run has started and until Stop is called, from every state that a consumer reaches, its
  -- workers can go on, whatever the outside answers, to a state where none is busy and the channel
  -- is empty, no commit has arrived in between, and the commits handled are exactly those that had
  -- been taken and those that waited in the channel.
  pub drains :
      (store : Store) (s : System)
      → Steps decode url (new_consumer store) s
      → s.place ≢ waiting
      → s.stopping ≡ false
      → (t : System) × Steps decode url s t
        × (t.reader.commit_queue ≡ [])
        × (t.busy ≡ [])
        × (t.arrived ≡ s.arrived)
        × Perm t.handled (s.taken ++ s.reader.commit_queue)
  unfolding new_consumer
  drains store s before begun running =
      let staffed = Steps-IsStaffed decode url (new_consumer store) s before refl in
      let full = staffed_now s.place s.stopping (s.idle + length s.busy) staffed begun running in
      let (v, cleared) = clear_all s.busy s refl in
      let (t, steps, empty, all_clear, arrived, taken) =
        empty_all s.reader.commit_queue 7 v cleared.queue cleared.clear
          (omega (arith, cleared.idle, full)) in
      let more = and_then decode url s v t cleared.steps steps in
      let served =
        Steps-IsServed decode url store t
          (and_then decode url (new_consumer store) s t before more) in
      (
        t,
        more,
        empty,
        all_clear,
        arrived ∙ cleared.arrived,
        subst (λ l. Perm t.handled l) (taken ∙ ap (λ l. l ++ s.reader.commit_queue) cleared.taken)
            (subst (λ l. Perm l t.taken) (ap (λ l. t.handled ++ l) all_clear ∙ append-nil t.handled)
              served.at_workers),
      )
