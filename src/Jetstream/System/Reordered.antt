-- ===== src/Jetstream/System/Reordered.antt =====
-- Two workers end the handling of two commits in the other order.
use atproto_push_gateway.Base.{
  ℕ, suc, ◌≡◌, ◌≢◌, refl, ap, ◌∙◌, ◌==◌, eq_iff, eq_refl, Text, Bytes, Bool-cases, inl, inr, true,
  false, ◌||◌, List, [], ◌∷◌, ◌++◌, Option, some, lit, arith,
}
use atproto_push_gateway.Store.{insert_block, delete_block}
use atproto_push_gateway.Store.Tokens.{is_registered}
use atproto_push_gateway.Store.Blocks.{has_block, blocked_of_rkey}
use atproto_push_gateway.Store.Blocks.Unblock.{
  remove_block_by_rkey-add_block, unknown_key_kept, has_block-add_block,
}
use atproto_push_gateway.Jetstream.{CommitEvent, Consumer, Outside}
use atproto_push_gateway.Jetstream.Commit.{
  handle_commit, handle_block_create, handle_block_delete, on_create_or_delete,
}
use atproto_push_gateway.Jetstream.Stream.{JetstreamEvent, DispatchItem, take_item}
use atproto_push_gateway.Jetstream.System.{System, Steps, none_yet, one_more, take, done}

-- A commit of the collection of blocks.
abbrev pub block_commit : (operation rkey : Text) → Bytes → CommitEvent
block_commit operation rkey raw = record {
  rev = [];
  operation = operation;
  collection = lit "app.bsky.graph.block";
  rkey = rkey;
  raw = raw;
}

abbrev pub block_created : (rkey : Text) → Bytes → CommitEvent
block_created rkey raw = block_commit (lit "create") rkey raw

abbrev pub block_deleted : (rkey : Text) → CommitEvent
block_deleted rkey = block_commit (lit "delete") rkey []

module _ (o : Outside) (actor rkey : Text) where
  handle_created :
      (raw : Bytes) (c : Consumer)
      → handle_commit o actor (block_created rkey raw) c ≡ handle_block_create o actor rkey raw c
  unfolding handle_commit on_create_or_delete ◌==◌
  handle_created raw c = refl

  handle_deleted :
      (c : Consumer)
      → handle_commit o actor (block_deleted rkey) c ≡ handle_block_delete o actor rkey c
  unfolding handle_commit on_create_or_delete ◌==◌
  handle_deleted c = refl

  module _ (raw : Bytes) (to : Text) (c : Consumer) where
    -- The state after AddBlock and then RemoveBlockByRKey, and the other way round.
    created_deleted : Consumer
    created_deleted =
        handle_commit o actor (block_deleted rkey)
          (handle_commit o actor (block_created rkey raw) c)

    deleted_created : Consumer
    deleted_created =
        handle_commit o actor (block_created rkey raw)
          (handle_commit o actor (block_deleted rkey) c)

    in_order_unblocks :
        o.decoders.block raw ≡ some to
        → to ≢ []
        → rkey ≢ []
        → (is_registered c.store actor || is_registered c.store to) ≡ true
        → o.db insert_block ≡ true
        → o.db delete_block ≡ true
        → has_block created_deleted.store actor to ≡ false
    unfolding created_deleted handle_block_create handle_block_delete
    in_order_unblocks read someone key known up down =
        let (_, rest) =
          remove_block_by_rkey-add_block o.db actor to rkey c.store up down key someone in
        rw (handle_created raw c, handle_deleted)
          (ground (
            arith,
            read,
            known,
            eq_iff to [],
            eq_iff rkey [],
            rest actor to,
            eq_refl actor,
            eq_refl to,
          ))

    -- The deletion of a block whose key is not known changes nothing.
    deleted_unknown :
        blocked_of_rkey c.store actor rkey ≡ [] → handle_block_delete o actor rkey c ≡ c
    unfolding handle_block_delete
    deleted_unknown fresh = elim (Bool-cases (rkey == [])) [
      | inl empty ↦ rw empty refl
      | inr full ↦ rw (full, unknown_key_kept o.db actor rkey c.store fresh) refl
    ]

    reordered_blocks :
        o.decoders.block raw ≡ some to
        → to ≢ []
        → (is_registered c.store actor || is_registered c.store to) ≡ true
        → blocked_of_rkey c.store actor rkey ≡ []
        → o.db insert_block ≡ true
        → has_block deleted_created.store actor to ≡ true
    unfolding deleted_created handle_block_create
    reordered_blocks read someone known fresh up =
        rw (handle_deleted c, deleted_unknown fresh, handle_created raw c)
          (ground
            (arith, read, known, eq_iff to [], has_block-add_block o.db actor to rkey c.store up))

abbrev pub block_items : (actor rkey : Text) → Bytes → List DispatchItem → List DispatchItem
block_items actor rkey raw rest =
    record { actor_did = actor; commit = block_created rkey raw }
    ∷ record { actor_did = actor; commit = block_deleted rkey }
    ∷ rest

-- A state in which no worker is busy, two and some others wait, and the channel holds these items.
abbrev pub with_items : System → (others : ℕ) → List DispatchItem → System
with_items s others items = record s {
  reader = record s.reader { commit_queue = items };
  idle = suc (suc others);
  busy = [];
}

module _ (decode : Bytes → Option JetstreamEvent) (url : Text) (o : Outside) where
  handle_item : DispatchItem → Consumer → Consumer
  handle_item item c = handle_commit o item.actor_did item.commit c

  both_taken :
      (s : System) (others : ℕ) (a b : DispatchItem) (rest : List DispatchItem)
      → Steps decode url (with_items s others (a ∷ b ∷ rest)) (record s {
        reader = record s.reader { commit_queue = rest };
        idle = others;
        busy = a ∷ b ∷ [];
        taken = (s.taken ++ a ∷ []) ++ b ∷ [];
      })
  unfolding take_item
  both_taken s others a b rest =
      one_more (one_more none_yet (take (suc others) a refl refl)) (take others b refl refl)

  -- Either worker can be the first to end.
  in_order :
      (s : System) (others : ℕ) (a b : DispatchItem) (rest : List DispatchItem)
      → (t : System) × Steps decode url (with_items s others (a ∷ b ∷ rest)) t
        × (t.consumer ≡ handle_item b (handle_item a s.consumer))
  unfolding handle_item
  in_order s others a b rest = (
    _,
    one_more (one_more (both_taken s others a b rest) (done o [] (b ∷ []) a refl))
        (done o [] [] b refl),
    refl,
  )

  reordered :
      (s : System) (others : ℕ) (a b : DispatchItem) (rest : List DispatchItem)
      → (t : System) × Steps decode url (with_items s others (a ∷ b ∷ rest)) t
        × (t.consumer ≡ handle_item a (handle_item b s.consumer))
  unfolding handle_item
  reordered s others a b rest = (
    _,
    one_more (one_more (both_taken s others a b rest) (done o (a ∷ []) [] b refl))
        (done o [] [] a refl),
    refl,
  )

  -- Where the first two items of the channel are the creation of a block, whose key is not empty and
  -- not yet known and one of whose parties is registered, and its deletion, and the database does not
  -- fail, two workers that wait can handle them so that the block is gone, and so that it stays: the
  -- one that deletes can end before the one that creates.
  pub overtaken_blocked :
      (s : System) (others : ℕ) (actor rkey : Text) (raw : Bytes) (to : Text)
      (rest : List DispatchItem)
      → o.decoders.block raw ≡ some to
      → to ≢ []
      → rkey ≢ []
      → (is_registered s.consumer.store actor || is_registered s.consumer.store to) ≡ true
      → blocked_of_rkey s.consumer.store actor rkey ≡ []
      → o.db insert_block ≡ true
      → o.db delete_block ≡ true
      → let r = with_items s others (block_items actor rkey raw rest) in
        ((t : System) × Steps decode url r t × (has_block t.consumer.store actor to ≡ false))
        × ((t : System) × Steps decode url r t × (has_block t.consumer.store actor to ≡ true))
  unfolding handle_item created_deleted deleted_created
  overtaken_blocked s others actor rkey raw to rest read someone key known fresh up down =
      let create : DispatchItem = record { actor_did = actor; commit = block_created rkey raw } in
      let delete : DispatchItem = record { actor_did = actor; commit = block_deleted rkey } in
      let (t, steps, at) = in_order s others create delete rest in
      let (u, steps', at') = reordered s others create delete rest in
      let c = s.consumer in
      (
        (
          t,
          steps,
          ap (λ (d : Consumer). has_block d.store actor to) at
              ∙ in_order_unblocks o actor rkey raw to c read someone key known up down,
        ),
        (
          u,
          steps',
          ap (λ (d : Consumer). has_block d.store actor to) at'
              ∙ reordered_blocks o actor rkey raw to c read someone known fresh up,
        ),
      )
