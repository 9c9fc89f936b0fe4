-- ===== src/Jetstream/Commit/Recipients.antt =====
-- Whom the handlers of a commit notify.
use mathlib.Core.List.{append-nil}
use atproto_push_gateway.Base.{
  ◌+◌, ◌≡◌, refl, sym, ◌==◌, Text, Bytes, Bool, true, false, ◌||◌, List, [], ◌++◌, lit, All, length,
  arith, inl, inr, Bool-cases, Option-cases, if◌then◌else◌,
}
use atproto_push_gateway.Store.{Store}
use atproto_push_gateway.Store.Tokens.{is_registered}
use atproto_push_gateway.Store.Blocks.{add_block, remove_block_by_rkey}
use atproto_push_gateway.Push.{Notification}
use atproto_push_gateway.Jetstream.{Consumer, Outside, CommitEvent}
use atproto_push_gateway.Jetstream.Notify.Permitted.{Sends, IsPermitted}
use atproto_push_gateway.Jetstream.Commit.{
  handle_like, handle_repost, handle_post, handle_follow, handle_block_create, handle_block_delete,
  handle_verification_create, handle_verification_delete, on_create, on_create_or_delete,
  handle_commit,
}
use atproto_push_gateway.Jetstream.Commit.Posts.{
  Keeps, handle_like-Keeps, handle_repost-Keeps, handle_post-Keeps, handle_follow-Keeps,
}
use atproto_push_gateway.Jetstream.Commit.Verified.{
  handle_verification_create-Keeps, handle_verification_delete-Keeps,
}

-- What the actor's commit adds is permitted against the blocks of the state that it meets, and is
-- counted.
abbrev pub Notifies : Text → Consumer → Consumer → Type 0
Notifies actor c d =
    (new : List Notification) × (d.handed ≡ c.handed ++ new)
    × All (IsPermitted c.store actor) new
    × (d.pushes_sent + d.push_errors ≡ c.pushes_sent + c.push_errors + length new)

module _ (o : Outside) (actor : Text) where
  Sends-Notifies : (c d : Consumer) → Sends (IsPermitted c.store actor) c d → Notifies actor c d
  Sends-Notifies c d sends = (sends.new, sends.appended, sends.all, sends.counted)

  Notifies-quiet : (c : Consumer) (t : Store) → Notifies actor c (record c { store = t })
  Notifies-quiet c t = ([], sym (append-nil c.handed), tt, omega arith)

  handle_block_create-Notifies :
      (rkey : Text) (raw : Bytes) (c : Consumer)
      → Notifies actor c (handle_block_create o actor rkey raw c)
  unfolding handle_block_create
  handle_block_create-Notifies rkey raw c = elim (Option-cases (o.decoders.block raw)) [
    | inl unread ↦ rw (unread, handle_block_create) (Notifies-quiet c c.store)
    | inr (to, read) ↦ elim (Bool-cases (to == [])) [
      | inl nobody ↦ rw (read, handle_block_create, nobody) (Notifies-quiet c c.store)
      | inr someone ↦ elim (Bool-cases (is_registered c.store actor || is_registered c.store to)) [
        | inl known ↦
            rw (read, handle_block_create, someone, known)
              (Notifies-quiet c (add_block o.db actor to rkey c.store).0)
        | inr unknown ↦ rw (read, handle_block_create, someone, unknown) (Notifies-quiet c c.store)
      ]
    ]
  ]

  handle_block_delete-Notifies :
      (rkey : Text) (c : Consumer) → Notifies actor c (handle_block_delete o actor rkey c)
  unfolding handle_block_delete
  handle_block_delete-Notifies rkey c = elim (Bool-cases (rkey == [])) [
    | inl empty ↦ rw empty (Notifies-quiet c c.store)
    | inr full ↦ rw full (Notifies-quiet c (remove_block_by_rkey o.db actor rkey c.store).0)
  ]

  on_create-Notifies :
      (commit : CommitEvent) (f : Consumer → Consumer) (c : Consumer)
      → Notifies actor c (f c)
      → Notifies actor c (on_create commit f c)
  unfolding on_create
  on_create-Notifies commit f c h = elim (Bool-cases (commit.operation == lit "create")) [
    | inl create ↦ rw create h
    | inr other ↦ rw other (Notifies-quiet c c.store)
  ]

  on_create_or_delete-Notifies :
      (commit : CommitEvent) (f g : Consumer → Consumer) (c : Consumer)
      → Notifies actor c (f c)
      → Notifies actor c (g c)
      → Notifies actor c (on_create_or_delete commit f g c)
  unfolding on_create_or_delete
  on_create_or_delete-Notifies commit f g c h k =
      elim (Bool-cases (commit.operation == lit "create")) [
        | inl create ↦ rw create h
        | inr other ↦ elim (Bool-cases (commit.operation == lit "delete")) [
          | inl delete ↦ rw (other, delete) k
          | inr neither ↦ rw (other, neither) (Notifies-quiet c c.store)
        ]
      ]

  select-Notifies :
      (b : Bool) (c d e : Consumer)
      → Notifies actor c d
      → Notifies actor c e
      → Notifies actor c (if b then d else e)
  select-Notifies true c d e h k = h
  select-Notifies false c d e h k = k

  -- Whatever the commit of an actor and whatever the database, the sender and the resolvers answer:
  -- handling it appends to the notifications handed over; each new one names the actor and a
  -- recipient who neither blocks the actor nor is blocked by the actor, and who is another account
  -- than the actor unless the reason is "verified" or "unverified"; and each counts exactly once,
  -- as a push sent or as a push error.
  pub handle_commit-Notifies :
      (commit : CommitEvent) (c : Consumer) → Notifies actor c (handle_commit o actor commit c)
  unfolding handle_commit
  handle_commit-Notifies commit c =
      let rkey = commit.rkey in
      let raw = commit.raw in
      let create = λ (f : Consumer → Consumer) (k : Keeps o actor c.store f).
        on_create-Notifies commit f c (Sends-Notifies c (f c) (k c refl)) in
      let is = λ (name : Text). commit.collection == name in
      let like = on_create commit (handle_like o actor rkey raw) c in
      let repost = on_create commit (handle_repost o actor rkey raw) c in
      let post = on_create commit (handle_post o actor rkey raw) c in
      let follow = on_create commit (handle_follow o actor rkey raw) c in
      let created = handle_verification_create o actor rkey raw in
      let deleted = handle_verification_delete o actor rkey in
      let block =
        on_create_or_delete commit (handle_block_create o actor rkey raw)
          (handle_block_delete o actor rkey) c in
      let verification = on_create_or_delete commit created deleted c in
      let from_verification = if is (lit "app.bsky.graph.verification") then verification else c in
      let from_block = if is (lit "app.bsky.graph.block") then block else from_verification in
      let from_follow = if is (lit "app.bsky.graph.follow") then follow else from_block in
      let from_post = if is (lit "app.bsky.feed.post") then post else from_follow in
      let from_repost = if is (lit "app.bsky.feed.repost") then repost else from_post in
      select-Notifies (is (lit "app.bsky.feed.like")) c like from_repost
        (create (handle_like o actor rkey raw) (handle_like-Keeps o actor c.store rkey raw))
        (select-Notifies (is (lit "app.bsky.feed.repost")) c repost from_post
          (create (handle_repost o actor rkey raw) (handle_repost-Keeps o actor c.store rkey raw))
          (select-Notifies (is (lit "app.bsky.feed.post")) c post from_follow
            (create (handle_post o actor rkey raw) (handle_post-Keeps o actor c.store rkey raw))
            (select-Notifies (is (lit "app.bsky.graph.follow")) c follow from_block
              (create (handle_follow o actor rkey raw)
                (handle_follow-Keeps o actor c.store rkey raw))
              (select-Notifies (is (lit "app.bsky.graph.block")) c block from_verification
                (on_create_or_delete-Notifies commit (handle_block_create o actor rkey raw)
                  (handle_block_delete o actor rkey) c (handle_block_create-Notifies rkey raw c)
                  (handle_block_delete-Notifies rkey c))
                (select-Notifies (is (lit "app.bsky.graph.verification")) c verification c
                  (on_create_or_delete-Notifies commit created deleted c
                    (Sends-Notifies c (created c)
                      (handle_verification_create-Keeps o actor c.store rkey raw c refl))
                    (Sends-Notifies c (deleted c)
                      (handle_verification_delete-Keeps o actor c.store rkey c refl)))
                  (Notifies-quiet c c.store))))))
