-- ===== src/Jetstream/Commit/Verified.antt =====
-- The notifications of verifications, each permitted.
use atproto_push_gateway.Base.{
  ◌≡◌, refl, ◌∙◌, ◌==◌, Text, Bytes, Bool, not, [], lit, arith, ◌⊎◌, inl, inr, Result, ok, err,
  Bool-cases, Option-cases, if◌then◌else◌,
}
use atproto_push_gateway.Store.{Store, Error}
use atproto_push_gateway.Store.Tokens.{is_registered}
use atproto_push_gateway.Store.Verifications.{add_verification, remove_verification_by_rkey}
use atproto_push_gateway.Jetstream.{Consumer, Outside}
use atproto_push_gateway.Jetstream.Notify.{send_notification}
use atproto_push_gateway.Jetstream.Notify.Permitted.{Sends, Sends-refl, Sends-trans, IsPermitted}
use atproto_push_gateway.Jetstream.Commit.{
  account_event, handle_verification_create, handle_verification_delete,
}
use atproto_push_gateway.Jetstream.Commit.Posts.{Keeps, idle, Keeps-send}

module _ (o : Outside) (actor : Text) (s : Store) where
  add_verification_blocks :
      (subject rkey : Text) (t : Store)
      → (add_verification o.db actor subject rkey t).0.blocks ≡ t.blocks
  unfolding add_verification
  add_verification_blocks subject rkey t = ground arith

  remove_verification_blocks :
      (rkey : Text) (t : Store)
      → (remove_verification_by_rkey o.db actor rkey t).0.blocks ≡ t.blocks
  unfolding remove_verification_by_rkey
  remove_verification_blocks rkey t = ground arith

  -- An event of the account itself is sent if its subject is registered.
  Keeps-verification :
      (rkey to reason : Text) (f : Consumer → Bool)
      → (reason ≡ lit "verified") ⊎ (reason ≡ lit "unverified")
      → Keeps o actor s (λ c.
        if not (f c)
        then c
        else send_notification o
            (account_event o actor rkey to reason (lit "app.bsky.graph.verification"))
            c)
  Keeps-verification rkey to reason f why c same = elim (Bool-cases (f c)) [
    | inl known ↦ rw known (Keeps-send o actor s _ (refl, inr why) c same)
    | inr unknown ↦ rw unknown (idle o actor s c same)
  ]

  pub handle_verification_create-Keeps :
      (rkey : Text) (raw : Bytes) → Keeps o actor s (handle_verification_create o actor rkey raw)
  unfolding handle_verification_create
  handle_verification_create-Keeps rkey raw c same =
      elim (Option-cases (o.decoders.verification raw)) [
        | inl unread ↦ rw (unread, handle_verification_create) (idle o actor s c same)
        | inr (to, read) ↦ elim (Bool-cases (to == [])) [
          | inl nobody ↦ rw (read, handle_verification_create, nobody) (idle o actor s c same)
          | inr someone ↦
              (let c' : Consumer = record c {
                store = (add_verification o.db actor to rkey c.store).0;
              } in
                let stored = add_verification_blocks to rkey c.store in
                rw (read, handle_verification_create, someone)
                  (Sends-trans (IsPermitted s actor)
                    (Sends-refl (IsPermitted s actor) c c' stored refl refl refl)
                    (Keeps-verification rkey to (lit "verified") (λ d. is_registered d.store to)
                      (inl refl) c' (stored ∙ same))))
        ]
      ]

  after_removal :
      (rkey : Text) (t : Store) (removed : Result Error Text) (c : Consumer)
      → t.blocks ≡ c.store.blocks
      → c.store.blocks ≡ s.blocks
      → Sends (IsPermitted s actor) c (elim removed [
        | err _ ↦ record c { store = t }
        | ok subject ↦
            if subject == []
            then record c { store = t }
            else if not (is_registered t subject)
            then record c { store = t }
            else send_notification o
                (account_event o actor rkey subject
                  (lit "unverified")
                  (lit "app.bsky.graph.verification"))
                (record c { store = t })
      ])
  after_removal rkey t (err e) c kept same =
      Sends-refl (IsPermitted s actor) c (record c { store = t }) kept refl refl refl
  after_removal rkey t (ok to) c kept same =
      let c' : Consumer = record c { store = t } in
      let quiet = Sends-refl (IsPermitted s actor) c c' kept refl refl refl in
      elim (Bool-cases (to == [])) [
        | inl nobody ↦ rw nobody quiet
        | inr someone ↦ rw someone (
            Sends-trans (IsPermitted s actor) quiet (
              Keeps-verification rkey to (lit "unverified") (λ d. is_registered d.store to)
                (inr refl) c' (kept ∙ same)))
      ]

  pub handle_verification_delete-Keeps :
      (rkey : Text) → Keeps o actor s (handle_verification_delete o actor rkey)
  unfolding handle_verification_delete
  handle_verification_delete-Keeps rkey c same = elim (Bool-cases (rkey == [])) [
    | inl empty ↦ rw empty (idle o actor s c same)
    | inr full ↦ rw full (
        after_removal rkey (remove_verification_by_rkey o.db actor rkey c.store).0
          (remove_verification_by_rkey o.db actor rkey c.store).1 c
          (remove_verification_blocks rkey c.store) same)
  ]
