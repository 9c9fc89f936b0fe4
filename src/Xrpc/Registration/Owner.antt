-- ===== src/Xrpc/Registration/Owner.antt =====
-- Whose tokens a request can change.
use atproto_push_gateway.Base.{
  ◌≡◌, ◌≢◌, refl, eq_iff, eq_refl, Text, true, not, List, [], ◌∷◌, ◌++◌, Option, some, keep, ok,
  lookup-insert, lookup-delete, Option-cases, inl, inr, arith,
}
use atproto_push_gateway.Store.{Store, PushToken, Db}
use atproto_push_gateway.Store.Tokens.{
  is_of, has_key, without_token, replace_token, register_token, unregister_token, is_registered,
}
use atproto_push_gateway.Store.Blocks.{mark_blocks_backfilled}
use atproto_push_gateway.Xrpc.{Request, Handler, Outside}
use atproto_push_gateway.Xrpc.Auth.{verify_auth}
use atproto_push_gateway.Xrpc.Registration.{
  RegisterPushRequest, lexicon_register_push, lexicon_unregister_push, maybe_start_blocks_backfill,
  signal, register_for, unregister_for, handle_register_push, handle_unregister_push,
}

-- The rows of the DID are the same, and whether it is registered.
abbrev pub SameFor : Text → Store → Store → Type 0
SameFor d s t =
    (keep (is_of d) t.push_tokens ≡ keep (is_of d) s.push_tokens)
    × (is_registered t d ≡ is_registered s d)

keep-other_key :
    (d did token : Text) (rows : List PushToken)
    → d ≢ did
    → keep (is_of d) (keep (λ r. not (has_key did token r)) rows) ≡ keep (is_of d) rows
keep-other_key d did token [] other = refl
keep-other_key d did token (r ∷ rows) other =
    ground
      (arith, keep-other_key d did token rows other, eq_iff r.actor_did did, eq_iff r.actor_did d)

keep-other_row :
    (d did platform token app : Text) (rows : List PushToken)
    → d ≢ did
    → keep (is_of d) (without_token did platform token app rows) ≡ keep (is_of d) rows
keep-other_row d did platform token app [] other = refl
keep-other_row d did platform token app (r ∷ rows) other = ground (
  arith,
  keep-other_row d did platform token app rows other,
  eq_iff r.actor_did did,
  eq_iff r.actor_did d,
)

keep-snoc_other :
    (d : Text) (rows : List PushToken) (t : PushToken)
    → t.actor_did ≢ d
    → keep (is_of d) (rows ++ t ∷ []) ≡ keep (is_of d) rows
keep-snoc_other d [] t other = ground (arith, eq_iff t.actor_did d)
keep-snoc_other d (r ∷ rows) t other = ground (arith, keep-snoc_other d rows t other)

register_token-SameFor :
    (db : Db) (d did platform token app : Text) (s : Store)
    → d ≢ did
    → SameFor d s (register_token db did platform token app s).0
unfolding register_token replace_token is_registered
register_token-SameFor db d did platform token app s other =
    let row : PushToken = record {
      actor_did = did;
      platform = platform;
      push_token = token;
      app_id = app;
    } in
    let others = keep (λ r. not (has_key did token r)) s.push_tokens in
    (
      ground (arith, keep-snoc_other d others row, keep-other_key d did token s.push_tokens other),
      ground (arith, eq_iff did d, lookup-insert did d true s.registered_dids),
    )

unregister_token-SameFor :
    (db : Db) (d did platform token app : Text) (s : Store)
    → d ≢ did
    → SameFor d s (unregister_token db did platform token app s).0
unfolding unregister_token is_registered
unregister_token-SameFor db d did platform token app s other = (
  ground (arith, keep-other_row d did platform token app s.push_tokens other),
  ground (arith, eq_iff did d, lookup-delete did d s.registered_dids),
)

-- What follows a registration leaves the tokens.
backfill-tokens :
    (db : Db) (actor : Text) (h : Handler)
    → ((signal (maybe_start_blocks_backfill db actor h)).store.push_tokens ≡ h.store.push_tokens)
      × ((signal (maybe_start_blocks_backfill db actor h)).store.registered_dids
          ≡ h.store.registered_dids)
unfolding signal maybe_start_blocks_backfill mark_blocks_backfilled
backfill-tokens db actor h = ground arith

registered_after :
    (db : Db) (did platform token app : Text) (s : Store)
    → (register_token db did platform token app s).1 ≡ ok tt
    → is_registered (register_token db did platform token app s).0 did ≡ true
unfolding register_token is_registered
registered_after db did platform token app s done =
    ground (arith, eq_refl did, lookup-insert did did true s.registered_dids)

register_for-SameFor :
    (db : Db) (d actor : Text) (req : RegisterPushRequest) (h : Handler)
    → d ≢ actor
    → SameFor d h.store (register_for db actor req h).0.store
unfolding register_for is_registered
register_for-SameFor db d actor req h other =
    let (s', result) = register_token db actor req.platform req.token req.app_id h.store in
    let (rows, known) =
      register_token-SameFor db d actor req.platform req.token req.app_id h.store other in
    let (kept, map_kept) = backfill-tokens db actor (record h { store = s' }) in
    (ground (arith, rows, kept), ground (arith, known, map_kept))

unregister_for-SameFor :
    (db : Db) (d actor : Text) (req : RegisterPushRequest) (h : Handler)
    → d ≢ actor
    → SameFor d h.store (unregister_for db actor req h).0.store
unfolding unregister_for is_registered
unregister_for-SameFor db d actor req h other =
    let (rows, known) =
      unregister_token-SameFor db d actor req.platform req.token req.app_id h.store other in
    (ground (arith, rows), ground (arith, known))

register_for-registers :
    (db : Db) (actor : Text) (req : RegisterPushRequest) (h : Handler)
    → (register_for db actor req h).1 ≡ 200
    → is_registered (register_for db actor req h).0.store actor ≡ true
unfolding register_for is_registered
register_for-registers db actor req h done =
    let (s', result) = register_token db actor req.platform req.token req.app_id h.store in
    let (_, map_kept) = backfill-tokens db actor (record h { store = s' }) in
    ground (arith, map_kept, registered_after db actor req.platform req.token req.app_id h.store)

module _ (o : Outside) (db : Db) (r : Request) (body : Option RegisterPushRequest) where
  other_actor :
      (d : Text) (v : Option Text) (actor : Text) → v ≡ some actor → v ≢ some d → d ≢ actor
  other_actor d v actor e n = λ p. n (ground (arith, e, p))

  -- A registration that verifyAuth does not attribute to a DID leaves that DID's tokens, and
  -- whether it counts as registered, as they are.
  pub handle_register_push_others :
      (h : Handler) (d : Text)
      → verify_auth o h lexicon_register_push r ≢ some d
      → SameFor d h.store (handle_register_push o db r body h).0.store
  unfolding handle_register_push
  handle_register_push_others h d n =
      elim (Option-cases (verify_auth o h lexicon_register_push r)) [
        | inl refused ↦ (ground (arith, refused), ground (arith, refused))
        | inr (actor, known) ↦ elim (Option-cases body) [
          | inl unread ↦ (ground (arith, known, unread), ground (arith, known, unread))
          | inr (req, read) ↦
              (let (rows, same) =
                  register_for-SameFor db d actor req h
                    (other_actor d (verify_auth o h lexicon_register_push r) actor known n) in
                (ground (arith, known, read, rows), ground (arith, known, read, same)))
        ]
      ]

  -- A removal of a token that verifyAuth does not attribute to a DID leaves that DID's tokens, and
  -- whether it counts as registered, as they are.
  handle_unregister_push_others :
      (h : Handler) (d : Text)
      → verify_auth o h lexicon_unregister_push r ≢ some d
      → SameFor d h.store (handle_unregister_push o db r body h).0.store
  unfolding handle_unregister_push
  handle_unregister_push_others h d n =
      elim (Option-cases (verify_auth o h lexicon_unregister_push r)) [
        | inl refused ↦ (ground (arith, refused), ground (arith, refused))
        | inr (actor, known) ↦ elim (Option-cases body) [
          | inl unread ↦ (ground (arith, known, unread), ground (arith, known, unread))
          | inr (req, read) ↦
              (let (rows, same) =
                  unregister_for-SameFor db d actor req h
                    (other_actor d (verify_auth o h lexicon_unregister_push r) actor known n) in
                (ground (arith, known, read, rows), ground (arith, known, read, same)))
        ]
      ]

  -- A registration that is answered 200 is one that verifyAuth attributes to a DID, and after it
  -- that DID is registered.
  handle_register_push_registers :
      (h : Handler)
      → (handle_register_push o db r body h).1 ≡ 200
      → (actor : Text) × (verify_auth o h lexicon_register_push r ≡ some actor)
        × (is_registered (handle_register_push o db r body h).0.store actor ≡ true)
  unfolding handle_register_push
  handle_register_push_registers h done =
      elim (Option-cases (verify_auth o h lexicon_register_push r)) [
        | inl refused ↦ absurd (ground (arith, refused))
        | inr (actor, known) ↦ elim (Option-cases body) [
          | inl unread ↦ absurd (ground (arith, known, unread))
          | inr (req, read) ↦
              (actor, known, ground (arith, known, read, register_for-registers db actor req h))
        ]
      ]
