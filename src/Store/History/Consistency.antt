-- ===== src/Store/History/Consistency.antt =====
-- Every operation keeps the memory and the tables of the store in agreement.
use atproto_push_gateway.Base.{
  ◌≡◌, refl, Text, true, List, [], ◌∷◌, arith, ok, err, lookup_in, lookup, Result,
}
use atproto_push_gateway.Store.{Store, Db, Error, count_tokens}
use atproto_push_gateway.Store.Tokens.{register_token, unregister_token, is_registered}
use atproto_push_gateway.Store.Tokens.Cap.{
  IsCapped, register_token-IsCapped, unregister_token-IsCapped,
}
use atproto_push_gateway.Store.Tokens.Registered.{
  Registers, register_token-Registers, unregister_token-Registers,
}
use atproto_push_gateway.Store.Blocks.{
  add_block, remove_block, remove_block_by_rkey, has_block, is_blocked, mark_blocks_backfilled,
}
use atproto_push_gateway.Store.Blocks.Agreement.{
  Blocks, add_block-Blocks, remove_block-Blocks, remove_block_by_rkey-Blocks,
}
use atproto_push_gateway.Store.Verifications.{
  add_verification, remove_verification_by_rkey, subject_of_rkey,
}
use atproto_push_gateway.Store.Verifications.Agreement.{
  Verifies, add_verification-Verifies, remove_verification_by_rkey-Verifies,
}
use atproto_push_gateway.Store.Verifications.Keys.{
  IsKeyed, add_verification-IsKeyed, remove_verification_by_rkey-IsKeyed,
}
use atproto_push_gateway.Store.Load.{new}
use atproto_push_gateway.Store.Load.Restart.{ReadsWhole, new-Registers, new-Blocks, new-Verifies}
use atproto_push_gateway.Store.History.{
  Operation, register, unregister, block, unblock, unblock_rkey, verify, unverify, backfill,
  restart, step, run, Counts, AllCount, IsConsistent, empty,
}

module _ {s : Store} (c : IsConsistent s) (t : Store) where
  -- A state with the same tokens, and so on, is as consistent in that part.
  same_tokens :
      t.push_tokens ≡ s.push_tokens
      → t.registered_dids ≡ s.registered_dids
      → Registers t × IsCapped t.push_tokens
  unfolding is_registered
  same_tokens rows dids = (λ d. ground (arith, c.registers d), λ d. ground (arith, c.capped d))

  same_blocks : t.block_rows ≡ s.block_rows → t.blocks ≡ s.blocks → Blocks t
  unfolding has_block
  same_blocks rows maps = λ a b. ground (arith, c.blocks a b)

  same_verifications :
      t.verification_rows ≡ s.verification_rows
      → t.verifications_by_rkey ≡ s.verifications_by_rkey
      → Verifies t × IsKeyed t.verification_rows
  same_verifications rows maps = (λ v k. ground (arith, c.verifies v k), rw rows c.keyed)

module _ (db : Db) {s : Store} (c : IsConsistent s) where
  register_token-IsConsistent :
      (did platform token app : Text) → IsConsistent (register_token db did platform token app s).0
  unfolding register_token
  register_token-IsConsistent did platform token app =
      let t = (register_token db did platform token app s).0 in
      let (verifies, keyed) = same_verifications c t (ground arith) (ground arith) in
      record {
        registers = register_token-Registers db did platform token app s c.registers;
        capped = register_token-IsCapped db did platform token app s c.capped;
        blocks = same_blocks c t (ground arith) (ground arith);
        verifies = verifies;
        keyed = keyed;
      }

  unregister_token-IsConsistent :
      (did platform token app : Text)
      → db count_tokens ≡ true
      → IsConsistent (unregister_token db did platform token app s).0
  unfolding unregister_token
  unregister_token-IsConsistent did platform token app counts =
      let t = (unregister_token db did platform token app s).0 in
      let (verifies, keyed) = same_verifications c t (ground arith) (ground arith) in
      record {
        registers = unregister_token-Registers db did platform token app s counts c.registers;
        capped = unregister_token-IsCapped db did platform token app s c.capped;
        blocks = same_blocks c t (ground arith) (ground arith);
        verifies = verifies;
        keyed = keyed;
      }

  add_block-IsConsistent :
      (blocker blocked rkey : Text) → IsConsistent (add_block db blocker blocked rkey s).0
  unfolding add_block
  add_block-IsConsistent blocker blocked rkey =
      let t = (add_block db blocker blocked rkey s).0 in
      let (registers, capped) = same_tokens c t (ground arith) (ground arith) in
      let (verifies, keyed) = same_verifications c t (ground arith) (ground arith) in
      record {
        registers = registers;
        capped = capped;
        blocks = add_block-Blocks db blocker blocked rkey s c.blocks;
        verifies = verifies;
        keyed = keyed;
      }

  remove_block-IsConsistent :
      (blocker blocked : Text) → IsConsistent (remove_block db blocker blocked s).0
  unfolding remove_block
  remove_block-IsConsistent blocker blocked =
      let t = (remove_block db blocker blocked s).0 in
      let (registers, capped) = same_tokens c t (ground arith) (ground arith) in
      let (verifies, keyed) = same_verifications c t (ground arith) (ground arith) in
      record {
        registers = registers;
        capped = capped;
        blocks = remove_block-Blocks db blocker blocked s c.blocks;
        verifies = verifies;
        keyed = keyed;
      }

  remove_block_by_rkey-IsConsistent :
      (blocker rkey : Text) → IsConsistent (remove_block_by_rkey db blocker rkey s).0
  unfolding remove_block_by_rkey
  remove_block_by_rkey-IsConsistent blocker rkey =
      let t = (remove_block_by_rkey db blocker rkey s).0 in
      let (registers, capped) = same_tokens c t (ground arith) (ground arith) in
      let (verifies, keyed) = same_verifications c t (ground arith) (ground arith) in
      record {
        registers = registers;
        capped = capped;
        blocks = remove_block_by_rkey-Blocks db blocker rkey s c.blocks;
        verifies = verifies;
        keyed = keyed;
      }

  add_verification-IsConsistent :
      (verifier subject rkey : Text) → IsConsistent (add_verification db verifier subject rkey s).0
  unfolding add_verification
  add_verification-IsConsistent verifier subject rkey =
      let t = (add_verification db verifier subject rkey s).0 in
      let (registers, capped) = same_tokens c t (ground arith) (ground arith) in
      record {
        registers = registers;
        capped = capped;
        blocks = same_blocks c t (ground arith) (ground arith);
        verifies = add_verification-Verifies db verifier subject rkey s c.verifies;
        keyed = add_verification-IsKeyed db verifier subject rkey s c.keyed;
      }

  remove_verification_by_rkey-IsConsistent :
      (verifier rkey : Text) → IsConsistent (remove_verification_by_rkey db verifier rkey s).0
  unfolding remove_verification_by_rkey
  remove_verification_by_rkey-IsConsistent verifier rkey =
      let t = (remove_verification_by_rkey db verifier rkey s).0 in
      let (registers, capped) = same_tokens c t (ground arith) (ground arith) in
      record {
        registers = registers;
        capped = capped;
        blocks = same_blocks c t (ground arith) (ground arith);
        verifies = remove_verification_by_rkey-Verifies db verifier rkey s c.verifies;
        keyed = remove_verification_by_rkey-IsKeyed db verifier rkey s c.keyed;
      }

  mark_blocks_backfilled-IsConsistent :
      (did : Text) → IsConsistent (mark_blocks_backfilled db did s).0
  unfolding mark_blocks_backfilled
  mark_blocks_backfilled-IsConsistent did =
      let t = (mark_blocks_backfilled db did s).0 in
      let (registers, capped) = same_tokens c t (ground arith) (ground arith) in
      let (verifies, keyed) = same_verifications c t (ground arith) (ground arith) in
      record {
        registers = registers;
        capped = capped;
        blocks = same_blocks c t (ground arith) (ground arith);
        verifies = verifies;
        keyed = keyed;
      }

-- New leaves the tables as they are.
new_tables :
    (db : Db) (s t : Store)
    → new db s ≡ ok t
    → (t.push_tokens ≡ s.push_tokens)
      × (t.verification_rows ≡ s.verification_rows)
      × (t.block_rows ≡ s.block_rows)
unfolding new
new_tables db s t loaded = ground arith

new-IsConsistent :
    (db : Db) {s t : Store} → ReadsWhole db → IsConsistent s → new db s ≡ ok t → IsConsistent t
new-IsConsistent db {s} {t} whole c loaded =
    let (tokens, verifications, _) = new_tables db s t loaded in
    record {
      registers = new-Registers db s t whole loaded;
      capped = λ d. rw tokens (c.capped d);
      blocks = new-Blocks db s t whole loaded;
      verifies = new-Verifies db s t whole loaded c.keyed;
      keyed = rw verifications c.keyed;
    }

restart-IsConsistent :
    (db : Db) {s : Store} (r : Result Error Store)
    → ReadsWhole db
    → new db s ≡ r
    → IsConsistent s
    → IsConsistent (elim r [ ok t ↦ t | err e ↦ s ])
restart-IsConsistent db (ok t) whole loaded c = new-IsConsistent db whole c loaded
restart-IsConsistent db (err e) whole loaded c = c

pub step-IsConsistent :
    (o : Operation) {s : Store} → Counts o → IsConsistent s → IsConsistent (step o s)
unfolding step
step-IsConsistent (register db did platform token app) _ c =
    register_token-IsConsistent db c did platform token app
step-IsConsistent (unregister db did platform token app) counts c =
    unregister_token-IsConsistent db c did platform token app counts
step-IsConsistent (block db blocker blocked rkey) _ c =
    add_block-IsConsistent db c blocker blocked rkey
step-IsConsistent (unblock db blocker blocked) _ c = remove_block-IsConsistent db c blocker blocked
step-IsConsistent (unblock_rkey db blocker rkey) _ c =
    remove_block_by_rkey-IsConsistent db c blocker rkey
step-IsConsistent (verify db verifier subject rkey) _ c =
    add_verification-IsConsistent db c verifier subject rkey
step-IsConsistent (unverify db verifier rkey) _ c =
    remove_verification_by_rkey-IsConsistent db c verifier rkey
step-IsConsistent (backfill db did) _ c = mark_blocks_backfilled-IsConsistent db c did
step-IsConsistent (restart db) {s} whole c = restart-IsConsistent db (new db s) whole refl c

run_keeps :
    (os : List Operation) {s : Store} → AllCount os → IsConsistent s → IsConsistent (run os s)
unfolding run
run_keeps [] _ c = c
run_keeps (o ∷ os) (counts, more) c = run_keeps os more (step-IsConsistent o counts c)

pub empty-IsConsistent : IsConsistent empty
unfolding is_registered has_block lookup_in lookup
empty-IsConsistent = record {
  registers = λ d. refl;
  capped = λ d. omega arith;
  blocks = λ a b. refl;
  verifies = λ v k. refl;
  keyed = tt;
}

-- After any sequence of operations on an empty store, failed statements included, a DID
-- counts as registered exactly when it has a token row, no DID has more than 20 token rows, a
-- block stands in memory exactly when it has a row, a verification's record key leads to the
-- subject of its row, and no two verifications share their key; provided that no UnregisterToken
-- in the sequence had its count of the remaining tokens fail and no restart's read of a table
-- failed after it had begun, the two failures that the code does not look at.
pub run-IsConsistent : (os : List Operation) → AllCount os → IsConsistent (run os empty)
run-IsConsistent os counts = run_keeps os counts empty-IsConsistent

-- A restart of a consistent store whose tables can be read to their last rows changes no answer: IsRegistered,
-- IsBlocked in both directions and the subject of each verification key are as before it.
pub new_transparent :
    (db : Db) (s t : Store)
    → ReadsWhole db
    → IsConsistent s
    → new db s ≡ ok t
    → ((d : Text) → is_registered t d ≡ is_registered s d)
      × ((a b : Text) → is_blocked t a b ≡ is_blocked s a b)
      × ((v k : Text) → subject_of_rkey t v k ≡ subject_of_rkey s v k)
unfolding is_blocked subject_of_rkey
new_transparent db s t whole c loaded =
    let (tokens, verifications, rows) = new_tables db s t loaded in
    let d = new-IsConsistent db whole c loaded in
    let blocks : (a b : Text) → has_block t a b ≡ has_block s a b =
      λ a b. ground (arith, d.blocks a b, c.blocks a b) in
    (
      λ a. ground (arith, d.registers a, c.registers a),
      λ a b. ground (arith, blocks a b, blocks b a),
      λ v k. ground (arith, d.verifies v k, c.verifies v k),
    )
