-- ===== src/Store/History.antt =====
-- Sequences of the store's operations, as the handlers and the consumer issue them.
pub mod Consistency
use atproto_push_gateway.Base.{
  ◌≡◌, refl, ◌==◌, Text, Bool, true, false, not, List, [], ◌∷◌, Option, some, none, arith, ok, err,
  keep, length, ◌≤◌, some_of, lookup_in, Result,
}
use atproto_push_gateway.Store.{Store, PushToken, WebPushEndpoint, Db, Outcome, count_tokens}
use atproto_push_gateway.Store.Tokens.{
  is_of, register_token, unregister_token, is_registered, max_tokens_per_did,
}
use atproto_push_gateway.Store.Tokens.Cap.{
  IsCapped, register_token-IsCapped, unregister_token-IsCapped,
}
use atproto_push_gateway.Store.Tokens.Registered.{
  Registers, register_token-Registers, unregister_token-Registers,
}
use atproto_push_gateway.Store.Blocks.{
  is_pair, add_block, remove_block, remove_block_by_rkey, has_block, mark_blocks_backfilled,
  is_blocked,
}
use atproto_push_gateway.Store.Blocks.Agreement.{
  Blocks, add_block-Blocks, remove_block-Blocks, remove_block_by_rkey-Blocks,
}
use atproto_push_gateway.Store.Verifications.{add_verification, remove_verification_by_rkey}
use atproto_push_gateway.Store.Verifications.Agreement.{
  Verifies, add_verification-Verifies, remove_verification_by_rkey-Verifies,
}
use atproto_push_gateway.Store.Verifications.Keys.{
  IsKeyed, add_verification-IsKeyed, remove_verification_by_rkey-IsKeyed,
}
use atproto_push_gateway.Store.Load.{new}
use atproto_push_gateway.Store.Load.Restart.{ReadsWhole, new-Registers, new-Blocks, new-Verifies}

-- An operation with the answers that the database gives in it.
pub data Operation : Type 0 where
  register : Db → (did platform token app : Text) → Operation
  unregister : Db → (did platform token app : Text) → Operation
  block : Db → (blocker blocked rkey : Text) → Operation
  unblock : Db → (blocker blocked : Text) → Operation
  unblock_rkey : Db → (blocker rkey : Text) → Operation
  verify : Db → (verifier subject rkey : Text) → Operation
  unverify : Db → (verifier rkey : Text) → Operation
  backfill : Db → (did : Text) → Operation
  restart : Db → Operation

-- A restart that fails ends the process: the store stays as it is on the disk and in the model.
unfoldable pub step : Operation → Store → Store
step (register db did platform token app) s = (register_token db did platform token app s).0
step (unregister db did platform token app) s = (unregister_token db did platform token app s).0
step (block db blocker blocked rkey) s = (add_block db blocker blocked rkey s).0
step (unblock db blocker blocked) s = (remove_block db blocker blocked s).0
step (unblock_rkey db blocker rkey) s = (remove_block_by_rkey db blocker rkey s).0
step (verify db verifier subject rkey) s = (add_verification db verifier subject rkey s).0
step (unverify db verifier rkey) s = (remove_verification_by_rkey db verifier rkey s).0
step (backfill db did) s = (mark_blocks_backfilled db did s).0
step (restart db) s = elim (new db s) [ ok t ↦ t | err e ↦ s ]

unfoldable pub run : List Operation → Store → Store
run [] s = s
run (o ∷ os) s = run os (step o s)

-- The failures that the code does not look at do not happen: that of UnregisterToken's count, and
-- that of a call of Next in the reads of a restart.
abbrev pub Counts : Operation → Type 0
Counts (unregister db did platform token app) = db count_tokens ≡ true
Counts (restart db) = ReadsWhole db
Counts _ = Unit

abbrev pub AllCount : List Operation → Type 0
AllCount [] = Unit
AllCount (o ∷ os) = Counts o × AllCount os

-- The maps in memory say what the tables say, no DID has more than the capped number of tokens,
-- and the primary key of verifications holds.
pub record IsConsistent (s : Store) : Type 0 where
  pub registers : Registers s
  pub capped : IsCapped s.push_tokens
  pub blocks : Blocks s
  pub verifies : Verifies s
  pub keyed : IsKeyed s.verification_rows

abbrev pub empty : Store
empty = record {
  push_tokens = [];
  block_rows = [];
  verification_rows = [];
  backfilled = [];
  endpoint_rows = [];
  registered_dids = [];
  blocks = [];
  blocks_by_rkey = [];
  verifications_by_rkey = [];
}
