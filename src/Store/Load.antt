-- ===== src/Store/Load.antt =====
-- store.go: New and loadIntoMemory. The tables are what the database file holds.
pub mod Restart
pub mod Partial
use atproto_push_gateway.Base.{
  ◌==◌, Text, Bool, true, not, List, [], ◌∷◌, Map, if◌then◌else◌, insert, insert_in, map, Result,
  ok, err,
}
use atproto_push_gateway.Store.{
  Store, PushToken, Block, Verification, Db, Error, db_error, select_dids, select_blocks,
  select_verifications,
}
use atproto_push_gateway.Store.Rows.{read_rows, order_by, distinct}

-- SELECT DISTINCT actor_did FROM push_tokens, which runs on the index of the primary key.
unfoldable pub actor_dids : List PushToken → List Text
unfolding order_by distinct
actor_dids rows = order_by (λ d. d) (distinct (map (λ t. t.actor_did) rows))

unfoldable pub load_dids : List Text → Map Bool → Map Bool
load_dids [] m = m
load_dids (did ∷ rows) m = load_dids rows (insert did true m)

unfoldable pub load_blocks : List Block → Map (Map Bool) → Map (Map Bool)
load_blocks [] m = m
load_blocks (b ∷ rows) m = load_blocks rows (insert_in b.blocker_did b.blocked_did true m)

unfoldable pub load_blocks_by_rkey : List Block → Map (Map Text) → Map (Map Text)
load_blocks_by_rkey [] m = m
load_blocks_by_rkey (b ∷ rows) m =
    load_blocks_by_rkey rows
      (if not (b.rkey == []) then insert_in b.blocker_did b.rkey b.blocked_did m else m)

unfoldable pub load_verifications : List Verification → Map (Map Text) → Map (Map Text)
load_verifications [] m = m
load_verifications (v ∷ rows) m =
    load_verifications rows (insert_in v.verifier_did v.rkey v.subject_did m)

-- New on a database file whose tables are those of `s`; the maps of `s` are not read.
unfoldable pub new : Db → Store → Result Error Store
unfolding read_rows actor_dids load_dids load_blocks load_blocks_by_rkey load_verifications
new db s =
    let blocks = read_rows db select_blocks 0 s.block_rows in
    if not (db select_dids)
    then err (db_error select_dids)
    else if not (db select_blocks)
    then err (db_error select_blocks)
    else if not (db select_verifications)
    then err (db_error select_verifications)
    else ok (record s {
      registered_dids = load_dids (read_rows db select_dids 0 (actor_dids s.push_tokens)) [];
      blocks = load_blocks blocks [];
      blocks_by_rkey = load_blocks_by_rkey blocks [];
      verifications_by_rkey =
          load_verifications (read_rows db select_verifications 0 s.verification_rows) [];
    })
