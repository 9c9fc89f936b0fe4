-- ===== src/Store/Blocks.antt =====
-- store.go: AddBlock, RemoveBlock, RemoveBlockByRKey, IsBlocked, MarkBlocksBackfilled.
pub mod Agreement
pub mod Unblock
use atproto_push_gateway.Base.{
  ◌==◌, Text, Bool, true, false, not, ◌&&◌, List, [], ◌∷◌, ◌++◌, none, some, keep, some_of,
  if◌then◌else◌, lookup_in, insert_in, delete_in, ok, err,
}
use atproto_push_gateway.Store.{
  Store, Block, Db, db_error, Outcome, insert_block, delete_block, insert_backfilled,
}

-- blocker_did = ? AND blocked_did = ?
abbrev pub is_pair : Text → Text → Block → Bool
is_pair blocker blocked r = r.blocker_did == blocker && r.blocked_did == blocked

-- INSERT OR IGNORE INTO blocks: a row with the same primary key stays as it is.
unfoldable pub ignore_block : Block → List Block → List Block
ignore_block b rows =
    if some_of (is_pair b.blocker_did b.blocked_did) rows then rows else rows ++ b ∷ []

unfoldable pub add_block : Db → (blocker blocked rkey : Text) → Store → Outcome (Unit {0})
unfolding ignore_block
add_block db blocker blocked rkey s =
    let row : Block = record { blocker_did = blocker; blocked_did = blocked; rkey = rkey } in
    if not (db insert_block) then (s, err (db_error insert_block)) else (
      record s {
        block_rows = ignore_block row s.block_rows;
        blocks = insert_in blocker blocked true s.blocks;
        blocks_by_rkey =
            if not (rkey == [])
            then insert_in blocker rkey blocked s.blocks_by_rkey
            else s.blocks_by_rkey;
      },
      ok tt,
    )

unfoldable pub remove_block : Db → (blocker blocked : Text) → Store → Outcome (Unit {0})
remove_block db blocker blocked s =
    if not (db delete_block) then (s, err (db_error delete_block)) else (
      record s {
        block_rows = keep (λ r. not (is_pair blocker blocked r)) s.block_rows;
        blocks = delete_in blocker blocked s.blocks;
      },
      ok tt,
    )

-- The blocked DID of a record key, "" if there is none.
unfoldable pub blocked_of_rkey : Store → (blocker rkey : Text) → Text
blocked_of_rkey s blocker rkey = elim (lookup_in blocker rkey s.blocks_by_rkey) [
  | none ↦ []
  | some blocked ↦ blocked
]

unfoldable pub remove_block_by_rkey : Db → (blocker rkey : Text) → Store → Outcome Text
unfolding remove_block blocked_of_rkey
remove_block_by_rkey db blocker rkey s =
    let blocked = blocked_of_rkey s blocker rkey in
    if blocked == []
    then (s, ok [])
    else (let (s', result) = remove_block db blocker blocked s in
        elim result [
          | err e ↦ (s', err e)
          | ok _ ↦
              (record s' { blocks_by_rkey = delete_in blocker rkey s'.blocks_by_rkey }, ok blocked)
        ])

-- s.blocks[blocker] != nil && s.blocks[blocker][blocked]
unfoldable pub has_block : Store → (blocker blocked : Text) → Bool
has_block s blocker blocked = elim (lookup_in blocker blocked s.blocks) [
  | none ↦ false
  | some b ↦ b
]

unfoldable pub is_blocked : Store → (actor target : Text) → Bool
is_blocked s actor target =
    if has_block s target actor then true else if has_block s actor target then true else false

-- INSERT OR IGNORE INTO blocks_backfilled, and whether a row was affected.
unfoldable pub mark_blocks_backfilled : Db → Text → Store → Outcome Bool
mark_blocks_backfilled db did s =
    if not (db insert_backfilled)
    then (s, err (db_error insert_backfilled))
    else if some_of (λ d. d == did) s.backfilled
    then (s, ok false)
    else (record s { backfilled = s.backfilled ++ did ∷ [] }, ok true)
