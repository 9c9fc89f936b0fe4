-- ===== src/Store/Blocks/Unblock.antt =====
-- Blocking, unblocking by record key, and what a restart forgets.
use atproto_push_gateway.Base.{
  ◌≡◌, refl, ◌==◌, eq_iff, eq_refl, Text, true, false, not, ◌&&◌, ◌||◌, List, [], ◌∷◌, arith,
  if◌then◌else◌, ◌≢◌, ok, lookup_in, insert_in, Map, lookup_in-insert_in, lookup_in-delete_in,
  lookup,
}
use atproto_push_gateway.Store.{Store, Block, Db, insert_block, delete_block, select_blocks}
use atproto_push_gateway.Store.Rows.{read_rows_whole}
use atproto_push_gateway.Store.Load.{load_blocks_by_rkey, new}
use atproto_push_gateway.Store.Load.Restart.{ReadsWhole, new-Blocks}
use atproto_push_gateway.Store.Blocks.{
  ignore_block, add_block, remove_block, remove_block_by_rkey, blocked_of_rkey, has_block,
  is_blocked,
}
use atproto_push_gateway.Store.Blocks.Agreement.{has_row}

-- After AddBlock succeeds, a pair is blocked exactly if it is the new pair, in either direction,
-- or was blocked before.
is_blocked-add_block :
    (db : Db) (blocker blocked rkey : Text) (s : Store) (a b : Text)
    → db insert_block ≡ true
    → is_blocked (add_block db blocker blocked rkey s).0 a b
      ≡ (is_blocked s a b || (blocker == a && blocked == b) || (blocker == b && blocked == a))
unfolding is_blocked add_block has_block
is_blocked-add_block db blocker blocked rkey s a b up = ground (
  arith,
  lookup_in-insert_in blocker blocked a b true s.blocks,
  lookup_in-insert_in blocker blocked b a true s.blocks,
)

blocked_of_rkey-add_block :
    (db : Db) (blocker blocked rkey : Text) (s : Store)
    → db insert_block ≡ true
    → rkey ≢ []
    → blocked_of_rkey (add_block db blocker blocked rkey s).0 blocker rkey ≡ blocked
unfolding blocked_of_rkey add_block
blocked_of_rkey-add_block db blocker blocked rkey s up k = ground (
  arith,
  eq_iff rkey [],
  eq_refl blocker,
  eq_refl rkey,
  lookup_in-insert_in blocker rkey blocker rkey blocked s.blocks_by_rkey,
)

-- AddBlock and then RemoveBlockByRKey with the same key, neither of which fails: the answer is the
-- blocked DID, that direction is no longer blocked, and every other pair is as it was.
pub remove_block_by_rkey-add_block :
    (db : Db) (blocker blocked rkey : Text) (s : Store)
    → db insert_block ≡ true
    → db delete_block ≡ true
    → rkey ≢ []
    → blocked ≢ []
    → let (s', result) =
        remove_block_by_rkey db blocker rkey (add_block db blocker blocked rkey s).0 in
      (result ≡ ok blocked)
      × ((a b : Text)
          → has_block s' a b ≡ (if blocker == a && blocked == b then false else has_block s a b))
unfolding remove_block_by_rkey add_block has_block
remove_block_by_rkey-add_block db blocker blocked rkey s up down k b =
    let s' = (add_block db blocker blocked rkey s).0 in
    let found = blocked_of_rkey-add_block db blocker blocked rkey s up k in
    (
      ground (arith, found, eq_iff blocked []),
      λ a c. ground (
        arith,
        found,
        eq_iff blocked [],
        lookup_in-delete_in blocker blocked a c s'.blocks,
        lookup_in-insert_in blocker blocked a c true s.blocks,
      ),
    )

-- A key that is not known is passed over.
pub unknown_key_kept :
    (db : Db) (blocker rkey : Text) (s : Store)
    → blocked_of_rkey s blocker rkey ≡ []
    → (remove_block_by_rkey db blocker rkey s).0 ≡ s
unfolding remove_block_by_rkey
unknown_key_kept db blocker rkey s fresh = ground (arith, fresh, eq_refl [])

pub has_block-add_block :
    (db : Db) (blocker blocked rkey : Text) (s : Store)
    → db insert_block ≡ true
    → has_block (add_block db blocker blocked rkey s).0 blocker blocked ≡ true
unfolding has_block add_block
has_block-add_block db blocker blocked rkey s up = ground (
  arith,
  up,
  lookup_in-insert_in blocker blocked blocker blocked true s.blocks,
  eq_refl blocker,
  eq_refl blocked,
)

-- No row of the blocker has the record key.
abbrev pub LacksKey : Text → Text → List Block → Type 0
LacksKey blocker rkey [] = Unit
LacksKey blocker rkey (r ∷ rows) =
    ((r.blocker_did == blocker && r.rkey == rkey) ≡ false) × LacksKey blocker rkey rows

load_blocks_by_rkey-lacks :
    (a k : Text) (rows : List Block) (m : Map (Map Text))
    → LacksKey a k rows
    → lookup_in a k (load_blocks_by_rkey rows m) ≡ lookup_in a k m
unfolding load_blocks_by_rkey
load_blocks_by_rkey-lacks a k [] m h = refl
load_blocks_by_rkey-lacks a k (r ∷ rows) m (fresh, h) =
    let m' = if not (r.rkey == []) then insert_in r.blocker_did r.rkey r.blocked_did m else m in
    ground (
      arith,
      load_blocks_by_rkey-lacks a k rows m' h,
      lookup_in-insert_in r.blocker_did r.rkey a k r.blocked_did m,
    )

-- A second block record for a pair that already has a row, with a key that no row of the blocker
-- has, is kept in memory alone: INSERT OR IGNORE leaves the rows as they are, with the old key,
-- while the map leads the new key to the blocked DID, so that before a restart RemoveBlockByRKey
-- answers the DID and lifts the block. After a restart that reads the tables to their last rows
-- RemoveBlockByRKey with the second key finds nothing, and the pair stays blocked.
pub second_key_forgotten :
    (db : Db) (blocker blocked rkey : Text) (s t : Store)
    → db insert_block ≡ true
    → db delete_block ≡ true
    → blocked ≢ []
    → rkey ≢ []
    → has_row blocker blocked s.block_rows ≡ true
    → LacksKey blocker rkey s.block_rows
    → ReadsWhole db
    → new db (add_block db blocker blocked rkey s).0 ≡ ok t
    → let u = (add_block db blocker blocked rkey s).0 in
      (u.block_rows ≡ s.block_rows)
      × (blocked_of_rkey u blocker rkey ≡ blocked)
      × ((remove_block_by_rkey db blocker rkey u).1 ≡ ok blocked)
      × (has_block (remove_block_by_rkey db blocker rkey u).0 blocker blocked ≡ false)
      × (remove_block_by_rkey db blocker rkey t ≡ (t, ok []))
      × (has_block t blocker blocked ≡ true)
unfolding new add_block ignore_block remove_block_by_rkey remove_block has_block lookup_in lookup
second_key_forgotten db blocker blocked rkey s t up down b k old lacks whole loaded =
    let u = (add_block db blocker blocked rkey s).0 in
    let (_, blocks, _) = whole in
    let found = blocked_of_rkey-add_block db blocker blocked rkey s up k in
    (
      ground (arith, old, up),
      found,
      ground (arith, found, down, eq_iff blocked []),
      ground (
        arith,
        found,
        down,
        eq_iff blocked [],
        eq_refl blocker,
        eq_refl blocked,
        lookup_in-delete_in blocker blocked blocker blocked u.blocks,
      ),
      ground (
        arith,
        loaded,
        old,
        read_rows_whole db select_blocks 0 s.block_rows blocks,
        load_blocks_by_rkey-lacks blocker rkey s.block_rows [] lacks,
        eq_refl [],
      ),
      ground (arith, loaded, old, new-Blocks db u t whole loaded blocker blocked),
    )
