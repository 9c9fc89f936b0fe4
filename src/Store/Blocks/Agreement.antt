-- ===== src/Store/Blocks/Agreement.antt =====
-- The blocks in memory against the rows of the table blocks, and what IsBlocked answers.
use atproto_push_gateway.Base.{
  ◌≡◌, ◌==◌, eq_iff, Text, Bool, true, false, not, ◌&&◌, List, [], ◌∷◌, some_of, some_of-append,
  keep, Bool-cases, inl, inr, arith, if◌then◌else◌, lookup_in-insert_in, lookup_in-delete_in,
}
use atproto_push_gateway.Store.{Store, Block, Db}
use atproto_push_gateway.Store.Blocks.{
  is_pair, ignore_block, add_block, remove_block, remove_block_by_rkey, blocked_of_rkey, has_block,
}

abbrev pub has_row : Text → Text → List Block → Bool
has_row a b = some_of (is_pair a b)

-- A block stands in memory exactly when it has a row.
abbrev pub Blocks : Store → Type 0
Blocks s = (a b : Text) → has_block s a b ≡ has_row a b s.block_rows

has_row-ignore_block :
    (a b : Text) (r : Block) (rows : List Block)
    → has_row a b (ignore_block r rows)
      ≡ (if r.blocker_did == a && r.blocked_did == b then true else has_row a b rows)
unfolding ignore_block
has_row-ignore_block a b r rows = elim (Bool-cases (has_row r.blocker_did r.blocked_did rows)) [
  | inl old ↦ rw old (ground (arith, old, eq_iff r.blocker_did a, eq_iff r.blocked_did b))
  | inr new ↦ rw new (rw (some_of-append (is_pair a b)) (ground arith))
]

has_row-removed :
    (a b c d : Text) (rows : List Block)
    → has_row c d (keep (λ r. not (is_pair a b r)) rows)
      ≡ (if a == c && b == d then false else has_row c d rows)
has_row-removed a b c d [] = ground arith
has_row-removed a b c d (r ∷ rows) = ground (
  arith,
  eq_iff a c,
  eq_iff b d,
  eq_iff r.blocker_did a,
  eq_iff r.blocked_did b,
  eq_iff r.blocker_did c,
  eq_iff r.blocked_did d,
  has_row-removed a b c d rows,
)

pub add_block-Blocks :
    (db : Db) (blocker blocked rkey : Text) (s : Store)
    → Blocks s
    → Blocks (add_block db blocker blocked rkey s).0
unfolding add_block has_block
add_block-Blocks db blocker blocked rkey s agrees = λ a b.
    let row : Block = record { blocker_did = blocker; blocked_did = blocked; rkey = rkey } in
    ground (
      arith,
      agrees a b,
      lookup_in-insert_in blocker blocked a b true s.blocks,
      has_row-ignore_block a b row s.block_rows,
    )

pub remove_block-Blocks :
    (db : Db) (blocker blocked : Text) (s : Store)
    → Blocks s
    → Blocks (remove_block db blocker blocked s).0
unfolding remove_block has_block
remove_block-Blocks db blocker blocked s agrees = λ a b. ground (
  arith,
  agrees a b,
  lookup_in-delete_in blocker blocked a b s.blocks,
  has_row-removed blocker blocked a b s.block_rows,
)

pub remove_block_by_rkey-Blocks :
    (db : Db) (blocker rkey : Text) (s : Store)
    → Blocks s
    → Blocks (remove_block_by_rkey db blocker rkey s).0
unfolding remove_block_by_rkey has_block
remove_block_by_rkey-Blocks db blocker rkey s agrees = λ a b. ground (
  arith,
  agrees a b,
  lookup_in-delete_in blocker (blocked_of_rkey s blocker rkey) a b s.blocks,
  has_row-removed blocker (blocked_of_rkey s blocker rkey) a b s.block_rows,
)
