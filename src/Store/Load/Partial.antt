-- ===== src/Store/Load/Partial.antt =====
-- store.go: New when a read of a table ends early.
use atproto_push_gateway.Base.{
  ℕ, suc, ◌≡◌, ◌∙◌, sym, ◌==◌, Text, Bool, true, List, [], ◌∷◌, some_of, ok, lookup, lookup_in,
  arith,
}
use atproto_push_gateway.Store.{
  Store, Db, Statement, select_dids, select_blocks, select_verifications,
}
use atproto_push_gateway.Store.Rows.{read_rows}
use atproto_push_gateway.Store.Load.{
  actor_dids, load_dids, load_blocks, load_blocks_by_rkey, load_verifications, new,
}
use atproto_push_gateway.Store.Load.Restart.{
  lookup-load_dids, some_of-actor_dids, lookup_in-load_blocks,
}
use atproto_push_gateway.Store.Tokens.{is_registered}
use atproto_push_gateway.Store.Tokens.Registered.{has_tokens}
use atproto_push_gateway.Store.Blocks.{is_pair, has_block}
use atproto_push_gateway.Store.Blocks.Agreement.{has_row}

some_of-read_rows :
    {A : Type 0} (p : A → Bool) (db : Db) (query : Statement) (n : ℕ) (rows : List A)
    → some_of p (read_rows db query n rows) ≡ true
    → some_of p rows ≡ true
unfolding read_rows
some_of-read_rows p db query n [] found = found
some_of-read_rows p db query n (r ∷ rows) found =
    ground (arith, found, some_of-read_rows p db query (suc n) rows)

-- Once its three queries begin, New succeeds, wherever the reads of the rows end; and then each DID
-- that counts as registered has a token row, and each block in memory has its row.
pub new_partial :
    (db : Db) (s : Store)
    → db select_dids ≡ true
    → db select_blocks ≡ true
    → db select_verifications ≡ true
    → (t : Store) × (new db s ≡ ok t)
      × ((d : Text) → is_registered t d ≡ true → has_tokens d s.push_tokens ≡ true)
      × ((a b : Text) → has_block t a b ≡ true → has_row a b s.block_rows ≡ true)
unfolding new is_registered has_block lookup_in lookup
new_partial db s dids blocks verifications =
    let rows = actor_dids s.push_tokens in
    let did_rows = read_rows db select_dids 0 rows in
    let block_rows = read_rows db select_blocks 0 s.block_rows in
    let verification_rows = read_rows db select_verifications 0 s.verification_rows in
    (
      record s {
        registered_dids = load_dids did_rows [];
        blocks = load_blocks block_rows [];
        blocks_by_rkey = load_blocks_by_rkey block_rows [];
        verifications_by_rkey = load_verifications verification_rows [];
      },
      ground (arith, dids, blocks, verifications),
      λ d h.
          sym (some_of-actor_dids d s.push_tokens)
          ∙ some_of-read_rows (λ u. u == d) db select_dids 0 rows
              (ground (arith, h, lookup-load_dids d did_rows [])),
      λ a b h.
          some_of-read_rows (is_pair a b) db select_blocks 0 s.block_rows
            (ground (arith, h, lookup_in-load_blocks a b block_rows [])),
    )
