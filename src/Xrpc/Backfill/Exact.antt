-- ===== src/Xrpc/Backfill/Exact.antt =====
-- blocks.go: which blocks the backfill adds.
use atproto_push_gateway.Base.{
  ℕ, zero, suc, ◌≡◌, ◌≢◌, refl, ◌==◌, eq_iff, Text, Bool, true, not, ◌&&◌, ◌||◌, List, [], ◌∷◌,
  ◌++◌, Option, some, none, some_of, lookup_in-insert_in, Option-cases, Bool-cases, inl, inr, arith,
}
use atproto_push_gateway.Store.{Store, Db, insert_block}
use atproto_push_gateway.Store.Blocks.{add_block, has_block}
use atproto_push_gateway.Xrpc.Backfill.Seeded.{backfill_blocks_others}
use atproto_push_gateway.Xrpc.Backfill.{
  BlockRecord, Page, uri_rkey, seed_record, seed_records, seed_pages, backfill_blocks,
}

-- The records of the pages that follow each other from a cursor, with this many pages allowed: a
-- page that cannot be fetched ends them, and so does an empty cursor.
pub data Fetched (fetch : Text → Option Page) : ℕ → Text → List BlockRecord → Type 0 where
  enough : {cursor : Text} → Fetched fetch 0 cursor []
  failed : {n : ℕ} {cursor : Text} → fetch cursor ≡ none → Fetched fetch (suc n) cursor []
  last :
      {n : ℕ} {cursor : Text} (page : Page)
      → fetch cursor ≡ some page
      → page.cursor ≡ []
      → Fetched fetch (suc n) cursor page.records
  more :
      {n : ℕ} {cursor : Text} {records : List BlockRecord} (page : Page)
      → fetch cursor ≡ some page
      → page.cursor ≢ []
      → Fetched fetch n page.cursor records
      → Fetched fetch (suc n) cursor (page.records ++ records)

-- The record blocks the DID: it is the subject, and neither it nor the record key is empty.
abbrev pub blocks_did : Text → BlockRecord → Bool
blocks_did b rec = rec.subject == b && not (rec.subject == []) && not (uri_rkey rec.uri == [])

some_of-append :
    (p : BlockRecord → Bool) (recs others : List BlockRecord)
    → some_of p (recs ++ others) ≡ (some_of p recs || some_of p others)
some_of-append p [] others = refl
some_of-append p (r ∷ recs) others = ground (arith, some_of-append p recs others)

module _ (db : Db) (actor : Text) (up : db insert_block ≡ true) where
  -- What the actor blocks in the second store is what it blocked in the first, and these records.
  abbrev Adds : List BlockRecord → Store → Store → Type 0
  Adds recs s t =
      (b : Text) → has_block t actor b ≡ (has_block s actor b || some_of (blocks_did b) recs)

  seed_record-Adds :
      (rec : BlockRecord) (s : Store) → Adds (rec ∷ []) s (seed_record db actor rec s)
  unfolding seed_record add_block has_block
  seed_record-Adds rec s b = ground (
    arith,
    up,
    eq_iff rec.subject b,
    lookup_in-insert_in actor rec.subject actor b true s.blocks,
    eq_iff actor actor,
  )

  seed_records-Adds :
      (recs : List BlockRecord) (s : Store) → Adds recs s (seed_records db actor recs s)
  unfolding seed_records
  seed_records-Adds [] s b = ground arith
  seed_records-Adds (rec ∷ recs) s b =
      ground
        (arith, seed_records-Adds recs (seed_record db actor rec s) b, seed_record-Adds rec s b)

  seed_pages-Adds :
      (n : ℕ) (fetch : Text → Option Page) (cursor : Text) (s : Store)
      → (recs : List BlockRecord) × Fetched fetch n cursor recs
        × Adds recs s (seed_pages db actor n fetch cursor s)
  unfolding seed_pages
  seed_pages-Adds zero fetch cursor s = ([], enough, λ b. ground arith)
  seed_pages-Adds (suc n) fetch cursor s = elim (Option-cases (fetch cursor)) [
    | inl gone ↦ ([], failed gone, λ b. ground (arith, gone))
    | inr (page, there) ↦
        (let s' = seed_records db actor page.records s in
          let added = seed_records-Adds page.records s in
          elim (Bool-cases (page.cursor == [])) [
            | inl done ↦ (
              page.records,
              last page there ((eq_iff page.cursor []).0 done),
              λ b. ground (arith, there, done, added b),
            )
            | inr open_yet ↦
                (let (recs, pages, rest) = seed_pages-Adds n fetch page.cursor s' in
                  (
                    page.records ++ recs,
                    more page there (λ e. ground (arith, eq_iff page.cursor [])) pages,
                    λ b. ground (
                      arith,
                      there,
                      open_yet,
                      added b,
                      rest b,
                      some_of-append (blocks_did b) page.records recs,
                    ),
                  ))
          ])
  ]

  -- If the inserts succeed, then after the backfill the actor blocks whom it blocked before and the
  -- subjects of the records on the pages that follow each other from the empty cursor, at most 20
  -- and up to the first that cannot be fetched or has no next cursor, less the records with an empty
  -- subject or an empty record key; and nobody else. The blocks of every other account and the
  -- tokens are as before.
  pub backfill_blocks_exact :
      (fetch : Text → Option Page) (s : Store)
      → (recs : List BlockRecord) × Fetched fetch 20 [] recs
        × ((b : Text)
            → has_block (backfill_blocks db actor fetch s) actor b
              ≡ (has_block s actor b || some_of (blocks_did b) recs))
        × ((a b : Text)
            → a ≢ actor
            → has_block (backfill_blocks db actor fetch s) a b ≡ has_block s a b)
        × ((backfill_blocks db actor fetch s).push_tokens ≡ s.push_tokens)
  unfolding backfill_blocks
  backfill_blocks_exact fetch s =
      let (recs, pages, added) = seed_pages-Adds 20 fetch [] s in
      (
        recs,
        pages,
        added,
        λ a b other. (backfill_blocks_others actor db fetch s).0 a b other,
        (backfill_blocks_others actor db fetch s).1,
      )
