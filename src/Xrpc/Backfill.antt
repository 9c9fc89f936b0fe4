-- ===== src/Xrpc/Backfill.antt =====
-- blocks.go: backfillBlocks and uriRKey. Fetching a page is an argument: the records with the
-- subject and URI of each and the next cursor, none where the source returns early.
pub mod Seeded
pub mod Exact
pub mod Overtaken
use atproto_push_gateway.Base.{
  ℕ, zero, suc, ◌==◌, Text, Bool, not, List, [], ◌∷◌, Option, none, some, if◌then◌else◌, after_last,
}
use atproto_push_gateway.Store.{Store, Db}
use atproto_push_gateway.Store.Blocks.{add_block}

pub record BlockRecord : Type 0 where
  pub uri : Text
  pub subject : Text

pub record Page : Type 0 where
  pub records : List BlockRecord
  pub cursor : Text

abbrev pub max_pages : ℕ
max_pages = 20

unfoldable pub uri_rkey : Text → Text
uri_rkey uri = elim (after_last b'/' uri) [ none ↦ [] | some rkey ↦ rkey ]

module _ (db : Db) (actor : Text) where
  -- One record; an error of AddBlock is logged and the loop goes on.
  unfoldable pub seed_record : BlockRecord → Store → Store
  unfolding uri_rkey
  seed_record rec s =
      if rec.subject == []
      then s
      else if uri_rkey rec.uri == []
      then s
      else (add_block db actor rec.subject (uri_rkey rec.uri) s).0

  unfoldable pub seed_records : List BlockRecord → Store → Store
  unfolding seed_record
  seed_records [] s = s
  seed_records (rec ∷ recs) s = seed_records recs (seed_record rec s)

  -- The loop over the pages, from a cursor.
  unfoldable pub seed_pages :
      (pages : ℕ) → (fetch : Text → Option Page) → (cursor : Text) → Store → Store
  unfolding seed_records
  seed_pages zero fetch cursor s = s
  seed_pages (suc n) fetch cursor s = elim (fetch cursor) [
    | none ↦ s
    | some page ↦
        (let s' = seed_records page.records s in
          let rest = seed_pages n fetch page.cursor s' in if page.cursor == [] then s' else rest)
  ]

  unfoldable pub backfill_blocks : (fetch : Text → Option Page) → Store → Store
  unfolding seed_pages
  backfill_blocks fetch s = seed_pages max_pages fetch [] s
