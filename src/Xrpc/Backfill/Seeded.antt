-- ===== src/Xrpc/Backfill/Seeded.antt =====
-- What the backfill of an actor's blocks can change.
use atproto_push_gateway.Base.{
  ℕ, zero, suc, ◌≡◌, ◌≢◌, refl, ◌∙◌, ◌==◌, eq_iff, Text, true, List, [], ◌∷◌, Option,
  lookup_in-insert_in, Option-cases, Bool-cases, inl, inr, arith,
}
use atproto_push_gateway.Store.{Store, Db}
use atproto_push_gateway.Store.Blocks.{add_block, has_block}
use atproto_push_gateway.Xrpc.Backfill.{
  BlockRecord, Page, max_pages, uri_rkey, seed_record, seed_records, seed_pages, backfill_blocks,
}

module _ (actor : Text) where
  -- From one store to a later one: the blocks of others are the same, and the tokens too.
  pub record Seeds (s t : Store) : Type 0 where
    pub others : (a b : Text) → a ≢ actor → has_block t a b ≡ has_block s a b
    pub tokens : t.push_tokens ≡ s.push_tokens

  Seeds-refl : (s : Store) → Seeds s s
  Seeds-refl s = record { others = λ a b h. refl; tokens = refl }

  Seeds-trans : {s t u : Store} → Seeds s t → Seeds t u → Seeds s u
  Seeds-trans p q = record {
    others = λ a b h. q.others a b h ∙ p.others a b h;
    tokens = q.tokens ∙ p.tokens;
  }

  add_block-Seeds :
      (db : Db) (blocked rkey : Text) (s : Store) → Seeds s (add_block db actor blocked rkey s).0
  unfolding add_block has_block
  add_block-Seeds db blocked rkey s = record {
    others = λ a b h.
        ground (arith, eq_iff actor a, lookup_in-insert_in actor blocked a b true s.blocks);
    tokens = ground arith;
  }

  module _ (db : Db) where
    seed_record-Seeds : (rec : BlockRecord) (s : Store) → Seeds s (seed_record db actor rec s)
    unfolding seed_record
    seed_record-Seeds rec s = elim (Bool-cases (rec.subject == [])) [
      | inl nobody ↦ rw nobody (Seeds-refl s)
      | inr someone ↦ elim (Bool-cases (uri_rkey rec.uri == [])) [
        | inl keyless ↦ rw (someone, keyless) (Seeds-refl s)
        | inr keyed ↦ rw (someone, keyed) (add_block-Seeds db rec.subject (uri_rkey rec.uri) s)
      ]
    ]

    seed_records-Seeds :
        (recs : List BlockRecord) (s : Store) → Seeds s (seed_records db actor recs s)
    unfolding seed_records
    seed_records-Seeds [] s = Seeds-refl s
    seed_records-Seeds (rec ∷ recs) s =
        Seeds-trans (seed_record-Seeds rec s) (seed_records-Seeds recs (seed_record db actor rec s))

    seed_pages-Seeds :
        (n : ℕ) (fetch : Text → Option Page) (cursor : Text) (s : Store)
        → Seeds s (seed_pages db actor n fetch cursor s)
    unfolding seed_pages
    seed_pages-Seeds zero fetch cursor s = Seeds-refl s
    seed_pages-Seeds (suc n) fetch cursor s = elim (Option-cases (fetch cursor)) [
      | inl failed ↦ rw (failed, seed_pages) (Seeds-refl s)
      | inr (page, fetched) ↦
          (let seeded = seed_records-Seeds page.records s in
            elim (Bool-cases (page.cursor == [])) [
              | inl last ↦ rw (fetched, seed_pages, last) seeded
              | inr more ↦
                  rw (fetched, seed_pages, more)
                    (Seeds-trans seeded
                      (seed_pages-Seeds n fetch page.cursor (seed_records db actor page.records s)))
            ])
    ]

    seeded : (fetch : Text → Option Page) (s : Store) → Seeds s (backfill_blocks db actor fetch s)
    unfolding backfill_blocks
    seeded fetch s = seed_pages-Seeds max_pages fetch [] s

    -- Whatever pages are fetched and whether the database fails, the backfill of an actor leaves
    -- the blocks of every other account and all tokens as they are.
    pub backfill_blocks_others :
        (fetch : Text → Option Page) (s : Store)
        → ((a b : Text)
            → a ≢ actor
            → has_block (backfill_blocks db actor fetch s) a b ≡ has_block s a b)
          × ((backfill_blocks db actor fetch s).push_tokens ≡ s.push_tokens)
    backfill_blocks_others fetch s = ((seeded fetch s).others, (seeded fetch s).tokens)
