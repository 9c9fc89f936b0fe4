-- ===== src/Xrpc/Backfill/Overtaken.antt =====
-- A record of a page that was fetched, and the deletion of that record, which the consumer handles
-- meanwhile.
use atproto_push_gateway.Base.{◌≡◌, ◌≢◌, eq_iff, eq_refl, Text, true, false, [], arith, ap, ◌∙◌}
use atproto_push_gateway.Store.{Store, Db, insert_block, delete_block}
use atproto_push_gateway.Store.Blocks.{add_block, remove_block_by_rkey, blocked_of_rkey, has_block}
use atproto_push_gateway.Store.Blocks.Unblock.{
  remove_block_by_rkey-add_block, unknown_key_kept, has_block-add_block,
}
use atproto_push_gateway.Xrpc.Backfill.{BlockRecord, uri_rkey, seed_record}

module _ (db : Db) (actor : Text) (rec : BlockRecord) where
  -- RemoveBlockByRKey with the key of the record, as the handler of its deletion calls it.
  abbrev pub deleted : Store → Store
  deleted s = (remove_block_by_rkey db actor (uri_rkey rec.uri) s).0

  seeded_of :
      (s : Store)
      → rec.subject ≢ []
      → uri_rkey rec.uri ≢ []
      → seed_record db actor rec s ≡ (add_block db actor rec.subject (uri_rkey rec.uri) s).0
  unfolding seed_record
  seeded_of s someone keyed = ground (arith, eq_iff rec.subject [], eq_iff (uri_rkey rec.uri) [])

  -- Where a fetched record has a subject and a key that is not yet known, and the database does not
  -- fail, deleting the record after the backfill has seeded it takes the block away, and deleting it
  -- before leaves the subject blocked.
  pub overtaken_seeded :
      (s : Store)
      → rec.subject ≢ []
      → uri_rkey rec.uri ≢ []
      → blocked_of_rkey s actor (uri_rkey rec.uri) ≡ []
      → db insert_block ≡ true
      → db delete_block ≡ true
      → (has_block (deleted (seed_record db actor rec s)) actor rec.subject ≡ false)
        × (has_block (seed_record db actor rec (deleted s)) actor rec.subject ≡ true)
  overtaken_seeded s someone keyed fresh up down =
      let rkey = uri_rkey rec.uri in
      let (_, rest) =
        remove_block_by_rkey-add_block db actor rec.subject rkey s up down keyed someone in
      let kept = unknown_key_kept db actor rkey s fresh in
      (
        ap (λ t. has_block (remove_block_by_rkey db actor rkey t).0 actor rec.subject)
              (seeded_of s someone keyed)
            ∙ ground (arith, rest actor rec.subject, eq_refl actor, eq_refl rec.subject),
        ap (λ t. has_block (seed_record db actor rec t) actor rec.subject) kept
            ∙ ap (λ t. has_block t actor rec.subject) (seeded_of s someone keyed)
            ∙ has_block-add_block db actor rec.subject rkey s up,
      )
