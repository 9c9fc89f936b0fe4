-- ===== src/Store/Load/Restart.antt =====
-- What New reads back from the tables.
use atproto_push_gateway.Base.{
  ◌≡◌, ◌∙◌, refl, eq_iff, Text, Bool, true, List, [], ◌∷◌, Map, some, none, Option, arith,
  if◌then◌else◌, ◌==◌, some_of, map, ok, lookup, lookup_in, insert, insert_in, lookup-insert,
  lookup_in-insert_in,
}
use atproto_push_gateway.Store.{
  Store, PushToken, Block, Verification, Db, select_dids, select_blocks, select_verifications,
}
use atproto_push_gateway.Store.Rows.{
  IsWhole, read_rows_whole, distinct, some_of-order_by, some_of-distinct,
}
use atproto_push_gateway.Store.Load.{actor_dids, load_dids, load_blocks, load_verifications, new}
use atproto_push_gateway.Store.Tokens.{is_registered}
use atproto_push_gateway.Store.Tokens.Registered.{has_tokens, Registers}
use atproto_push_gateway.Store.Blocks.{has_block}
use atproto_push_gateway.Store.Blocks.Agreement.{has_row, Blocks}
use atproto_push_gateway.Store.Verifications.Agreement.{find_subject, Verifies}
use atproto_push_gateway.Store.Verifications.Keys.{IsKeyed}

-- No read of the three loops ends before the last row.
abbrev pub ReadsWhole : Db → Type 0
ReadsWhole db = IsWhole db select_dids × IsWhole db select_blocks × IsWhole db select_verifications

pub lookup-load_dids :
    (d : Text) (rows : List Text) (m : Map Bool)
    → lookup d (load_dids rows m) ≡ (if some_of (λ u. u == d) rows then some true else lookup d m)
unfolding load_dids
lookup-load_dids d [] m = refl
lookup-load_dids d (did ∷ rows) m =
    ground
      (arith, lookup-load_dids d rows (insert did true m), lookup-insert did d true m, eq_iff did d)

some_of-map :
    (d : Text) (rows : List PushToken)
    → some_of (λ u. u == d) (map (λ t. t.actor_did) rows) ≡ has_tokens d rows
some_of-map d [] = refl
some_of-map d (t ∷ rows) = ground (arith, some_of-map d rows)

pub some_of-actor_dids :
    (d : Text) (rows : List PushToken) → some_of (λ u. u == d) (actor_dids rows) ≡ has_tokens d rows
unfolding actor_dids
some_of-actor_dids d rows =
    let dids = map (λ t. t.actor_did) rows in
    some_of-order_by (λ u. u) (λ u. u == d) (distinct dids)
    ∙ some_of-distinct d dids
    ∙ some_of-map d rows

pub lookup_in-load_blocks :
    (a b : Text) (rows : List Block) (m : Map (Map Bool))
    → lookup_in a b (load_blocks rows m) ≡ (if has_row a b rows then some true else lookup_in a b m)
unfolding load_blocks
lookup_in-load_blocks a b [] m = refl
lookup_in-load_blocks a b (r ∷ rows) m = ground (
  arith,
  lookup_in-load_blocks a b rows (insert_in r.blocker_did r.blocked_did true m),
  lookup_in-insert_in r.blocker_did r.blocked_did a b true m,
)

-- The subject found first, or else what stood in the map before.
abbrev or_else : Option Text → Option Text → Option Text
or_else (some a) o = some a
or_else none o = o

lookup_in-load_verifications :
    (v k : Text) (rows : List Verification) (m : Map (Map Text))
    → IsKeyed rows
    → lookup_in v k (load_verifications rows m) ≡ or_else (find_subject v k rows) (lookup_in v k m)
unfolding load_verifications
lookup_in-load_verifications v k [] m h = refl
lookup_in-load_verifications v k (r ∷ rows) m (fresh, h) = ground (
  arith,
  eq_iff r.verifier_did v,
  eq_iff r.rkey k,
  lookup_in-load_verifications v k rows (insert_in r.verifier_did r.rkey r.subject_did m) h,
  lookup_in-insert_in r.verifier_did r.rkey v k r.subject_did m,
)

module _ (db : Db) (s t : Store) (whole : ReadsWhole db) (loaded : new db s ≡ ok t) where
  pub new-Registers : Registers t
  unfolding new is_registered lookup
  new-Registers d =
      let (dids, _, _) = whole in
      let rows = actor_dids s.push_tokens in
      ground (
        arith,
        loaded,
        read_rows_whole db select_dids 0 rows dids,
        lookup-load_dids d rows [],
        some_of-actor_dids d s.push_tokens,
      )

  pub new-Blocks : Blocks t
  unfolding new has_block lookup_in lookup
  new-Blocks a b =
      let (_, blocks, _) = whole in
      ground (
        arith,
        loaded,
        read_rows_whole db select_blocks 0 s.block_rows blocks,
        lookup_in-load_blocks a b s.block_rows [],
      )

  pub new-Verifies : IsKeyed s.verification_rows → Verifies t
  unfolding new lookup_in lookup
  new-Verifies h v k =
      let (_, _, verifications) = whole in
      ground (
        arith,
        loaded,
        read_rows_whole db select_verifications 0 s.verification_rows verifications,
        lookup_in-load_verifications v k s.verification_rows [] h,
      )
