-- ===== src/Store/Tests.antt =====
-- Runs of the store at fixed inputs.
use atproto_push_gateway.Base.{
  ◌≡◌, refl, ◌==◌, Text, true, false, List, [], ◌∷◌, none, lit, ok, lookup, insert, delete,
  lookup_in, insert_in, delete_in, map, nat_eq, Result, err,
}
use atproto_push_gateway.Store.{Store, PushToken, WebPushEndpoint, Db, Error, count_tokens, next}
use atproto_push_gateway.Store.Rows.{read_rows, precedes, insert_by, order_by, distinct}
use atproto_push_gateway.Store.Load.Restart.{ReadsWhole}
use atproto_push_gateway.Store.Load.Partial.{new_partial}
use atproto_push_gateway.Store.Tokens.Registered.{has_tokens}
use atproto_push_gateway.Store.Blocks.Agreement.{has_row}
use atproto_push_gateway.Store.Tokens.{
  is_registered, register_token, unregister_token, get_tokens_for_did,
}
use atproto_push_gateway.Store.Blocks.{
  add_block, ignore_block, remove_block_by_rkey, blocked_of_rkey, has_block, is_blocked,
}
use atproto_push_gateway.Store.Blocks.Unblock.{second_key_forgotten}
use atproto_push_gateway.Store.Verifications.{subject_of_rkey}
use atproto_push_gateway.Store.Endpoints.{
  create_webpush_endpoint, get_webpush_endpoint, delete_webpush_endpoint, find_row, insert_row,
}
use atproto_push_gateway.Store.Load.{
  new, actor_dids, load_dids, load_blocks, load_blocks_by_rkey, load_verifications,
}
use atproto_push_gateway.Store.History.{
  Operation, register, unregister, block, unblock_rkey, restart, step, run, empty, IsConsistent,
}
use atproto_push_gateway.Store.History.Consistency.{run-IsConsistent, new_transparent}

abbrev map_tokens : Result Error (List PushToken) → List Text
map_tokens (ok rows) = map (λ t. t.push_token) rows
map_tokens (err e) = []

abbrev up : Db
up = λ _. true

abbrev same : Text → Text
same id = id

abbrev device : WebPushEndpoint
device = record {
  platform = lit "ios";
  device_token = lit "token";
  app_id = lit "app";
  vapid_public_key = [];
  instance_host = lit "host";
}

abbrev one_endpoint : Store
one_endpoint = record empty {
  endpoint_rows = record { endpoint_hash = lit "id"; endpoint = device; last_push_at = none } ∷ [];
}

program : Unit {0}
unfolding create_webpush_endpoint get_webpush_endpoint delete_webpush_endpoint find_row insert_row
    add_block ignore_block remove_block_by_rkey blocked_of_rkey has_block is_blocked register_token
    unregister_token is_registered new read_rows precedes insert_by order_by distinct
    get_tokens_for_did run step insert delete lookup lookup_in insert_in delete_in ◌==◌
program = tt

abbrev up_whole : ReadsWhole up
up_whole = (λ n. refl, λ n. refl, λ n. refl)

abbrev operations : List Operation
operations =
    register up (lit "alice") (lit "ios") (lit "t1") (lit "app")
    ∷ register up (lit "alice") (lit "android") (lit "t2") (lit "app")
    ∷ block up (lit "bob") (lit "alice") (lit "rk")
    ∷ unregister up (lit "alice") (lit "ios") (lit "t1") (lit "app")
    ∷ restart up
    ∷ unblock_rkey up (lit "bob") (lit "rk")
    ∷ []

still_registered : is_registered (run operations empty) (lit "alice") ≡ true
unfolding program
still_registered = refl

-- The second call of Next on the tokens, or on the DIDs, fails.
abbrev broken : Db
broken s = elim s [ next query n ↦ nat_eq n 0 | _ ↦ true ]

abbrev two_tokens : Store
two_tokens =
    run
      (register up (lit "bob") (lit "ios") (lit "t2") (lit "app")
        ∷ register up (lit "alice") (lit "ios") (lit "t3") (lit "app")
        ∷ register up (lit "alice") (lit "ios") (lit "t1") (lit "app")
        ∷ [])
      empty

-- The tokens come in their own order, and not in that of the registrations.
tokens_in_order :
    map_tokens (get_tokens_for_did up two_tokens (lit "alice")) ≡ lit "t1" ∷ lit "t3" ∷ []
unfolding program
tokens_in_order = refl

-- A read that ends early answers a part of the tokens, and no error.
tokens_cut_short : map_tokens (get_tokens_for_did broken two_tokens (lit "alice")) ≡ lit "t1" ∷ []
unfolding program
tokens_cut_short = refl

-- New succeeds all the same, and bob does not count as registered from then on.
restart_cut_short :
    (is_registered (step (restart broken) two_tokens) (lit "alice") ≡ true)
    × (is_registered (step (restart broken) two_tokens) (lit "bob") ≡ false)
    × (is_registered two_tokens (lit "bob") ≡ true)
unfolding program
restart_cut_short = (refl, refl, refl)

new_partial_example :
    (t : Store) × (new broken two_tokens ≡ ok t)
    × ((d : Text) → is_registered t d ≡ true → has_tokens d two_tokens.push_tokens ≡ true)
    × ((a b : Text) → has_block t a b ≡ true → has_row a b two_tokens.block_rows ≡ true)
new_partial_example = new_partial broken two_tokens refl refl refl

-- A count that fails takes the DID off the registered ones, although a token is left.
count_fails :
    is_registered
      (run
        (register up (lit "alice") (lit "ios") (lit "t1") (lit "app")
          ∷ register up (lit "alice") (lit "ios") (lit "t2") (lit "app")
          ∷ unregister
              (λ s. elim s [ count_tokens ↦ false | _ ↦ true ])
              (lit "alice")
              (lit "ios")
              (lit "t1")
              (lit "app")
          ∷ [])
        empty)
      (lit "alice")
    ≡ false
unfolding program
count_fails = refl

run-IsConsistent_example : IsConsistent (run operations empty)
run-IsConsistent_example =
    run-IsConsistent operations (tt, (tt, (tt, (refl, (up_whole, (tt, tt))))))

abbrev before : Store
before = run operations empty

abbrev after : Store
after = record before {
  registered_dids = load_dids (actor_dids before.push_tokens) [];
  blocks = load_blocks before.block_rows [];
  blocks_by_rkey = load_blocks_by_rkey before.block_rows [];
  verifications_by_rkey = load_verifications before.verification_rows [];
}

reloaded : new up before ≡ ok after
unfolding program
reloaded = refl

new_transparent_example :
    ((d : Text) → is_registered after d ≡ is_registered before d)
    × ((a b : Text) → is_blocked after a b ≡ is_blocked before a b)
    × ((v k : Text) → subject_of_rkey after v k ≡ subject_of_rkey before v k)
new_transparent_example =
    new_transparent up before after up_whole
      (run-IsConsistent operations (tt, (tt, (tt, (refl, (up_whole, (tt, tt))))))) reloaded

abbrev one_block : Store
one_block = record empty {
  block_rows = record { blocker_did = lit "bob"; blocked_did = lit "alice"; rkey = lit "rk" } ∷ [];
  blocks = (lit "bob", (lit "alice", true) ∷ []) ∷ [];
  blocks_by_rkey = (lit "bob", (lit "rk", lit "alice") ∷ []) ∷ [];
}

abbrev second_block : Store
second_block = (add_block up (lit "bob") (lit "alice") (lit "rk2") one_block).0

second_key_forgotten_example :
    (second_block.block_rows ≡ one_block.block_rows)
    × (blocked_of_rkey second_block (lit "bob") (lit "rk2") ≡ lit "alice")
    × ((remove_block_by_rkey up (lit "bob") (lit "rk2") second_block).1 ≡ ok (lit "alice"))
    × (has_block
          (remove_block_by_rkey up (lit "bob") (lit "rk2") second_block).0
          (lit "bob")
          (lit "alice")
        ≡ false)
    × (remove_block_by_rkey up (lit "bob") (lit "rk2") one_block ≡ (one_block, ok []))
    × (has_block one_block (lit "bob") (lit "alice") ≡ true)
unfolding program
second_key_forgotten_example =
    second_key_forgotten up (lit "bob") (lit "alice") (lit "rk2") one_block one_block refl refl
      (λ e. cc) (λ e. cc) refl (refl, tt) up_whole refl

-- A hash under which all ids collide.
abbrev colliding : Text → Text
colliding id = lit "id"
