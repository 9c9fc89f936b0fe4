-- ===== src/Store/Tokens/Interleaved/Race.antt =====
-- What a registration loses to an unregistration that is under way.
use atproto_push_gateway.Base.{
  ◌≡◌, ◌≤◌, eq_refl, Text, true, false, not, List, [], ◌∷◌, some_of, some_of-append,
  some_of-length-keep, lookup-delete, insert, keep, arith,
}
use atproto_push_gateway.Store.{Store, PushToken, Db}
use atproto_push_gateway.Store.Tokens.{
  is_of, has_key, is_platform, replace_token, register_token, without_token, count_after,
  is_registered,
}
use atproto_push_gateway.Store.Tokens.Cap.{count_of, count_other}
use atproto_push_gateway.Store.Tokens.Interleaved.{
  Event, register, unregister, resume, take_task, begin_register, begin_unregister, perform_task,
  step, run,
}
use atproto_push_gateway.Store.Tokens.Interleaved.{idle}

abbrev up : Db
up _ = true

-- The unregistration counts, the registration runs, and the unregistration writes the map.
abbrev pub overtaken : (did platform token app : Text) → List Event
overtaken did platform token app =
    unregister up did platform token app
    ∷ resume up 0
    ∷ register up did platform token app
    ∷ resume up 1
    ∷ resume up 0
    ∷ []

count_other-le :
    (d token : Text) (rows : List PushToken) → count_other d token rows ≤ count_of d rows
count_other-le d token [] = omega arith
count_other-le d token (r ∷ rows) = ground (arith, count_other-le d token rows)

-- A DID whose only token is unregistered and registered again at once can end with the token in
-- the table, both calls done without an error, and the DID not registered in memory.
pub overtaken_unregistered :
    (did platform token app : Text) (s : Store)
    → is_platform platform ≡ true
    → some_of (is_of did) (without_token did platform token app s.push_tokens) ≡ false
    → ((run (overtaken did platform token app) (idle s)).tasks ≡ [])
      × (some_of (is_of did) (run (overtaken did platform token app) (idle s)).store.push_tokens
          ≡ true)
      × (is_registered (run (overtaken did platform token app) (idle s)).store did ≡ false)
unfolding run step begin_register begin_unregister take_task perform_task register_token
    replace_token count_after is_registered
overtaken_unregistered did platform token app s known alone =
    let row : PushToken = record {
      actor_did = did;
      platform = platform;
      push_token = token;
      app_id = app;
    } in
    let rows = without_token did platform token app s.push_tokens in
    ground (
      arith,
      known,
      alone,
      eq_refl did,
      some_of-length-keep (is_of did) rows,
      count_other-le did token rows,
      some_of-append (is_of did) (keep (λ r. not (has_key did token r)) rows) (row ∷ []),
      lookup-delete did did (insert did true s.registered_dids),
    )
