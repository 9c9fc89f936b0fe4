-- ===== src/Store/Tokens/Tests.antt =====
-- Schedules of calls of the store at fixed inputs.
use atproto_push_gateway.Base.{
  ◌≡◌, refl, ◌==◌, true, false, List, [], ◌∷◌, some_of, lit, lookup, insert, delete,
}
use atproto_push_gateway.Store.{Store, Db}
use atproto_push_gateway.Store.History.{empty}
use atproto_push_gateway.Store.Tokens.{
  is_of, is_platform, replace_token, register_token, count_after, is_registered,
}
use atproto_push_gateway.Store.Tokens.Interleaved.{
  Event, register, unregister, resume, take_task, begin_register, begin_unregister, perform_task,
  step, run,
}
use atproto_push_gateway.Store.Tokens.Interleaved.{idle}
use atproto_push_gateway.Store.Tokens.Interleaved.Consistent.{AreOrderly, run_registered}
use atproto_push_gateway.Store.Tokens.Interleaved.Race.{overtaken, overtaken_unregistered}

abbrev up : Db
up = λ _. true

program : Unit {0}
unfolding lookup insert delete ◌==◌ is_platform replace_token register_token count_after
    is_registered take_task begin_register begin_unregister perform_task step run AreOrderly
program = tt

-- Bob's first device goes while his second one comes: its transaction, the count, and the map.
abbrev devices : List Event
devices =
    register up (lit "did:bob") (lit "ios") (lit "t") (lit "app")
    ∷ resume up 0
    ∷ unregister up (lit "did:bob") (lit "ios") (lit "t") (lit "app")
    ∷ register up (lit "did:bob") (lit "web") (lit "u") (lit "app")
    ∷ resume up 0
    ∷ resume up 0
    ∷ []

devices-AreOrderly : AreOrderly devices (idle empty)
unfolding program
devices-AreOrderly = (refl, (refl, (tt, (refl, (refl, (refl, tt))))))

run_registered_example : is_registered (run devices (idle empty)).store (lit "did:bob") ≡ true
unfolding program
run_registered_example =
    run_registered devices (idle empty) (lit "did:bob") devices-AreOrderly (λ d. refl) refl refl

abbrev one_token : Store
one_token = (register_token up (lit "did:bob") (lit "ios") (lit "t") (lit "app") empty).0

overtaken_unregistered_example :
    ((run (overtaken (lit "did:bob") (lit "ios") (lit "t") (lit "app")) (idle one_token)).tasks
      ≡ [])
    × (some_of
          (is_of (lit "did:bob"))
          (run
            (overtaken (lit "did:bob") (lit "ios") (lit "t") (lit "app"))
            (idle one_token)).store.push_tokens
        ≡ true)
    × (is_registered
          (run (overtaken (lit "did:bob") (lit "ios") (lit "t") (lit "app")) (idle one_token)).store
          (lit "did:bob")
        ≡ false)
unfolding program
overtaken_unregistered_example =
    overtaken_unregistered (lit "did:bob") (lit "ios") (lit "t") (lit "app") one_token refl refl
