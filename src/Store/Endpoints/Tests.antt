-- ===== src/Store/Endpoints/Tests.antt =====
-- Calls on the table of endpoints at fixed inputs.
use atproto_push_gateway.Base.{◌≡◌, refl, ◌==◌, Text, true, false, List, [], ◌∷◌, some, lit}
use atproto_push_gateway.Store.{WebPushEndpoint, Db}
use atproto_push_gateway.Store.History.{empty}
use atproto_push_gateway.Store.Endpoints.{
  is_device_platform, insert_row, find_row, create_webpush_endpoint, get_webpush_endpoint,
  delete_webpush_endpoint, delete_webpush_endpoints_for_device, touch_webpush_endpoint,
}
use atproto_push_gateway.Store.Endpoints.Mapping.{IsMapping}
use atproto_push_gateway.Store.Endpoints.Calls.{
  Call, create, delete_one, delete_all, touch, view, perform, perform_all, promise_all, read,
  succeeded,
}
use atproto_push_gateway.Store.Endpoints.Refinement.{perform_all_refines}

abbrev up : Db
up = λ _. true

abbrev same : Text → Text
same id = id

abbrev device : Text → WebPushEndpoint
device token = record {
  platform = lit "android";
  device_token = token;
  app_id = lit "app";
  vapid_public_key = [];
  instance_host = [];
}

-- A device that registers again, another one, and a try at a taken id.
abbrev calls : List Call
calls =
    create up (some (lit "a")) (device (lit "t"))
    ∷ create up (some (lit "b")) (device (lit "t"))
    ∷ touch up 5 (lit "b")
    ∷ create up (some (lit "c")) (device (lit "u"))
    ∷ create up (some (lit "c")) (device (lit "v"))
    ∷ delete_all up (lit "u") (lit "app")
    ∷ delete_one up (lit "z")
    ∷ []

program : Unit {0}
unfolding ◌==◌ is_device_platform insert_row find_row create_webpush_endpoint get_webpush_endpoint
    delete_webpush_endpoint delete_webpush_endpoints_for_device touch_webpush_endpoint perform
    perform_all succeeded
program = tt

answers : (perform_all same calls empty).1 ≡ true ∷ true ∷ true ∷ true ∷ false ∷ true ∷ true ∷ []
unfolding program
answers = refl

perform_all_refines_example :
    IsMapping (perform_all same calls empty).0.endpoint_rows
    × ((perform_all same calls empty).1 ≡ (promise_all same calls (view [])).1)
    × (get_webpush_endpoint same up (perform_all same calls empty).0 (lit "b")
        ≡ read up ((promise_all same calls (view [])).0 (lit "b")))
perform_all_refines_example = perform_all_refines same calls empty up (lit "b") tt
