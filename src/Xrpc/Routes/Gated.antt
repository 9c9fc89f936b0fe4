-- ===== src/Xrpc/Routes/Gated.antt =====
-- Whom the routes let at the state.
use atproto_push_gateway.Base.{
  ◌≡◌, refl, Text, Bool, true, false, Option, none, some, arith, ap, sym, ◌∙◌, ◌≤◌, ◌<◌, ℕ,
  Option-cases, inl, inr, ◌⊎◌, lit, [], eq_refl,
}
use atproto_push_gateway.Store.{Db}
use atproto_push_gateway.Xrpc.{Request, Handler, Outside}
use atproto_push_gateway.Xrpc.Auth.{verify_auth, transits_cloudflare, is_loopback_addr}
use atproto_push_gateway.Xrpc.Registration.{
  RegisterPushRequest, lexicon_register_push, lexicon_unregister_push, handle_register_push,
  handle_unregister_push,
}
use atproto_push_gateway.Xrpc.Routes.{
  Route, register_push, unregister_push, did_document, health, test_register, test_push, Body,
  Count, route_of, Decoded, serve_route, serve,
}

is_test : Route → Bool
is_test test_register = true
is_test test_push = true
is_test _ = false

route_of-prod :
    (path wanted : Text) (route : Route)
    → route_of false path ≡ some (wanted, route)
    → is_test route ≡ false
unfolding route_of is_test
route_of-prod path wanted route known = ground (arith, known)

module _ (o : Outside) (db : Db) (counts_up : Count → Bool) where
  unauthorized :
      (h : Handler) (r : Request) (lxm : Text)
      → transits_cloudflare o h r ≡ false
      → verify_auth o h lxm r ≡ none
  unfolding verify_auth
  unauthorized h r lxm away = rw (verify_auth, away) refl

  closed_register :
      (h : Handler) (r : Request) (body : Option RegisterPushRequest)
      → transits_cloudflare o h r ≡ false
      → (handle_register_push o db r body h ≡ (h, 401))
        × (handle_unregister_push o db r body h ≡ (h, 401))
  unfolding handle_register_push handle_unregister_push
  closed_register h r body away = (
    rw (handle_register_push, unauthorized h r lexicon_register_push away) refl,
    rw (handle_unregister_push, unauthorized h r lexicon_unregister_push away) refl,
  )

  abbrev IsRefused : Handler → Handler × ℕ × Body → Type 0
  IsRefused h (h', status, _) = (h' ≡ h) × (400 ≤ status) × (status < 500)

  route-IsRefused :
      (route : Route) (r : Request) (body : Decoded) (h : Handler)
      → transits_cloudflare o h r ≡ false
      → is_test route ≡ false
      → IsRefused h (serve_route o db counts_up route r body h)
  unfolding serve_route is_test
  route-IsRefused register_push r body h away closed =
      rw (serve_route, (closed_register h r body.push away).0) (refl, omega arith, omega arith)
  route-IsRefused unregister_push r body h away closed =
      rw (serve_route, (closed_register h r body.push away).1) (refl, omega arith, omega arith)
  route-IsRefused did_document r body h away closed = ground (arith, away)
  route-IsRefused health r body h away closed = ground (arith, away)
  route-IsRefused test_register r body h away closed = absurd (ground (arith, closed))
  route-IsRefused test_push r body h away closed = absurd (ground (arith, closed))

  -- Outside of the development mode a request to one of the four paths of this handler that has no
  -- CF-Connecting-IP header and does not come from the loopback address changes nothing, whatever
  -- its method and its body, and gets a status from 400 to 499.
  pub serve_refused :
      (h : Handler) (method path : Text) (r : Request) (body : Decoded)
      → h.dev_mode ≡ false
      → r.cf_connecting_ip ≡ []
      → is_loopback_addr o r.remote_addr ≡ false
      → (path ≡ lit "/xrpc/app.bsky.notification.registerPush")
        ⊎ (path ≡ lit "/xrpc/app.bsky.notification.unregisterPush")
        ⊎ (path ≡ lit "/.well-known/did.json")
        ⊎ (path ≡ lit "/health")
      → ((serve o db counts_up method path r body h).0 ≡ h)
        × (400 ≤ (serve o db counts_up method path r body h).1)
        × ((serve o db counts_up method path r body h).1 < 500)
  unfolding serve transits_cloudflare
  serve_refused h method path r body prod bare distant _ =
      let away : transits_cloudflare o h r ≡ false =
        ground (arith, prod, bare, distant, eq_refl r.cf_connecting_ip) in
      elim (Option-cases (route_of h.dev_mode path)) [
        | inl unknown ↦ ground (arith, unknown)
        | inr ((wanted, route), known) ↦
            (let closed =
                route_of-prod path wanted route (ap (λ b. route_of b path) (sym prod) ∙ known) in
              ground (arith, known, route-IsRefused route r body h away closed))
      ]
