-- ===== src/OriginVerify/Tests.antt =====
-- Runs of the middleware at fixed inputs.
use atproto_push_gateway.Base.{◌≡◌, refl, ◌==◌, Text, true, false, [], lit, has_prefix}
use atproto_push_gateway.OriginVerify.{Config, Request, is_exempt, wrap}
use atproto_push_gateway.OriginVerify.Passage.{wrap_relay}

abbrev config : Config
config = record {
  secret = lit "s";
  header_name = [];
  exclude_health = true;
  exclude_did_json = false;
}

abbrev request_to : Text → Request
request_to path = record { path = path; header = λ name. lit "" }

health : wrap (λ r. 200) config (request_to (lit "/health")) ≡ 200
unfolding wrap is_exempt has_prefix ◌==◌
health = refl

wrap_relay_example : wrap (λ r. 200) config (request_to (lit "/relay/id")) ≡ 200
wrap_relay_example = wrap_relay (λ r. 200) config (request_to (lit "/relay/id")) (lit "id") refl
