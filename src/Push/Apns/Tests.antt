-- ===== src/Push/Apns/Tests.antt =====
-- Runs of the cache of the provider token at fixed inputs.
use atproto_push_gateway.Base.{◌+◌, ◌≡◌, refl, ◌==◌, some, lit, []}
use atproto_push_gateway.Push.Apns.{ApnsSender, hour, get_token}

abbrev new_sender : ApnsSender
new_sender = record { topic = lit "app"; base_url = lit "https://apns"; token = []; token_exp = 0 }

abbrev signed_sender : ApnsSender
signed_sender = record new_sender { token = lit "jwt"; token_exp = 7 + hour }

signed : get_token (λ now. some (lit "jwt")) 7 new_sender ≡ (signed_sender, some (lit "jwt"))
unfolding get_token ◌==◌
signed = refl
