-- ===== src/Push/Apns/Freshness.antt =====
-- The cached provider token.
use atproto_push_gateway.Base.{
  ℕ, ◌+◌, ◌*◌, ◌≡◌, ◌≢◌, ◌<◌, eq_iff, Text, Option, some, [], arith, Option-cases, inl, inr,
}
use atproto_push_gateway.Push.Apns.{ApnsSender, minute, hour, get_token}

-- A token that getToken answers is the cached one, and has more than five minutes left.
get_token-IsFresh :
    (sign : ℕ → Option Text) (now : ℕ) (a b : ApnsSender) (t : Text)
    → get_token sign now a ≡ (b, some t)
    → (b.token ≡ t) × (now + 5 * minute < b.token_exp)
unfolding get_token
get_token-IsFresh sign now a b t got = elim (Option-cases (sign now)) [
  | inl unsigned ↦ ground (arith, unsigned)
  | inr (s, signed) ↦ ground (arith, signed)
]

-- Once a token that is not empty was signed, every call in the next 55 minutes answers the same
-- one, without signing again and without changing the cache, even if signing fails by then.
get_token_reused :
    (sign sign' : ℕ → Option Text) (now later : ℕ) (a b : ApnsSender) (t : Text)
    → get_token sign now a ≡ (b, some t)
    → b.token_exp ≡ now + hour
    → t ≢ []
    → later < now + 55 * minute
    → get_token sign' later b ≡ (b, some t)
unfolding get_token
get_token_reused sign sign' now later a b t got signed ink soon =
    let (cached, _) = get_token-IsFresh sign now a b t got in
    ground (arith, cached, eq_iff b.token [])
