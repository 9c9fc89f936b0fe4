-- ===== src/Store/Tokens/Cap.antt =====
-- The number of tokens that a DID has, through RegisterToken and UnregisterToken.
use atproto_push_gateway.Base.{
  ℕ, ◌≡◌, refl, ◌≤◌, ◌==◌, eq_iff, Text, Bool, not, ◌&&◌, List, [], ◌∷◌, ◌++◌, length, keep,
  length-keep-snoc, Bool-cases, inl, inr, arith, ◌<◌,
}
use atproto_push_gateway.Store.{Store, PushToken, Db}
use atproto_push_gateway.Store.Tokens.{
  is_of, has_key, register_token, unregister_token, is_row, max_tokens_per_did,
}

abbrev pub count_of : Text → List PushToken → ℕ
count_of d rows = length (keep (is_of d) rows)

abbrev pub count_other : Text → Text → List PushToken → ℕ
count_other d token rows = length (keep (λ r. r.actor_did == d && not (r.push_token == token)) rows)

-- Without its own row, the rows of a DID are the others that the cap counts.
pub count_of-keep_self :
    (d token : Text) (rows : List PushToken)
    → count_of d (keep (λ r. not (has_key d token r)) rows) ≡ count_other d token rows
count_of-keep_self d token [] = refl
count_of-keep_self d token (r ∷ rows) = ground (arith, count_of-keep_self d token rows)

pub count_of-keep_le :
    (d : Text) (p : PushToken → Bool) (rows : List PushToken)
    → count_of d (keep p rows) ≤ count_of d rows
count_of-keep_le d p [] = omega arith
count_of-keep_le d p (r ∷ rows) = ground (arith, count_of-keep_le d p rows)

-- Every DID has at most the capped number of tokens.
abbrev pub IsCapped : List PushToken → Type 0
IsCapped rows = (d : Text) → count_of d rows ≤ max_tokens_per_did

replaced-le :
    (t : PushToken) (rows : List PushToken)
    → count_other t.actor_did t.push_token rows < max_tokens_per_did
    → IsCapped rows
    → IsCapped (keep (λ r. not (has_key t.actor_did t.push_token r)) rows ++ t ∷ [])
replaced-le t rows room capped d = elim (Bool-cases (t.actor_did == d)) [
  | inl same ↦ rw (length-keep-snoc (is_of d) _ t) (
      ground
        (arith, (eq_iff t.actor_did d).0 same, count_of-keep_self t.actor_did t.push_token rows))
  | inr other ↦ rw (length-keep-snoc (is_of d) _ t) (
      ground (
        arith,
        capped d,
        count_of-keep_le d (λ (r : PushToken). not (has_key t.actor_did t.push_token r)) rows,
      ))
]

-- The outcome of RegisterToken on the rows: they stay, or the row is put in with room for it.
pub register_token-IsCapped :
    (db : Db) (did platform token app : Text) (s : Store)
    → IsCapped s.push_tokens
    → IsCapped (register_token db did platform token app s).0.push_tokens
unfolding register_token
register_token-IsCapped db did platform token app s capped = ground (
  arith,
  capped,
  replaced-le (record { actor_did = did; platform = platform; push_token = token; app_id = app })
      s.push_tokens,
)

pub unregister_token-IsCapped :
    (db : Db) (did platform token app : Text) (s : Store)
    → IsCapped s.push_tokens
    → IsCapped (unregister_token db did platform token app s).0.push_tokens
unfolding unregister_token
unregister_token-IsCapped db did platform token app s capped = λ d. ground (
  arith,
  capped d,
  count_of-keep_le d (λ (r : PushToken). not (is_row did platform token app r)) s.push_tokens,
)
