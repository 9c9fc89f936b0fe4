-- ===== src/Store/Tokens/Registered.antt =====
-- The set of registered DIDs in memory against the rows of push_tokens.
use atproto_push_gateway.Base.{
  ◌≡◌, refl, ◌==◌, eq_iff, Text, Bool, true, not, List, [], ◌∷◌, ◌++◌, some_of, some_of-append,
  some_of-keep, some_of-length-keep, keep, arith, if◌then◌else◌, lookup-insert, lookup-delete, ◌≢◌,
}
use atproto_push_gateway.Store.{Store, PushToken, Db, count_tokens}
use atproto_push_gateway.Store.Tokens.{
  is_of, has_key, is_row, without_token, register_token, unregister_token, is_registered,
}

abbrev pub has_tokens : Text → List PushToken → Bool
has_tokens d = some_of (is_of d)

-- A DID is registered in memory exactly when it has a row.
abbrev pub Registers : Store → Type 0
Registers s = (d : Text) → is_registered s d ≡ has_tokens d s.push_tokens

has_tokens-keep_key :
    (d did token : Text) (rows : List PushToken)
    → did ≢ d
    → has_tokens d (keep (λ r. not (has_key did token r)) rows) ≡ has_tokens d rows
has_tokens-keep_key d did token [] h = refl
has_tokens-keep_key d did token (r ∷ rows) h =
    ground
      (arith, eq_iff r.actor_did d, eq_iff r.actor_did did, has_tokens-keep_key d did token rows)

has_tokens-without :
    (d did platform token app : Text) (rows : List PushToken)
    → did ≢ d
    → has_tokens d (without_token did platform token app rows) ≡ has_tokens d rows
has_tokens-without d did platform token app [] h = refl
has_tokens-without d did platform token app (r ∷ rows) h = ground (
  arith,
  eq_iff r.actor_did d,
  eq_iff r.actor_did did,
  has_tokens-without d did platform token app rows,
)

has_tokens-replaced :
    (d : Text) (t : PushToken) (rows : List PushToken)
    → has_tokens d (keep (λ r. not (has_key t.actor_did t.push_token r)) rows ++ t ∷ [])
      ≡ (if t.actor_did == d then true else has_tokens d rows)
has_tokens-replaced d t rows =
    rw (some_of-append (is_of d))
      (ground (arith, eq_iff t.actor_did d, has_tokens-keep_key d t.actor_did t.push_token rows))

pub register_token-Registers :
    (db : Db) (did platform token app : Text) (s : Store)
    → Registers s
    → Registers (register_token db did platform token app s).0
unfolding register_token is_registered
register_token-Registers db did platform token app s agrees = λ d. ground (
  arith,
  agrees d,
  lookup-insert did d true s.registered_dids,
  has_tokens-replaced d
      (record { actor_did = did; platform = platform; push_token = token; app_id = app })
      s.push_tokens,
)

-- The query that counts what is left must not fail: its error is not looked at.
pub unregister_token-Registers :
    (db : Db) (did platform token app : Text) (s : Store)
    → db count_tokens ≡ true
    → Registers s
    → Registers (unregister_token db did platform token app s).0
unfolding unregister_token is_registered
unregister_token-Registers db did platform token app s counts agrees = λ d. ground (
  arith,
  agrees d,
  eq_iff did d,
  lookup-delete did d s.registered_dids,
  has_tokens-without d did platform token app s.push_tokens,
  some_of-keep (is_of did) (λ (r : PushToken). not (is_row did platform token app r)) s.push_tokens,
  some_of-length-keep (is_of did) (without_token did platform token app s.push_tokens),
)
