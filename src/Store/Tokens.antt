-- ===== src/Store/Tokens.antt =====
-- store.go: RegisterToken, UnregisterToken, IsRegistered, HasRegisteredDIDs, GetTokensForDID.
pub mod Cap
pub mod Registered
pub mod Interleaved
mod Tests
use atproto_push_gateway.Base.{
  ℕ, ◌==◌, Text, Bool, true, false, not, ◌&&◌, ◌||◌, List, [], ◌∷◌, ◌++◌, Option, none, some, lit,
  length, keep, leb, nat_eq, ltb, if◌then◌else◌, lookup, insert, delete, ok, err, Result,
}
use atproto_push_gateway.Store.{
  Store, PushToken, Db, Error, db_error, too_many_tokens, Outcome, begin, commit,
  count_other_tokens, insert_token, delete_token, count_tokens, select_tokens,
}
use atproto_push_gateway.Store.Rows.{read_rows, order_by}

abbrev pub max_tokens_per_did : ℕ
max_tokens_per_did = 20

-- actor_did = ?
abbrev pub is_of : Text → PushToken → Bool
is_of did t = t.actor_did == did

-- The primary key (actor_did, push_token) is that of the row.
abbrev pub has_key : Text → Text → PushToken → Bool
has_key did token t = t.actor_did == did && t.push_token == token

-- CHECK (platform IN ('ios', 'android', 'web'))
unfoldable pub is_platform : Text → Bool
is_platform p = p == lit "ios" || p == lit "android" || p == lit "web"

-- INSERT OR REPLACE INTO push_tokens: the row with the same primary key goes, and a row that
-- fails the CHECK is refused.
unfoldable pub replace_token : PushToken → List PushToken → Option (List PushToken)
unfolding is_platform
replace_token t rows =
    if is_platform t.platform
    then some (keep (λ r. not (has_key t.actor_did t.push_token r)) rows ++ t ∷ [])
    else none

unfoldable pub register_token : Db → (did platform token app : Text) → Store → Outcome (Unit {0})
unfolding replace_token
register_token db did platform token app s =
    let row : PushToken = record {
      actor_did = did;
      platform = platform;
      push_token = token;
      app_id = app;
    } in
    let existing =
      length (keep (λ r. r.actor_did == did && not (r.push_token == token)) s.push_tokens) in
    if not (db begin)
    then (s, err (db_error begin))
    else if not (db count_other_tokens)
    then (s, err (db_error count_other_tokens))
    else if leb max_tokens_per_did existing
    then (s, err too_many_tokens)
    else if not (db insert_token)
    then (s, err (db_error insert_token))
    else elim (replace_token row s.push_tokens) [
      | none ↦ (s, err (db_error insert_token))
      | some rows ↦ if not (db commit) then (s, err (db_error commit)) else (
        record s { push_tokens = rows; registered_dids = insert did true s.registered_dids },
        ok tt,
      )
    ]

-- actor_did = ? AND platform = ? AND push_token = ? AND app_id = ?
abbrev pub is_row : (did platform token app : Text) → PushToken → Bool
is_row did platform token app r =
    r.actor_did == did && r.platform == platform && r.push_token == token && r.app_id == app

-- The rows that DELETE FROM push_tokens leaves.
abbrev pub without_token : (did platform token app : Text) → List PushToken → List PushToken
without_token did platform token app = keep (λ r. not (is_row did platform token app r))

-- The count whose error is not looked at: a failed query leaves the variable at 0.
unfoldable pub count_after : Db → Text → List PushToken → ℕ
count_after db did rows = if db count_tokens then length (keep (is_of did) rows) else 0

unfoldable pub unregister_token : Db → (did platform token app : Text) → Store → Outcome (Unit {0})
unfolding count_after
unregister_token db did platform token app s =
    let rows = without_token did platform token app s.push_tokens in
    if not (db delete_token)
    then (s, err (db_error delete_token))
    else if nat_eq (count_after db did rows) 0
    then (record s { push_tokens = rows; registered_dids = delete did s.registered_dids }, ok tt)
    else (record s { push_tokens = rows }, ok tt)

unfoldable pub is_registered : Store → Text → Bool
is_registered s did = elim (lookup did s.registered_dids) [ none ↦ false | some b ↦ b ]

unfoldable pub has_registered_dids : Store → Bool
has_registered_dids s = ltb 0 (length s.registered_dids)

-- The query runs on the index of the primary key (actor_did, push_token).
unfoldable pub get_tokens_for_did : Db → Store → Text → Result Error (List PushToken)
unfolding read_rows order_by
get_tokens_for_did db s did =
    if db select_tokens
    then ok (
        read_rows db select_tokens 0
          (order_by (λ r. r.push_token) (keep (is_of did) s.push_tokens)))
    else err (db_error select_tokens)
