-- ===== src/Store.antt =====
-- internal/store: the SQLite tables, the maps in memory beside them, and what a call can answer.
-- Each table is the list of its rows in the order of insertion. A call of the database succeeds
-- or fails by an oracle over the statements of the source; a failed statement changes nothing.
pub mod Rows
pub mod Tokens
pub mod Blocks
pub mod Verifications
pub mod Endpoints
pub mod Load
pub mod History
mod Tests
use atproto_push_gateway.Base.{Text, Bool, Map, List, [], ℕ, Option, Result}

pub record PushToken : Type 0 where
  pub actor_did : Text
  pub platform : Text
  pub push_token : Text
  pub app_id : Text

pub record Block : Type 0 where
  pub blocker_did : Text
  pub blocked_did : Text
  pub rkey : Text

-- A row of the table verifications.
pub record Verification : Type 0 where
  pub verifier_did : Text
  pub subject_did : Text
  pub rkey : Text

pub record WebPushEndpoint : Type 0 where
  pub platform : Text
  pub device_token : Text
  pub app_id : Text
  pub vapid_public_key : Text
  pub instance_host : Text

-- A row of the table webpush_endpoints.
pub record EndpointRow : Type 0 where
  pub endpoint_hash : Text
  pub endpoint : WebPushEndpoint
  pub last_push_at : Option ℕ

pub record Store : Type 0 where
  pub push_tokens : List PushToken
  pub block_rows : List Block
  pub verification_rows : List Verification
  pub backfilled : List Text
  pub endpoint_rows : List EndpointRow
  pub registered_dids : Map Bool
  pub blocks : Map (Map Bool)
  pub blocks_by_rkey : Map (Map Text)
  pub verifications_by_rkey : Map (Map Text)

-- The calls of the database, each by what it is for; `next` is the call of Next for a row of a
-- query's answer.
pub data Statement : Type 0 where
  begin commit : Statement
  count_other_tokens insert_token delete_token count_tokens select_tokens : Statement
  insert_block delete_block insert_backfilled : Statement
  insert_verification delete_verification : Statement
  delete_device insert_endpoint select_endpoint delete_endpoint touch_endpoint : Statement
  select_dids select_blocks select_verifications : Statement
  next : (query : Statement) → (row : ℕ) → Statement

-- Whether a statement succeeds.
abbrev pub Db : Type 0
Db = Statement → Bool

pub data Error : Type 0 where
  db_error : Statement → Error
  too_many_tokens endpoint_not_found no_random : Error

abbrev pub Outcome : Type 0 → Type 0
Outcome A = Store × Result Error A
