-- ===== src/Jetstream.antt =====
-- internal/jetstream: the records of the firehose, the state of the consumer, and what it is given.
pub mod PostText
pub mod Format
pub mod Notify
pub mod Commit
pub mod Stream
pub mod Lifecycle
pub mod System
mod Tests
use atproto_push_gateway.Base.{ℕ, Text, Bytes, List, Option}
use atproto_push_gateway.Store.{Store, Db}
use atproto_push_gateway.Push.{Notification, SendResult}

pub record CommitEvent : Type 0 where
  pub rev : Text
  pub operation : Text
  pub collection : Text
  pub rkey : Text
  pub raw : Bytes

-- LikeRecord and RepostRecord: the URI of the subject, and of the repost that led to it.
pub record SubjectRecord : Type 0 where
  pub subject_uri : Text
  pub via_uri : Option Text

pub record Embed : Type 0 where
  pub embed_type : Text
  pub record_uri : Option Text

pub record Feature : Type 0 where
  pub feature_type : Text
  pub did : Text

pub record PostRecord : Type 0 where
  pub text : Text
  pub reply_parent : Option Text
  pub embed : Option Embed
  pub facets : List (List Feature)

-- json.Unmarshal of a record; FollowRecord and BlockRecord hold a subject, and so does what is
-- read of VerificationRecord.
pub record Decoders : Type 0 where
  pub like : Bytes → Option SubjectRecord
  pub repost : Bytes → Option SubjectRecord
  pub post : Bytes → Option PostRecord
  pub follow : Bytes → Option Text
  pub block : Bytes → Option Text
  pub verification : Bytes → Option Text

-- The counters and the store of Consumer, and the notifications handed to the sender, in order.
pub record Consumer : Type 0 where
  pub store : Store
  pub matched_events : ℕ
  pub pushes_sent : ℕ
  pub push_errors : ℕ
  pub handed : List Notification

-- The database, the sender, the decoders, the two resolvers (none where the source has nil) and
-- the configured length of a post's text.
pub record Outside : Type 0 where
  pub db : Db
  pub send : Notification → SendResult
  pub decoders : Decoders
  pub resolve_profile : Option (Text → Text × Text)
  pub resolve_text : Option (Text → Text)
  pub max_graphemes : ℕ
