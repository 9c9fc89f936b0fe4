-- ===== src/Xrpc.antt =====
-- internal/xrpc/handler.go: the state of the handlers and what they are given.
pub mod Auth
pub mod Registration
pub mod Backfill
pub mod Routes
mod Tests
use atproto_push_gateway.Base.{ℕ, Text, Bytes, Bool, List, Option}
use atproto_push_gateway.Store.{Store}
use atproto_push_gateway.Did.{DidDocument, PublicKey, KeyParsers}

-- The claims of a JWT. `exp` counts the times above 0; any other is 0.
pub record JwtClaims : Type 0 where
  pub iss : Text
  pub aud : Text
  pub lxm : Text
  pub exp : ℕ

-- The parts of a request that are read, beside the body.
pub record Request : Type 0 where
  pub remote_addr : Text
  pub cf_connecting_ip : Text
  pub actor_did : Text
  pub authorization : Text

-- Handler. `backfills` are the DIDs whose backfill was started, `signalled` counts the calls of
-- onTokenRegistered (it is 0 where that is nil, which the flag says).
pub record Handler : Type 0 where
  pub store : Store
  pub dev_mode : Bool
  pub service_did : Text
  pub wants_signal : Bool
  pub backfills : List Text
  pub signalled : ℕ

-- Go's base64, JSON, crypto and net packages, the DID resolver (none where the source has nil),
-- and the time in seconds.
pub record Outside : Type 0 where
  pub raw_url : Text → Option Bytes
  pub claims : Bytes → Option JwtClaims
  pub alg : Bytes → Option Text
  pub resolve_did : Option (Text → Option DidDocument)
  pub parsers : KeyParsers
  pub sha256 : Text → Bytes
  pub ecdsa_verify : PublicKey → Bytes → (r s : ℕ) → Bool
  pub ecdsa_verify_asn1 : PublicKey → Bytes → Bytes → Bool
  pub split_host : Text → Option Text
  pub is_loopback_ip : Text → Bool
  pub now : ℕ
