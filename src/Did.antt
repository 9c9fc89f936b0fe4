-- ===== src/Did.antt =====
-- internal/did/resolver.go: the document of a DID, the keys in it, and what the source calls to read
-- them. Every error is none: the callers look at no more.
pub mod Base58
pub mod Keys
pub mod Addresses
pub mod Fetch
mod Tests
use atproto_push_gateway.Base.{ℕ, Text, Bytes, List, Option}

pub record Jwk : Type 0 where
  pub kty : Text
  pub crv : Text
  pub x : Text
  pub y : Text

pub record VerificationMethod : Type 0 where
  pub id : Text
  pub method_type : Text
  pub controller : Text
  pub public_key_multibase : Text
  pub public_key_jwk : Option Jwk

pub record DidDocument : Type 0 where
  pub id : Text
  pub verification_method : List VerificationMethod

pub data Curve : Type 0 where
  p256 secp256k1 : Curve

-- ecdsa.PublicKey.
pub record PublicKey : Type 0 where
  pub curve : Curve
  pub x : ℕ
  pub y : ℕ

-- base64.RawURLEncoding.DecodeString, secp256k1.ParsePubKey and elliptic.UnmarshalCompressed on
-- P-256: a point by its coordinates.
pub record KeyParsers : Type 0 where
  pub raw_url : Text → Option Bytes
  pub parse_secp256k1 : Bytes → Option (ℕ × ℕ)
  pub unmarshal_p256 : Bytes → Option (ℕ × ℕ)
