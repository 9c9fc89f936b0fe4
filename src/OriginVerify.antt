-- ===== src/OriginVerify.antt =====
-- internal/originverify/middleware.go: Wrap and isExempt. `next` is the wrapped handler, as the
-- function of a request that it is; a request's headers are the function Header.Get.
pub mod Passage
mod Tests
use atproto_push_gateway.Base.{
  ◌==◌, Text, Bool, true, false, not, ◌&&◌, [], ◌∷◌, lit, has_prefix, if◌then◌else◌, ℕ,
}

pub record Config : Type 0 where
  pub secret : Text
  pub header_name : Text
  pub exclude_health : Bool
  pub exclude_did_json : Bool

pub record Request : Type 0 where
  pub path : Text
  pub header : Text → Text

abbrev pub relay_prefix : Text
relay_prefix = lit "/relay/"

unfoldable pub is_exempt : Request → Config → Bool
is_exempt r cfg =
    if has_prefix r.path relay_prefix
    then true
    else if cfg.exclude_health && r.path == lit "/health"
    then true
    else if cfg.exclude_did_json && r.path == lit "/.well-known/did.json"
    then true
    else false

abbrev pub header_name_of : Config → Text
header_name_of cfg = if cfg.header_name == [] then lit "X-Origin-Verify" else cfg.header_name

-- The status that `next` gives, or 403.
unfoldable pub wrap : (next : Request → ℕ) → Config → Request → ℕ
unfolding is_exempt
wrap next cfg r =
    if cfg.secret == []
    then next r
    else if is_exempt r cfg
    then next r
    else if not (r.header (header_name_of cfg) == cfg.secret)
    then 403
    else next r
