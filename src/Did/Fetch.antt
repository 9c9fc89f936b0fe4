-- ===== src/Did/Fetch.antt =====
-- resolver.go: fetchDIDDocument. The exchange is an argument: a status and what the JSON decoder
-- makes of the first 256 KiB of the body, none where the request fails.
use atproto_push_gateway.Base.{
  ℕ, ◌==◌, Text, Bool, not, ◌||◌, ◌++◌, Option, none, some, lit, drop, map, nat_eq, has_prefix,
  if◌then◌else◌,
}
use atproto_push_gateway.Did.{DidDocument}

pub record Response : Type 0 where
  pub status : ℕ
  pub document : Option DidDocument

-- The host and path that a did:web names: strings.ReplaceAll of ":" by "/".
unfoldable pub web_domain : (did : Text) → Text
web_domain did = map (λ c. if nat_eq c b':' then b'/' else c) (drop 8 did)

unfoldable pub is_localhost : (domain : Text) → Bool
is_localhost domain =
    domain == lit "localhost"
    || has_prefix domain (lit "localhost:")
    || has_prefix domain (lit "localhost/")

unfoldable pub document_url : (did : Text) → Option Text
unfolding web_domain is_localhost
document_url did =
    if has_prefix did (lit "did:plc:")
    then some (lit "https://plc.directory/" ++ did)
    else if has_prefix did (lit "did:web:")
    then (if is_localhost (web_domain did)
        then none
        else some (lit "https://" ++ (web_domain did ++ lit "/.well-known/did.json")))
    else none

unfoldable pub fetch_did_document :
    (get : Text → Option Response) → (did : Text) → Option DidDocument
unfolding document_url
fetch_did_document get did = elim (document_url did) [
  | none ↦ none
  | some url ↦ elim (get url) [
    | none ↦ none
    | some response ↦ if not (nat_eq response.status 200) then none else response.document
  ]
]
