-- ===== src/Store/Verifications/Keys.antt =====
-- The primary key (verifier_did, rkey) of the table verifications.
use atproto_push_gateway.Base.{◌≡◌, eq_iff, Text, not, List, [], ◌∷◌, ◌++◌, none, keep, arith}
use atproto_push_gateway.Store.{Store, Verification, Db}
use atproto_push_gateway.Store.Verifications.{
  is_record, add_verification, remove_verification_by_rkey,
}
use atproto_push_gateway.Store.Verifications.Agreement.{
  find_subject, find_subject-removed, find_subject-append_ne,
}

-- No two rows have the same primary key.
abbrev pub IsKeyed : List Verification → Type 0
IsKeyed [] = Unit
IsKeyed (r ∷ rows) = (find_subject r.verifier_did r.rkey rows ≡ none) × IsKeyed rows

removed-IsKeyed :
    (a b : Text) (rows : List Verification)
    → IsKeyed rows
    → IsKeyed (keep (λ r. not (is_record a b r)) rows)
removed-IsKeyed a b [] h = h
removed-IsKeyed a b (r ∷ rows) (fresh, h) =
    ground (arith, removed-IsKeyed a b rows h, find_subject-removed a b r.verifier_did r.rkey rows)

append-IsKeyed :
    (rows : List Verification) (r : Verification)
    → IsKeyed rows
    → find_subject r.verifier_did r.rkey rows ≡ none
    → IsKeyed (rows ++ r ∷ [])
append-IsKeyed [] r h new = ground arith
append-IsKeyed (q ∷ rows) r (fresh, h) new = (
  ground (
    arith,
    find_subject-append_ne q.verifier_did q.rkey rows r,
    eq_iff q.verifier_did r.verifier_did,
    eq_iff r.verifier_did q.verifier_did,
    eq_iff q.rkey r.rkey,
    eq_iff r.rkey q.rkey,
  ),
  append-IsKeyed rows r h (ground arith),
)

replaced-IsKeyed :
    (rows : List Verification) (r : Verification)
    → IsKeyed rows
    → IsKeyed (keep (λ q. not (is_record r.verifier_did r.rkey q)) rows ++ r ∷ [])
replaced-IsKeyed rows r h = append-IsKeyed _ r (removed-IsKeyed r.verifier_did r.rkey rows h) (
    ground (
      arith,
      eq_iff r.verifier_did r.verifier_did,
      eq_iff r.rkey r.rkey,
      find_subject-removed r.verifier_did r.rkey r.verifier_did r.rkey rows,
    ))

pub add_verification-IsKeyed :
    (db : Db) (verifier subject rkey : Text) (s : Store)
    → IsKeyed s.verification_rows
    → IsKeyed (add_verification db verifier subject rkey s).0.verification_rows
unfolding add_verification
add_verification-IsKeyed db verifier subject rkey s h = ground (
  arith,
  replaced-IsKeyed s.verification_rows
      (record { verifier_did = verifier; subject_did = subject; rkey = rkey }) h,
)

pub remove_verification_by_rkey-IsKeyed :
    (db : Db) (verifier rkey : Text) (s : Store)
    → IsKeyed s.verification_rows
    → IsKeyed (remove_verification_by_rkey db verifier rkey s).0.verification_rows
unfolding remove_verification_by_rkey
remove_verification_by_rkey-IsKeyed db verifier rkey s h =
    ground (arith, removed-IsKeyed verifier rkey s.verification_rows h)
