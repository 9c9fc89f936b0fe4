-- ===== src/Store/Verifications/Agreement.antt =====
-- The verifications in memory against the rows of the table verifications.
use atproto_push_gateway.Base.{
  ◌≡◌, refl, ◌==◌, eq_iff, Text, false, not, ◌&&◌, List, [], ◌∷◌, ◌++◌, Option, some, none, keep,
  arith, if◌then◌else◌, lookup_in, lookup_in-insert_in, lookup_in-delete_in,
}
use atproto_push_gateway.Store.{Store, Verification, Db}
use atproto_push_gateway.Store.Verifications.{
  is_record, add_verification, remove_verification_by_rkey,
}

-- The subject of the row with a primary key.
abbrev pub find_subject : Text → Text → List Verification → Option Text
find_subject v k [] = none
find_subject v k (r ∷ rows) = if is_record v k r then some r.subject_did else find_subject v k rows

-- A record key leads in memory to the subject of its row, and to none if it has no row.
abbrev pub Verifies : Store → Type 0
Verifies s =
    (v k : Text) → lookup_in v k s.verifications_by_rkey ≡ find_subject v k s.verification_rows

pub find_subject-removed :
    (a b v k : Text) (rows : List Verification)
    → find_subject v k (keep (λ r. not (is_record a b r)) rows)
      ≡ (if a == v && b == k then none else find_subject v k rows)
find_subject-removed a b v k [] = ground arith
find_subject-removed a b v k (r ∷ rows) = ground (
  arith,
  eq_iff a v,
  eq_iff b k,
  eq_iff r.verifier_did a,
  eq_iff r.rkey b,
  eq_iff r.verifier_did v,
  eq_iff r.rkey k,
  find_subject-removed a b v k rows,
)

find_subject-append :
    (v k : Text) (rows : List Verification) (r : Verification)
    → find_subject v k rows ≡ none
    → find_subject v k (rows ++ r ∷ []) ≡ (if is_record v k r then some r.subject_did else none)
find_subject-append v k [] r h = refl
find_subject-append v k (q ∷ rows) r h = ground (arith, find_subject-append v k rows r)

pub find_subject-append_ne :
    (v k : Text) (rows : List Verification) (r : Verification)
    → is_record v k r ≡ false
    → find_subject v k (rows ++ r ∷ []) ≡ find_subject v k rows
find_subject-append_ne v k [] r h = ground arith
find_subject-append_ne v k (q ∷ rows) r h = ground (arith, find_subject-append_ne v k rows r)

find_subject-replaced :
    (v k : Text) (rows : List Verification) (r : Verification)
    → find_subject v k (keep (λ q. not (is_record r.verifier_did r.rkey q)) rows ++ r ∷ [])
      ≡ (if is_record v k r then some r.subject_did else find_subject v k rows)
find_subject-replaced v k rows r =
    let kept = keep (λ (q : Verification). not (is_record r.verifier_did r.rkey q)) rows in
    ground (
      arith,
      find_subject-removed r.verifier_did r.rkey v k rows,
      find_subject-append v k kept r,
      find_subject-append_ne v k kept r,
    )

pub add_verification-Verifies :
    (db : Db) (verifier subject rkey : Text) (s : Store)
    → Verifies s
    → Verifies (add_verification db verifier subject rkey s).0
unfolding add_verification
add_verification-Verifies db verifier subject rkey s agrees = λ v k.
    let row : Verification = record {
      verifier_did = verifier;
      subject_did = subject;
      rkey = rkey;
    } in
    ground (
      arith,
      agrees v k,
      lookup_in-insert_in verifier rkey v k subject s.verifications_by_rkey,
      find_subject-replaced v k s.verification_rows row,
    )

pub remove_verification_by_rkey-Verifies :
    (db : Db) (verifier rkey : Text) (s : Store)
    → Verifies s
    → Verifies (remove_verification_by_rkey db verifier rkey s).0
unfolding remove_verification_by_rkey
remove_verification_by_rkey-Verifies db verifier rkey s agrees = λ v k. ground (
  arith,
  agrees v k,
  lookup_in-delete_in verifier rkey v k s.verifications_by_rkey,
  find_subject-removed verifier rkey v k s.verification_rows,
)
