-- ===== src/Store/Verifications.antt =====
-- store.go: AddVerification, RemoveVerificationByRKey.
pub mod Agreement
pub mod Keys
use atproto_push_gateway.Base.{
  ◌==◌, Text, Bool, not, ◌&&◌, [], ◌∷◌, ◌++◌, none, some, keep, if◌then◌else◌, lookup_in, insert_in,
  delete_in, ok, err,
}
use atproto_push_gateway.Store.{
  Store, Verification, Db, db_error, Outcome, insert_verification, delete_verification,
}

-- verifier_did = ? AND rkey = ?, the primary key.
abbrev pub is_record : Text → Text → Verification → Bool
is_record verifier rkey r = r.verifier_did == verifier && r.rkey == rkey

unfoldable pub add_verification : Db → (verifier subject rkey : Text) → Store → Outcome (Unit {0})
add_verification db verifier subject rkey s =
    let row : Verification = record {
      verifier_did = verifier;
      subject_did = subject;
      rkey = rkey;
    } in
    if not (db insert_verification) then (s, err (db_error insert_verification)) else (
      record s {
        verification_rows =
            keep (λ r. not (is_record verifier rkey r)) s.verification_rows ++ row ∷ [];
        verifications_by_rkey = insert_in verifier rkey subject s.verifications_by_rkey;
      },
      ok tt,
    )

-- The subject of a record key, "" if there is none.
unfoldable pub subject_of_rkey : Store → (verifier rkey : Text) → Text
subject_of_rkey s verifier rkey = elim (lookup_in verifier rkey s.verifications_by_rkey) [
  | none ↦ []
  | some subject ↦ subject
]

unfoldable pub remove_verification_by_rkey : Db → (verifier rkey : Text) → Store → Outcome Text
unfolding subject_of_rkey
remove_verification_by_rkey db verifier rkey s =
    let subject = subject_of_rkey s verifier rkey in
    if subject == []
    then (s, ok [])
    else if not (db delete_verification)
    then (s, err (db_error delete_verification))
    else (
      record s {
        verification_rows = keep (λ r. not (is_record verifier rkey r)) s.verification_rows;
        verifications_by_rkey = delete_in verifier rkey s.verifications_by_rkey;
      },
      ok subject,
    )
