-- ===== src/Submission/Credentials.antt =====
-- The validation of a submission's credentials (api/registry/atasks.py, api/registry/utils.py).
use passport_scorer.Common.{
  ltb, if◌then◌else◌, is_some, get_or, filter, null, Text, text_eq, text_in, lower, truthy, ℕ, Bool,
  false, not, ◌&&◌, ◌||◌, Option, none, some, List, [], ◌∷◌, ◌++◌,
}
use passport_scorer.Passport.{PassportStamp, Credential, Subject}
use passport_scorer.Reader.{get_did}

pub data Complaint : Type 0 where
  missing_subject : Complaint
  missing_hash_and_nullifiers : Complaint
  missing_id : Complaint
  missing_provider : Complaint
  did_mismatch : Complaint
  validation_failed : Complaint
  error_validating : Complaint

abbrev complain : Bool → Complaint → List Complaint
complain b c = if b then c ∷ [] else []

-- A subject none of whose keys is there counts as empty.
abbrev is_empty : Subject → Bool
is_empty cs = not (is_some cs.id || is_some cs.hash || is_some cs.nullifiers || is_some cs.provider)

-- `validate_credential`; `verify_credential` is didkit's, its list of errors, or none if it raises.
unfoldable pub validate_credential :
    (Credential → Option (List Text)) → Text → Credential → List Complaint
unfolding lower
validate_credential verify_credential did credential =
    let cs = credential.subject in
    let stamp_did = lower (get_or cs.id []) in
    complain (is_empty cs) missing_subject
    ++ complain (not (truthy (get_or cs.hash [])) && null (get_or cs.nullifiers []))
        missing_hash_and_nullifiers
    ++ complain (not (truthy stamp_did)) missing_id
    ++ complain (not (truthy (get_or cs.provider []))) missing_provider
    ++ complain (not (text_eq did stamp_did)) did_mismatch
    ++ elim (verify_credential credential) [
      | none ↦ error_validating ∷ []
      | some errors ↦ complain (not (null errors)) validation_failed
    ]

-- `verify_issuer`, for a stamp with a credential; `trusted` is TRUSTED_IAM_ISSUERS.
unfoldable pub verify_issuer : List Text → PassportStamp → Bool
verify_issuer trusted stamp = elim stamp.credential.issuer [
  | none ↦ false
  | some issuer ↦ text_in issuer trusted
]

-- The tests of `avalidate_credentials` on one stamp.
unfoldable pub is_valid :
    (Credential → Option (List Text)) → List Text → ℕ → Text → PassportStamp → Bool
unfolding verify_issuer validate_credential get_did
is_valid verify_credential trusted now address stamp =
    not (ltb stamp.credential.expiration now)
    && verify_issuer trusted stamp
    && null (validate_credential verify_credential (get_did address) stamp.credential)

-- `avalidate_credentials`
unfoldable pub avalidate_credentials :
    (Credential → Option (List Text))
    → List Text
    → ℕ
    → Text
    → List PassportStamp
    → List PassportStamp
unfolding is_valid
avalidate_credentials verify_credential trusted now address =
    filter (is_valid verify_credential trusted now address)
