-- ===== src/V1.antt =====
-- The submission of an address to a scorer and the score endpoint of the V1 API
-- (api/registry/api/v1.py, api/registry/api/utils.py).
pub mod Signed
mod Tests
use passport_scorer.Common.{
  if◌then◌else◌, get_or, find, ℤ, Text, codes, text_eq, lower, truthy, Dict, quantize_nine, ok_or,
  ◌>>=◌, ◌>>◌, raise_if, Result, err, ok, ℕ, Bool, false, not, ◌&&◌, ◌||◌, Option, none, some, List,
  [], ◌∷◌, ◌++◌,
}
use passport_scorer.Nonces.{Nonce, use_nonce}
use passport_scorer.Scoring.{Evidence}
use passport_scorer.Submission.{Community, Passport, Score, Status, Problem, ascore_passport}
use passport_scorer.V2.{
  Environment, Db, CommunityRow, PassportRow, is_score_of, is_passport_of, get_or_create_passport,
  get_or_create_score, save_score, aget_scorer_by_id,
}
use passport_scorer.V2

pub record SubmitPassportPayload : Type 0 where
  pub address : Text
  pub community : Text
  pub scorer_id : Text
  pub signature : Text
  pub nonce : Text

pub data Failure : Type 0 where
  rate_limited : Failure
  invalid_api_key_permissions : Failure
  invalid_address : Failure
  invalid_scorer_id : Failure
  not_found : Failure
  invalid_signer : Failure
  invalid_nonce : Failure
  internal_server_error : Failure
  invalid_community_score_request : Failure
  scorer_missing : Failure

pub data ScorerType : Type 0 where
  weighted : ScorerType
  weighted_binary : ScorerType

-- The nonces with the tables of scores.
pub record State : Type 0 where
  pub nonces : List Nonce
  pub db : Db

-- `get_scorer_id`
unfoldable pub get_scorer_id : SubmitPassportPayload → Result Failure Text
get_scorer_id payload =
    if truthy payload.scorer_id
    then ok payload.scorer_id
    else if truthy payload.community && not (text_eq payload.community (codes "Deprecated"))
    then ok payload.community
    else err invalid_scorer_id

abbrev pub get_signing_message : Text → Text
get_signing_message nonce =
    codes
      "I hereby agree to submit my address in order to score my associated Gitcoin Passport from Ceramic."
    ++ (10 ∷ 10 ∷ codes "Nonce: ")
    ++ nonce
    ++ 10 ∷ []

-- `get_signer`; `recover_message` is that of web3, none if it raises.
unfoldable pub get_signer : (Text → Text → Option Text) → Text → Text → Result Failure Text
get_signer recover_message nonce signature =
    ok_or (recover_message (get_signing_message nonce) signature) internal_server_error

abbrev community_requires_signature : Community → Bool
community_requires_signature c = false

-- The use of the nonce of a signature whose signer is the address.
unfoldable pub verify_nonce : ℕ → Text → List Nonce → Result Failure (Unit {0}) × List Nonce
unfolding use_nonce
verify_nonce now nonce nonces =
    let (used, nonces') = use_nonce now nonce nonces in
    (if used then ok tt else err invalid_nonce, nonces')

-- "Verify the signer" of `ahandle_submit_passport`
unfoldable pub verify_signer :
    (Text → Text → Option Text)
    → ℕ
    → Community
    → SubmitPassportPayload
    → List Nonce
    → Result Failure (Unit {0}) × List Nonce
unfolding get_signer verify_nonce
verify_signer recover_message now community payload nonces =
    if truthy payload.signature || community_requires_signature community
    then elim (get_signer recover_message payload.nonce payload.signature) [
      | err e ↦ (err e, nonces)
      | ok signer ↦
          if text_eq (lower signer) (lower payload.address)
          then verify_nonce now payload.nonce nonces
          else (err invalid_signer, nonces)
    ]
    else (ok tt, nonces)

pub record DetailedScoreResponse : Type 0 where
  pub address : Text
  pub score : Option ℤ
  pub status : Option Status
  pub last_score_timestamp : Option ℕ
  pub expiration_date : Option ℕ
  pub evidence : Option Evidence
  pub error : Option Problem
  pub stamp_scores : Dict ℤ

-- The raw score with nine decimal places, or as it is where these do not fit.
unfoldable pub nine_places : ℤ → ℤ
unfolding quantize_nine
nine_places raw_score = get_or (quantize_nine raw_score) raw_score

-- `format_non_threshold_score`
unfoldable pub format_non_threshold_score : Text → Score → DetailedScoreResponse
unfolding nine_places
format_non_threshold_score address score = record {
  address = address;
  score = elim score.evidence [ none ↦ score.score | some e ↦ some (nine_places e.raw_score) ];
  status = score.status;
  last_score_timestamp = score.last_score_timestamp;
  expiration_date = score.expiration_date;
  evidence = none;
  error = score.error;
  stamp_scores = get_or score.stamp_scores [];
}

-- `DetailedScoreResponse.from_orm`
unfoldable pub from_orm : Text → Score → DetailedScoreResponse
from_orm address score = record {
  address = address;
  score = score.score;
  status = score.status;
  last_score_timestamp = score.last_score_timestamp;
  expiration_date = score.expiration_date;
  evidence = score.evidence;
  error = score.error;
  stamp_scores = get_or score.stamp_scores [];
}

unfoldable pub format_score : ScorerType → Text → Score → DetailedScoreResponse
unfolding format_non_threshold_score from_orm
format_score weighted address score = format_non_threshold_score address score
format_score weighted_binary address score = from_orm address score

-- `recover_message` is web3's; the scorers' types are by the communities' ids.
module _ (env : Environment) (recover_message : Text → Text → Option Text)
    (scorer_type : ℕ → ScorerType) where
  -- `ahandle_submit_passport` from the creation of the passport on
  unfoldable pub submit : SubmitPassportPayload → Community → Db → DetailedScoreResponse × Db
  unfolding get_or_create_passport get_or_create_score save_score format_score
  submit payload community db =
      let (passport, db') = get_or_create_passport (lower payload.address) community.pk db in
      let (score, scores) = get_or_create_score passport.id db'.scores in
      let (scored, w) =
        ascore_passport env.verify_credential env.credential_of env.settings env.now env.clock
          env.cache community passport payload.address score db'.world in
      (
        format_score (scorer_type community.pk) passport.address scored,
        record db' { scores = save_score passport.id scored scores; world = w },
      )

  -- The scorer that a payload names.
  unfoldable pub find_scorer : SubmitPassportPayload → ℕ → Result Failure Community
  unfolding get_scorer_id aget_scorer_by_id
  find_scorer payload account = do
    raise_if (not (env.is_valid_address (lower payload.address))) invalid_address
    scorer_id ← get_scorer_id payload
    elim (aget_scorer_by_id scorer_id account env.communities) [
      | err e ↦ err not_found
      | ok c ↦ ok c
    ]

  -- What follows the verification of the signer; the scorer is read once the score is saved.
  unfoldable pub submit_verified :
      SubmitPassportPayload
      → Community
      → Db
      → Result Failure (Unit {0}) × List Nonce
      → Result Failure DetailedScoreResponse × State
  unfolding submit
  submit_verified payload community db (err e, nonces) =
      (err e, record { nonces = nonces; db = db })
  submit_verified payload community db (ok _, nonces) =
      let (response, db') = submit payload community db in
      (
        if community.has_scorer then ok response else err scorer_missing,
        record { nonces = nonces; db = db' },
      )

  unfoldable pub ahandle_submit_passport :
      SubmitPassportPayload → ℕ → State → Result Failure DetailedScoreResponse × State
  unfolding find_scorer verify_signer submit_verified
  ahandle_submit_passport payload account s = elim (find_scorer payload account) [
    | err e ↦ (err e, s)
    | ok community ↦
        submit_verified payload community s.db
          (verify_signer recover_message env.now community payload s.nonces)
  ]

  -- `a_submit_passport`; the flags are whether `check_rate_limit` raises, and `submit_passports` of
  -- the key.
  unfoldable pub a_submit_passport :
      Bool → Bool → SubmitPassportPayload → ℕ → State → Result Failure DetailedScoreResponse × State
  unfolding ahandle_submit_passport
  a_submit_passport is_limited may_submit payload account s =
      if is_limited
      then (err rate_limited, s)
      else if may_submit
      then ahandle_submit_passport payload account s
      else (err invalid_api_key_permissions, s)

  -- The passport and the row that `Score.objects.get` finds.
  unfoldable pub stored_score : Text → ℕ → Db → Option (Text × Score)
  stored_score address community db = elim (find (is_passport_of address community) db.passports) [
    | none ↦ none
    | some r ↦ elim (find (is_score_of r.passport.id) db.scores) [
      | none ↦ none
      | some row ↦ some (r.passport.address, row.1)
    ]
  ]

  -- `handle_get_score`; every exception but that of the lookup of the scorer becomes the same one.
  unfoldable pub handle_get_score : Text → Text → ℕ → Db → Result Failure DetailedScoreResponse
  unfolding aget_scorer_by_id stored_score format_score
  handle_get_score address scorer_id account db =
      elim (aget_scorer_by_id scorer_id account env.communities) [
        | err e ↦ err not_found
        | ok c ↦ do
          raise_if (not (env.is_valid_address (lower address))) invalid_community_score_request
          (name, score) ←
              ok_or (stored_score (lower address) c.pk db) invalid_community_score_request
          raise_if (not c.has_scorer) invalid_community_score_request
          ok (format_score (scorer_type c.pk) name score)
      ]

  -- `get_score`; the flags are whether `check_rate_limit` raises, and `read_scores` of the key.
  unfoldable pub get_score :
      Bool → Bool → Text → Text → ℕ → Db → Result Failure DetailedScoreResponse
  unfolding handle_get_score
  get_score is_limited may_read address scorer_id account db = do
    raise_if is_limited rate_limited
    raise_if (not may_read) invalid_api_key_permissions
    handle_get_score address scorer_id account db
