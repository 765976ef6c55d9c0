-- ===== src/V1/Tests.antt =====
-- Submissions with and without a signature (api/registry/api/v1.py).
use passport_scorer.Common.{
  ℤ, Text, codes, text_eq, text_eq_refl, lower, truthy, one, add_decimal, float_of, Result, err, ok,
  ℕ, ◌≤◌, ◌≡◌, refl, true, false, Option, none, some, [], ◌∷◌, arith,
}
use passport_scorer.Nonces.Once.{rows_of}
use passport_scorer.Submission.{ascore_passport, done}
use passport_scorer.Submission.Example.{cache, credential_of, accepts, settings, community, world}
use passport_scorer.V2.{Environment}
use passport_scorer.V1.{
  SubmitPassportPayload, Failure, invalid_signer, invalid_scorer_id,
  invalid_community_score_request, ScorerType, weighted, State, DetailedScoreResponse,
  get_scorer_id, get_signing_message, ahandle_submit_passport, handle_get_score,
}
use passport_scorer.V1.Signed.{submit_signed_once}

abbrev environment : ℕ → Environment
environment now = record {
  verify_credential = accepts;
  credential_of = credential_of;
  is_valid_address = truthy;
  settings = settings;
  human_points_enabled = false;
  demo_api_scorer_id = 7;
  configs = [];
  multipliers = [];
  communities = record { community = community; account = 1; external_scorer_id = none } ∷ [];
  cache = cache;
  now = now;
  clock = λ _. now;
}

-- A signature is the address of its signer.
abbrev recover : Text → Text → Option Text
recover message signature = some signature

abbrev types : ℕ → ScorerType
types c = weighted

abbrev state : State
state = record {
  nonces = record { nonce = codes "ab"; expires_on = some 90; was_used = false } ∷ [];
  db = record { passports = []; next_passport = 3; scores = []; world = world };
}

abbrev payload : Text → SubmitPassportPayload
payload signature = record {
  address = codes "0xB";
  community = codes "Deprecated";
  scorer_id = codes "7";
  signature = signature;
  nonce = codes "AB";
}

abbrev submit : SubmitPassportPayload → State → Result Failure DetailedScoreResponse × State
submit = λ p. ahandle_submit_passport (environment 50) recover types p 1

abbrev score_of : Result Failure DetailedScoreResponse → Option ℤ
score_of (err e) = none
score_of (ok r) = r.score

-- 3, with the float of the same value
abbrev weight : ℤ
weight = add_decimal one (add_decimal one one)

-- The raw score of a weighted scorer.
raw : score_of (submit (payload []) state).0 ≡ some (weight)
unfolding ahandle_submit_passport float_of ascore_passport text_eq lower add_decimal
raw = refl

abbrev response : DetailedScoreResponse
response = record {
  address = codes "0xb";
  score = some (weight);
  status = some done;
  last_score_timestamp = some 50;
  expiration_date = some 200;
  evidence = none;
  error = none;
  stamp_scores = (codes "Github", weight) ∷ [];
}

answered : (submit (payload (codes "0xb")) state).0 ≡ ok response
unfolding ahandle_submit_passport float_of ascore_passport text_eq lower add_decimal
answered = refl

one_row : rows_of (codes "AB") state.nonces ≤ 1
one_row = ground arith

same_nonce : text_eq (lower (codes "AB")) (lower (codes "AB")) ≡ true
same_nonce = text_eq_refl (lower (codes "AB"))

submit_signed_once_example :
    ((signer : Text) × (recover (get_signing_message (codes "AB")) (codes "0xb") ≡ some signer)
      × (lower signer ≡ lower (codes "0xB")))
    × ((e : Failure) × ((ahandle_submit_passport
            (environment 60)
            recover
            types
            (payload (codes "0xB"))
            1
            (submit (payload (codes "0xb")) state).1).0
          ≡ err e)
        × ((ahandle_submit_passport
              (environment 60)
              recover
              types
              (payload (codes "0xB"))
              1
              (submit (payload (codes "0xb")) state).1).1.db
            ≡ (submit (payload (codes "0xb")) state).1.db))
submit_signed_once_example =
    submit_signed_once (environment 50) (environment 60) recover types (payload (codes "0xb"))
      (payload (codes "0xB")) 1 1 state one_row refl refl same_nonce answered

other_signer : (submit (payload (codes "0xc")) state).0 ≡ err invalid_signer
unfolding ahandle_submit_passport text_eq lower
other_signer = refl

no_scorer : get_scorer_id (record (payload []) { scorer_id = [] }) ≡ err invalid_scorer_id
unfolding get_scorer_id text_eq
no_scorer = refl

read_back :
    score_of (
      handle_get_score
        (environment 60)
        recover
        types
        (codes "0XB")
        (codes "7")
        1
        (submit (payload []) state).1.db)
    ≡ some (weight)
unfolding handle_get_score ahandle_submit_passport ascore_passport text_eq lower add_decimal
read_back = refl

-- An address that is not valid gets the exception for a scorer's missing score.
no_address :
    handle_get_score (environment 60) recover types [] (codes "7") 1 state.db
    ≡ err invalid_community_score_request
unfolding handle_get_score text_eq lower
no_address = refl
