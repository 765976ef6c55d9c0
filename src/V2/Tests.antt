-- ===== src/V2/Tests.antt =====
-- Requests for the score of an address (api/v2/api/api_stamps.py).
use passport_scorer.Common.{
  find, pos, negsuc, codes, text_eq, lower, truthy, add_decimal, Result, err, ok, ◌≡◌, refl, Bool,
  true, false, some, [], ◌∷◌,
}
use passport_scorer.Submission.{Score, is_one, ascore_passport}
use passport_scorer.Submission.Example.{cache, credential_of, accepts, settings, community, world}
use passport_scorer.V2.{
  Failure, Db, Environment, aget_scorer_by_id, get_or_create_passport, is_score_of, V2ScoreResponse,
  ahandle_scoring, handle_scoring_for_account, a_submit_passport, rate_limited, not_found,
  invalid_address,
}
use passport_scorer.V2.Verdict.{Reports, handle_scoring_for_account-Reports}

abbrev environment : Environment
environment = record {
  verify_credential = accepts;
  credential_of = credential_of;
  is_valid_address = truthy;
  settings = settings;
  human_points_enabled = true;
  demo_api_scorer_id = 7;
  configs = record { action = codes "SCB"; points = pos 1000; active = true } ∷ [];
  multipliers = [];
  communities =
      record { community = community; account = 1; external_scorer_id = some (codes "12") } ∷ [];
  cache = cache;
  now = 50;
  clock = λ _. 50;
}

abbrev db : Db
db = record { passports = []; next_passport = 3; scores = []; world = world }

by_external_id : aget_scorer_by_id (codes "12") 1 environment.communities ≡ ok community
unfolding aget_scorer_by_id text_eq
by_external_id = refl

by_id : aget_scorer_by_id (codes "7") 1 environment.communities ≡ ok community
unfolding aget_scorer_by_id text_eq
by_id = refl

of_another_account : aget_scorer_by_id (codes "7") 2 environment.communities ≡ err not_found
unfolding aget_scorer_by_id text_eq
of_another_account = refl

abbrev answer : Result Failure V2ScoreResponse × Db
answer = handle_scoring_for_account environment (codes "0xB") (codes "12") 1 db

is_valid : environment.is_valid_address (lower (codes "0xB")) ≡ true
unfolding lower
is_valid = refl

handle_scoring_for_account-Reports_example :
    (response : V2ScoreResponse) × (scored : Score) × (answer.0 ≡ ok response)
    × (find (is_score_of (get_or_create_passport (lower (codes "0xB")) 7 db).0.id) answer.1.scores
        ≡ some ((get_or_create_passport (lower (codes "0xB")) 7 db).0.id, scored))
    × (is_one scored.score ≡ response.passing_score)
    × Reports community
        (get_or_create_passport (lower (codes "0xB")) 7 db).0.id
        answer.1.world.stamps
        response
handle_scoring_for_account-Reports_example =
    handle_scoring_for_account-Reports environment (codes "0xB") (codes "12") 1 db by_external_id
      is_valid refl

abbrev passes : Result Failure V2ScoreResponse → Bool
passes (err e) = false
passes (ok r) = r.passing_score

answer-passes : passes answer.0 ≡ true
unfolding handle_scoring_for_account ascore_passport text_eq lower add_decimal
answer-passes = refl

limited : (a_submit_passport environment true (pos 7) (codes "0xB") 1 db).0 ≡ err rate_limited
unfolding a_submit_passport
limited = refl

no_address : (ahandle_scoring environment [] community db).0 ≡ err invalid_address
unfolding ahandle_scoring lower
no_address = refl

-- A negative id is the demo's scorer.
demo : passes (a_submit_passport environment false (negsuc 0) (codes "0xb") 1 db).0 ≡ true
unfolding a_submit_passport ascore_passport text_eq lower add_decimal
demo = refl
