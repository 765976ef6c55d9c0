-- ===== src/CacheApi/Tests.antt =====
-- The endpoints of the stamp cache with their score (api/ceramic_cache/api/v1.py) on small tables.
use passport_scorer.Common.{
  ◌==◌, if◌then◌else◌, length, pos, codes, text_eq, lower, truthy, add_decimal, Result, err, ok, ℕ,
  ◌≡◌, refl, true, Option, none, some, List, [], ◌∷◌,
}
use passport_scorer.Submission.{ascore_passport}
use passport_scorer.Submission.Example.{cache, credential_of, accepts, community, world}
use passport_scorer.Submission.Example as Example
use passport_scorer.V2.{Environment, new_score, V2ScoreResponse, format_v2_score_response}
use passport_scorer.V2.Consistent.{Sound}
use passport_scorer.CacheApi.{
  Failure, State, Settings, with_score, handle_delete_stamps_scored, handle_get_stamps, ui_answer,
  handle_get_ui_score, calc_score, Weights, handle_get_scorer_weights, scorer_id_not_set,
}
use passport_scorer.CacheApi.Kept.{
  Call, serve, serve_all, serve_all-Sound, remove, get_stamps, get_ui_score,
}

abbrev environment : ℕ → Environment
environment now = record {
  verify_credential = accepts;
  credential_of = credential_of;
  is_valid_address = truthy;
  settings = Example.settings;
  human_points_enabled = true;
  demo_api_scorer_id = 7;
  configs = record { action = codes "SCB"; points = pos 1000; active = true } ∷ [];
  multipliers = [];
  communities =
      record { community = community; account = 1; external_scorer_id = some (codes "12") } ∷ [];
  cache = record { rows = []; revocations = []; next_pk = 0 };
  now = now;
  clock = λ _. now;
}

abbrev settings : Settings
settings = record { max_bulk_cache_size = 5; scorer_id = 7 }

abbrev state : State
state = record {
  store = cache;
  db = record { passports = []; next_passport = 3; scores = []; world = world };
}

abbrev reported : Result Failure V2ScoreResponse → V2ScoreResponse
reported (err e) = format_v2_score_response [] new_score none none
reported (ok r) = r

abbrev answer : Result Failure V2ScoreResponse × State
answer = handle_get_ui_score (environment 50) settings (codes "0xB") none state

answer-passes : (reported answer.0).passing_score ≡ true
unfolding handle_get_ui_score ui_answer ascore_passport text_eq lower add_decimal
answer-passes = refl

abbrev calls : List (Environment × Call)
calls =
    (environment 50, get_ui_score (codes "0xB") none)
    ∷ (environment 60, remove (codes "0xb") (codes "Github" ∷ []))
    ∷ (environment 70, get_stamps (codes "0xC"))
    ∷ []

serve_all-Sound_example : Sound (serve_all settings calls state).db
serve_all-Sound_example = serve_all-Sound settings calls state tt

-- The address that had no score gets one when its stamps are listed.
listed : length (serve_all settings calls state).db.scores ≡ 2
unfolding serve_all serve handle_get_ui_score ui_answer handle_get_stamps
    handle_delete_stamps_scored with_score ascore_passport text_eq lower add_decimal
listed = refl

unset : (calc_score (environment 50) settings (codes "0xB") none state).0 ≡ err scorer_id_not_set
unfolding calc_score
unset = refl

-- The weights are read again once a minute has passed.
abbrev weights_of : ℕ → Option Weights
weights_of id = if id == 7 then some ((codes "Ens", pos 5) ∷ []) else none

weights_kept :
    (handle_get_scorer_weights weights_of 7 10 none []
      ≡ (some ((codes "Ens", pos 5) ∷ []), (7, (codes "Ens", pos 5) ∷ [], 70) ∷ []))
    × (handle_get_scorer_weights weights_of 7 69 none ((7, [], 70) ∷ [])
        ≡ (some [], (7, [], 70) ∷ []))
    × (handle_get_scorer_weights weights_of 7 70 none ((7, [], 70) ∷ [])
        ≡ (some ((codes "Ens", pos 5) ∷ []), (7, (codes "Ens", pos 5) ∷ [], 130) ∷ []))
    × ((handle_get_scorer_weights weights_of 7 70 (some 3) []).0 ≡ none)
unfolding handle_get_scorer_weights
weights_kept = (refl, refl, refl, refl)
