-- ===== src/Analysis/Tests.antt =====
-- Analyses of an address (api/passport/api.py) with small models.
use passport_scorer.Common.{
  if◌then◌else◌, get_or, length, filter, All, pos, Text, codes, text_eq, text_in, truthy, Dict, err,
  ok, ℕ, ◌≡◌, refl, ap, true, false, not, Option, none, some, [], ◌∷◌,
}
use passport_scorer.Analysis.{
  Response, Payload, Settings, ModelScore, strip, split, distinct, requested_models, Asked, fetch,
  urls_of, fetch_all, get_model_responses, get_submodel_responses_for_aggregate, add_scores,
  get_aggregate_model_response, with_aggregate, scores_of, checked_models, analyse,
  handle_get_analysis, bad_model_name, analysis_error, score,
}
use passport_scorer.Analysis.Responses.{IsAnswered}
use passport_scorer.Analysis.Scored.{handle_get_analysis-IsAnswered}

abbrev settings : Settings
settings = record {
  endpoints =
      (codes "eth", codes "u1")
      ∷ (codes "nft", codes "u2")
      ∷ (codes "zk", codes "u3")
      ∷ (codes "aggregate", codes "u4")
      ∷ [];
  aggregation_names = (codes "eth", codes "e") ∷ (codes "zk", codes "z") ∷ [];
  aggregate_model = codes "aggregate";
  default_models = codes "aggregate";
  only_one_model = false;
}

abbrev told : ℕ → Response
told n = record {
  status = 200;
  body = some (record {
    human_probability = some (pos n);
    n_transactions = none;
    first_funder = none;
    first_funder_amount = none;
    first_funder_timestamp = none;
  });
}

-- The aggregate gives the number of values that it gets.
abbrev post : Text → Payload → Option Response
post url p =
    if text_eq url (codes "u1")
    then some (told 10)
    else if text_eq url (codes "u3")
    then some (told 30)
    else if text_eq url (codes "u4")
    then some (told (length (get_or p.scores [])))
    else none

abbrev ask : Option Text → Asked (Dict ModelScore)
ask given = handle_get_analysis settings post truthy (λ a. a) (codes "0xa") given none false

-- The models of the aggregate are asked with it, but not twice.
aggregated : ask (some (codes " eth ,aggregate")) ≡ (
  ok ((codes "eth", score (pos 10)) ∷ (codes "aggregate", score (pos 4)) ∷ []),
  codes "eth" ∷ codes "zk" ∷ codes "aggregate" ∷ [],
)
unfolding handle_get_analysis checked_models requested_models strip split distinct analyse
    get_model_responses urls_of fetch_all fetch with_aggregate get_aggregate_model_response
    get_submodel_responses_for_aggregate add_scores scores_of text_eq
aggregated = refl

by_default : ask none ≡ (
  ok ((codes "aggregate", score (pos 4)) ∷ []),
  codes "eth" ∷ codes "zk" ∷ codes "aggregate" ∷ [],
)
unfolding handle_get_analysis checked_models requested_models strip split distinct analyse
    get_model_responses urls_of fetch_all fetch with_aggregate get_aggregate_model_response
    get_submodel_responses_for_aggregate add_scores scores_of text_eq
by_default = refl

refused :
    (ask (some (codes "nft,eth")) ≡ (err analysis_error, codes "nft" ∷ codes "eth" ∷ []))
    × (ask (some (codes "bad")) ≡ (err bad_model_name, []))
    × (ask (some (codes "eth,,")) ≡ (err bad_model_name, []))
unfolding handle_get_analysis checked_models requested_models strip split distinct analyse
    get_model_responses urls_of fetch_all fetch with_aggregate get_aggregate_model_response
    get_submodel_responses_for_aggregate add_scores scores_of text_eq
refused = (refl, refl, refl)

handle_get_analysis-IsAnswered_example :
    (truthy (codes "0xa") ≡ true)
    × All (IsAnswered settings post (codes "0xa")) (
        filter
          (λ m. not (text_eq m settings.aggregate_model))
          (requested_models settings (some (codes " eth ,aggregate"))))
    × ((t : Text)
        → text_in t (codes "eth" ∷ codes "aggregate" ∷ [])
          ≡ text_in t (requested_models settings (some (codes " eth ,aggregate"))))
handle_get_analysis-IsAnswered_example =
    handle_get_analysis-IsAnswered settings post truthy (λ a. a) (codes "0xa")
      (some (codes " eth ,aggregate")) none false (ap (λ x. x.0) aggregated)
