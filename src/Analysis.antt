-- ===== src/Analysis.antt =====
-- The analysis of an address by models (api/passport/api.py). The models are remote services, which
-- a call gives the address or, for the aggregate, the scores of the others.
pub mod Responses
pub mod Scored
mod Tests
use mathlib.Core.Option as Option
use passport_scorer.Common.{
  ltb, leb, ◌==◌, if◌then◌else◌, get_or, length, filter, all, null, head?, ℤ, pos, negsuc, Text,
  codes, text_eq, text_in, truthy, Dict, lookup, has_key, insert, keys, ok_or, ◌>>=◌, ◌>>◌,
  raise_if, Result, err, ok, ℕ, Bool, not, ◌&&◌, ◌||◌, Option, none, some, List, [], ◌∷◌, ◌++◌, map,
}

-- The part of a model's answer that is read; a key that is missing is `none`.
pub record ModelData : Type 0 where
  pub human_probability : Option ℤ
  pub n_transactions : Option ℤ
  pub first_funder : Option Text
  pub first_funder_amount : Option ℤ
  pub first_funder_timestamp : Option Text

-- What `fetch` gives.
pub record Response : Type 0 where
  pub status : ℕ
  pub body : Option ModelData

-- What is posted: the address, and the data of the aggregate.
pub record Payload : Type 0 where
  pub address : Text
  pub scores : Option (Dict ℤ)

-- MODEL_ENDPOINTS and MODEL_AGGREGATION_NAMES, with the other settings.
pub record Settings : Type 0 where
  pub endpoints : Dict Text
  pub aggregation_names : Dict Text
  pub aggregate_model : Text
  pub default_models : Text
  pub only_one_model : Bool

pub data Failure : Type 0 where
  invalid_address : Failure
  bad_model_name : Failure
  analysis_error : Failure

-- `ScoreModel` and `DetailedScoreModel`
pub data ModelScore : Type 0 where
  score : ℤ → ModelScore
  detailed_score : ℤ → ℤ → Text → ℤ → Text → ModelScore

abbrev pub score_of : ModelData → ModelScore
score_of d = score (get_or d.human_probability (pos 0))

abbrev pub details_of : ModelData → ModelScore
details_of d =
    detailed_score (get_or d.human_probability (pos 0)) (get_or d.n_transactions (pos 0))
      (get_or d.first_funder []) (get_or d.first_funder_amount (pos 0))
      (get_or d.first_funder_timestamp [])

-- A whitespace character of ASCII.
abbrev is_space : ℕ → Bool
is_space c = leb 9 c && leb c 13 || leb 28 c && leb c 32

lstrip : Text → Text
lstrip [] = []
lstrip (c ∷ s) = let rest = lstrip s in if is_space c then rest else c ∷ s

rstrip : Text → Text
rstrip [] = []
rstrip (c ∷ s) = let rest = rstrip s in if is_space c && null rest then [] else c ∷ rest

-- `s.strip()`
unfoldable pub strip : Text → Text
unfolding lstrip rstrip
strip s = rstrip (lstrip s)

-- `s.split(sep)`, behind the part that is being read
split_from : ℕ → Text → Text → List Text
split_from sep part [] = part ∷ []
split_from sep part (c ∷ s) =
    let rest = split_from sep (if c == sep then [] else part ++ c ∷ []) s in
    if c == sep then part ∷ rest else rest

unfoldable pub split : ℕ → Text → List Text
unfolding split_from
split sep s = split_from sep [] s

-- `list(set(ts))`; the order, which Python leaves open, is that of the last occurrences.
unfoldable pub distinct : List Text → List Text
distinct [] = []
distinct (t ∷ ts) = let rest = distinct ts in if text_in t ts then rest else t ∷ rest

-- The names in a list of models, which is the default one if none is given.
unfoldable pub requested_models : Settings → Option Text → List Text
unfolding strip split distinct
requested_models settings given =
    let list = get_or given [] in
    distinct
      (map strip (split b',' (if truthy (strip list) then list else settings.default_models)))

-- A chain of requests: its answer, and the models that were asked on the way.
abbrev pub Asked {ℓ} : Type ℓ → Type ℓ
Asked V = Result Failure V × List Text

abbrev pub then_ask {ℓ κ} : {V : Type ℓ} {W : Type κ} → Asked V → (V → Asked W) → Asked W
then_ask (err e, asked) next = (err e, asked)
then_ask (ok v, asked) next = ((next v).0, asked ++ (next v).1)

-- `post` sends a payload to an address of the network; none is an exception.
module _ (settings : Settings) (post : Text → Payload → Option Response) where
  abbrev pub no_data : ModelData
  no_data = record {
    human_probability = some (negsuc 0);
    n_transactions = some (negsuc 0);
    first_funder = none;
    first_funder_amount = none;
    first_funder_timestamp = none;
  }

  -- `fetch`
  unfoldable pub fetch : Text → Payload → Response
  fetch url payload = get_or (post url payload) (record { status = 500; body = some no_data })

  -- The addresses of the models, which raises for a name without one.
  unfoldable pub urls_of : List Text → Option (List Text)
  urls_of [] = some []
  urls_of (m ∷ ms) = elim (lookup m settings.endpoints) [
    | none ↦ none
    | some url ↦ Option.map (λ us. url ∷ us) (urls_of ms)
  ]

  -- `fetch_all`, with the models' names
  unfoldable pub fetch_all : List Text → List Text → Payload → List (Text × Response)
  unfolding fetch
  fetch_all [] urls payload = []
  fetch_all (m ∷ ms) [] payload = []
  fetch_all (m ∷ ms) (url ∷ urls) payload = (m, fetch url payload) ∷ fetch_all ms urls payload

  -- `get_model_responses`, with the names
  unfoldable pub get_model_responses : List Text → Text → Asked (List (Text × Response))
  unfolding urls_of fetch_all
  get_model_responses models address = elim (urls_of models) [
    | none ↦ (err analysis_error, [])
    | some urls ↦ (ok (fetch_all models urls (record { address = address; scores = none })), models)
  ]

  abbrev pub all_ok : List (Text × Response) → Bool
  all_ok = all (λ r. r.1.status == 200)

  -- `get_submodel_responses_for_aggregate`
  unfoldable pub get_submodel_responses_for_aggregate :
      Text → List (Text × Response) → Asked (List (Text × Response))
  unfolding get_model_responses
  get_submodel_responses_for_aggregate address prefetched =
      let relevant = filter (λ r. has_key r.0 settings.aggregation_names) prefetched in
      let additional =
        filter (λ m. not (text_in m (keys relevant))) (keys settings.aggregation_names) in
      then_ask (get_model_responses additional address) (λ more. (ok (relevant ++ more), []))

  -- The loop that fills the payload; a null in place of a model's data raises.
  unfoldable pub add_scores : List (Text × Response) → Dict ℤ → Option (Dict ℤ)
  add_scores [] scores = some scores
  add_scores ((m, r) ∷ rest) scores = elim r.body [
    | none ↦ none
    | some d ↦ elim (lookup m settings.aggregation_names) [
      | none ↦ none
      | some key ↦ add_scores rest (
          insert (codes "txs_" ++ key) (get_or d.n_transactions (pos 0))
            (insert (codes "score_" ++ key) (get_or d.human_probability (pos 0)) scores))
    ]
  ]

  -- The request to the aggregate, which is the first of one answer.
  abbrev pub ask_aggregate : Text → Option (Dict ℤ) → Asked Response
  ask_aggregate address none = (err analysis_error, [])
  ask_aggregate address (some scores) = elim (lookup settings.aggregate_model settings.endpoints) [
    | none ↦ (err analysis_error, [])
    | some url ↦ (
      ok (fetch url (record { address = address; scores = some scores })),
      settings.aggregate_model ∷ [],
    )
  ]

  -- `get_aggregate_model_response`
  unfoldable pub get_aggregate_model_response : Text → List (Text × Response) → Asked Response
  unfolding get_submodel_responses_for_aggregate add_scores fetch
  get_aggregate_model_response address prefetched =
      then_ask (get_submodel_responses_for_aggregate address prefetched) (λ responses.
        if all_ok responses
        then ask_aggregate address (add_scores responses [])
        else (err analysis_error, []))

  -- The responses with that of the aggregate, if it is asked for.
  unfoldable pub with_aggregate :
      Text → List Text → List (Text × Response) → Asked (List (Text × Response))
  unfolding get_aggregate_model_response
  with_aggregate address models responses =
      if not (all_ok responses)
      then (err analysis_error, [])
      else if text_in settings.aggregate_model models
      then then_ask (get_aggregate_model_response address responses) (λ r.
        if r.status == 200
        then (ok (responses ++ (settings.aggregate_model, r) ∷ []), [])
        else (err analysis_error, []))
      else (ok responses, [])

  -- The scores of the answer; with `additional_data` what else the models tell is given too.
  unfoldable pub scores_of :
      Bool → List (Text × Response) → Dict ModelScore → Option (Dict ModelScore)
  scores_of detailed [] scores = some scores
  scores_of detailed ((m, r) ∷ rest) scores = elim r.body [
    | none ↦ none
    | some d ↦
        scores_of detailed rest (insert m (if detailed then details_of d else score_of d) scores)
  ]

  abbrev pub answer_of : Bool → List (Text × Response) → Asked (Dict ModelScore)
  answer_of detailed responses = (ok_or (scores_of detailed responses []) analysis_error, [])

  -- What is asked for that no handler before has refused.
  unfoldable pub checked_models :
      (Text → Bool) → Text → Option Text → Option Bool → Result Failure (List Text)
  unfolding requested_models
  checked_models is_valid_address address given only_one = do
    let models = requested_models settings given
    raise_if (not (is_valid_address address)) invalid_address
    raise_if (get_or only_one settings.only_one_model && ltb 1 (length models)) bad_model_name
    raise_if (text_eq (get_or (head? models) []) []) bad_model_name
    raise_if (not (all (λ m. has_key m settings.endpoints) models)) bad_model_name
    ok models

  -- The requests of `handle_get_analysis`: the models first, and then the aggregate.
  unfoldable pub analyse : Bool → Text → List Text → Asked (Dict ModelScore)
  unfolding get_model_responses with_aggregate scores_of
  analyse detailed address models =
      then_ask
        (then_ask
          (get_model_responses (filter (λ m. not (text_eq m settings.aggregate_model)) models)
            address)
          (with_aggregate address models))
        (answer_of detailed)

  -- `handle_get_analysis`: the scores, by the models' names, and the models that were asked.
  -- `to_checksum_address` is that of eth_utils.
  unfoldable pub handle_get_analysis :
      (Text → Bool)
      → (Text → Text)
      → Text
      → Option Text
      → Option Bool
      → Bool
      → Asked (Dict ModelScore)
  unfolding checked_models analyse
  handle_get_analysis is_valid_address to_checksum_address address given only_one detailed =
      elim (checked_models is_valid_address address given only_one) [
        | err e ↦ (err e, [])
        | ok models ↦ analyse detailed (to_checksum_address address) models
      ]
