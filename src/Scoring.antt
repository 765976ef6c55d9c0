-- ===== src/Scoring.antt =====
-- Weighted scores (api/scorer_weighted/computation.py and models.py): the loop over a passport's
-- stamps, the customisation's weights, and the threshold.
pub mod Loops
pub mod Sum
pub mod Points
pub mod Threshold
mod Tests
use passport_scorer.Common.{
  ltb, ◌==◌, if◌then◌else◌, get_or, leb_ℤ, ℤ, pos, negsuc, Text, codes, text_in, Dict, lookup,
  insert, update, one, add_decimal, float_of, ℕ, Bool, true, not, Option, none, some, List, [], ◌∷◌,
  ◌++◌, map,
}

-- What the loop reads of a row of `registry.models.Stamp`.
pub record Stamp : Type 0 where
  pub provider : Text
  pub expiration : ℕ

-- The loop's variables.
pub record Raw : Type 0 where
  pub sum_of_weights : ℤ
  pub scored_providers : List Text
  pub earned_points : Dict ℤ
  pub expiration_date : Option ℕ
  pub stamp_expiration_dates : Dict ℕ

abbrev pub empty_raw : Raw
empty_raw = record {
  sum_of_weights = pos 0;
  scored_providers = [];
  earned_points = [];
  expiration_date = none;
  stamp_expiration_dates = [];
}

-- `Decimal(weights.get(provider, 0))`; a weight that is a float stands with its exact value, as
-- `Decimal` takes it.
unfoldable pub weight_of : Dict ℤ → Text → ℤ
weight_of weights provider = get_or (lookup provider weights) (pos 0)

unfoldable pub earlier : Option ℕ → ℕ → Option ℕ
earlier none d = some d
earlier (some e) d = if ltb d e then some d else some e

-- One round of `for stamp in Stamp.objects.filter(...)` in `calculate_weighted_score`, and the loop.
unfoldable pub add_stamp : Dict ℤ → Raw → Stamp → Raw
unfolding weight_of earlier add_decimal
add_stamp weights r stamp =
    if text_in stamp.provider r.scored_providers
    then record r { earned_points = insert stamp.provider (pos 0) r.earned_points }
    else let weight = weight_of weights stamp.provider in
      record {
        sum_of_weights = add_decimal r.sum_of_weights weight;
        scored_providers = r.scored_providers ++ stamp.provider ∷ [];
        earned_points = insert stamp.provider weight r.earned_points;
        expiration_date = earlier r.expiration_date stamp.expiration;
        stamp_expiration_dates = insert stamp.provider stamp.expiration r.stamp_expiration_dates;
      }

unfoldable pub add_stamps : Dict ℤ → List Stamp → Raw → Raw
unfolding add_stamp
add_stamps weights [] r = r
add_stamps weights (s ∷ ss) r = add_stamps weights ss (add_stamp weights r s)

-- One round of `for stamp in stamp_list` in `recalculate_weighted_score`, and the loop.
unfoldable pub add_fetched_stamp : Dict ℤ → Raw → Stamp → Raw
unfolding weight_of earlier add_decimal
add_fetched_stamp weights r stamp =
    if text_in stamp.provider r.scored_providers
    then record r { earned_points = insert stamp.provider (pos 0) r.earned_points }
    else let weight = weight_of weights stamp.provider in
      record {
        sum_of_weights = add_decimal r.sum_of_weights weight;
        scored_providers = r.scored_providers ++ stamp.provider ∷ [];
        earned_points = insert stamp.provider weight r.earned_points;
        expiration_date = earlier r.expiration_date stamp.expiration;
        stamp_expiration_dates = insert stamp.provider stamp.expiration r.stamp_expiration_dates;
      }

unfoldable pub add_fetched_stamps : Dict ℤ → List Stamp → Raw → Raw
unfolding add_fetched_stamp
add_fetched_stamps weights [] r = r
add_fetched_stamps weights (s ∷ ss) r =
    add_fetched_stamps weights ss (add_fetched_stamp weights r s)

-- One round of the `async for` in `acalculate_weighted_score`, and the loop: its points are floats.
unfoldable pub aadd_stamp : Dict ℤ → Raw → Stamp → Raw
unfolding weight_of earlier add_decimal float_of
aadd_stamp weights r stamp =
    if text_in stamp.provider r.scored_providers
    then record r { earned_points = insert stamp.provider (float_of (pos 0)) r.earned_points }
    else let weight = weight_of weights stamp.provider in
      record {
        sum_of_weights = add_decimal r.sum_of_weights weight;
        scored_providers = r.scored_providers ++ stamp.provider ∷ [];
        earned_points = insert stamp.provider (float_of weight) r.earned_points;
        expiration_date = earlier r.expiration_date stamp.expiration;
        stamp_expiration_dates = insert stamp.provider stamp.expiration r.stamp_expiration_dates;
      }

unfoldable pub aadd_stamps : Dict ℤ → List Stamp → Raw → Raw
unfolding aadd_stamp
aadd_stamps weights [] r = r
aadd_stamps weights (s ∷ ss) r = aadd_stamps weights ss (aadd_stamp weights r s)

-- `account.models.Customization`: the weights of its allow lists, by the list's name, and of its
-- custom credentials, by the ruleset's provider id.
pub record Customization : Type 0 where
  pub allow_lists : List (Text × ℤ)
  pub custom_credentials : List (Text × ℤ)

abbrev allow_list_prefix : Text
allow_list_prefix = codes "AllowList#"

abbrev add_allow_lists : List (Text × ℤ) → Dict ℤ → Dict ℤ
add_allow_lists [] weights = weights
add_allow_lists ((name, weight) ∷ ls) weights =
    add_allow_lists ls (insert (allow_list_prefix ++ name) weight weights)

-- `get_customization_dynamic_weights`
unfoldable pub get_customization_dynamic_weights : Customization → Dict ℤ
get_customization_dynamic_weights c = update (add_allow_lists c.allow_lists []) c.custom_credentials

-- `aget_customization_dynamic_weights`
unfoldable pub aget_customization_dynamic_weights : Customization → Dict ℤ
aget_customization_dynamic_weights c =
    update (add_allow_lists c.allow_lists []) c.custom_credentials

-- The scorer's weights, updated in place where the community has a customisation.
unfoldable pub effective_weights : Dict ℤ → Option Customization → Dict ℤ
unfolding get_customization_dynamic_weights
effective_weights weights none = weights
effective_weights weights (some c) = update weights (get_customization_dynamic_weights c)

unfoldable pub aeffective_weights : Dict ℤ → Option Customization → Dict ℤ
unfolding aget_customization_dynamic_weights
aeffective_weights weights none = weights
aeffective_weights weights (some c) = update weights (aget_customization_dynamic_weights c)

-- The table of stamps, by passport.
abbrev pub StampTable : Type 0
StampTable = List (ℕ × Stamp)

abbrev pub stamps_of : ℕ → StampTable → List Stamp
stamps_of passport [] = []
stamps_of passport ((p, s) ∷ table) =
    if p == passport then s ∷ stamps_of passport table else stamps_of passport table

-- `calculate_weighted_score`
unfoldable pub calculate_weighted_score :
    Dict ℤ → Option Customization → StampTable → List ℕ → List Raw
unfolding effective_weights add_stamps
calculate_weighted_score weights custom table passport_ids =
    map (λ p. add_stamps (effective_weights weights custom) (stamps_of p table) empty_raw)
      passport_ids

-- `acalculate_weighted_score`
unfoldable pub acalculate_weighted_score :
    Dict ℤ → Option Customization → StampTable → List ℕ → List Raw
unfolding aeffective_weights aadd_stamps
acalculate_weighted_score weights custom table passport_ids =
    map (λ p. aadd_stamps (aeffective_weights weights custom) (stamps_of p table) empty_raw)
      passport_ids

-- `stamps.get(passport_id, [])`
abbrev pub given_stamps : ℕ → List (ℕ × List Stamp) → List Stamp
given_stamps p [] = []
given_stamps p ((q, ss) ∷ d) = if q == p then ss else given_stamps p d

-- `recalculate_weighted_score`, over stamps that the caller has fetched
unfoldable pub recalculate_weighted_score :
    Dict ℤ → Option Customization → List (ℕ × List Stamp) → List ℕ → List Raw
unfolding effective_weights add_fetched_stamps
recalculate_weighted_score weights custom stamps passport_ids =
    map
      (λ p. add_fetched_stamps (effective_weights weights custom) (given_stamps p stamps) empty_raw)
      passport_ids

-- `ThresholdScoreEvidence`
pub record Evidence : Type 0 where
  pub success : Bool
  pub raw_score : ℤ
  pub threshold : ℤ

-- `ScoreData`, with its one piece of evidence.
pub record ScoreData : Type 0 where
  pub score : ℤ
  pub evidence : Evidence
  pub stamp_scores : Dict ℤ
  pub expiration_date : Option ℕ
  pub stamp_expiration_dates : Dict ℕ

-- `_score_to_binary`
unfoldable pub score_to_binary : ℤ → ℤ → ℤ
unfolding one
score_to_binary threshold sum = if leb_ℤ threshold sum then one else pos 0

abbrev pub is_nonzero : ℤ → Bool
is_nonzero (pos n) = not (n == 0)
is_nonzero (negsuc n) = true

-- `_make_score_data`, for one pair of the `zip`
unfoldable pub make_score_data : ℤ → Raw → ℤ → ScoreData
make_score_data threshold raw binary = record {
  score = binary;
  evidence = record {
    success = is_nonzero binary;
    raw_score = raw.sum_of_weights;
    threshold = threshold;
  };
  stamp_scores = raw.earned_points;
  expiration_date = raw.expiration_date;
  stamp_expiration_dates = raw.stamp_expiration_dates;
}

abbrev score_raw : ℤ → List Raw → List ScoreData
score_raw threshold [] = []
score_raw threshold (r ∷ rs) =
    make_score_data threshold r (score_to_binary threshold r.sum_of_weights)
    ∷ score_raw threshold rs

-- `compute_score`, `acompute_score` and `recompute_score` of `BinaryWeightedScorerMixin`
unfoldable pub compute_score :
    ℤ → Dict ℤ → Option Customization → StampTable → List ℕ → List ScoreData
unfolding calculate_weighted_score make_score_data score_to_binary
compute_score threshold weights custom table passport_ids =
    score_raw threshold (calculate_weighted_score weights custom table passport_ids)

unfoldable pub acompute_score :
    ℤ → Dict ℤ → Option Customization → StampTable → List ℕ → List ScoreData
unfolding acalculate_weighted_score make_score_data score_to_binary
acompute_score threshold weights custom table passport_ids =
    score_raw threshold (acalculate_weighted_score weights custom table passport_ids)

unfoldable pub recompute_score :
    ℤ → Dict ℤ → Option Customization → List (ℕ × List Stamp) → List ℕ → List ScoreData
unfolding recalculate_weighted_score make_score_data score_to_binary
recompute_score threshold weights custom stamps passport_ids =
    score_raw threshold (recalculate_weighted_score weights custom stamps passport_ids)
