-- ===== src/Scoring/Tests.antt =====
-- Runs of the scoring loop, and the theorems at them.
use passport_scorer.Common.{
  ℤ, pos, codes, text_eq, Dict, values, one, add_decimal, float_of, ◌*◌, ◌^◌, ◌≡◌, refl, none, some,
  [], ◌∷◌, map,
}
use passport_scorer.Scoring.{
  Stamp, empty_raw, add_stamps, Customization, StampTable, stamps_of, compute_score, acompute_score,
  recompute_score,
}
use passport_scorer.Scoring.Sum.{sum-distinct, total_weight, distinct, providers}
use passport_scorer.Scoring.Points.{least, expiration_date-least}
use passport_scorer.Scoring.Threshold.{
  Verdicts, compute_score-Verdicts, with_float_scores, scores_agree,
}

abbrev weights : Dict ℤ
weights = (codes "Github", pos 150000) ∷ (codes "Google", pos 70000) ∷ []

abbrev custom : Customization
custom = record {
  allow_lists = (codes "vip", pos 50000) ∷ [];
  custom_credentials = (codes "Google", pos 100000) ∷ [];
}

abbrev github : Stamp
github = record { provider = codes "Github"; expiration = 90 }

abbrev google : Stamp
google = record { provider = codes "Google"; expiration = 60 }

abbrev table : StampTable
table = (1, github) ∷ (2, google) ∷ (1, google) ∷ (1, record github { expiration = 30 }) ∷ []

-- The second Github stamp adds nothing, and its points are shown as zero.
duplicate_provider :
    let r = add_stamps weights (stamps_of 1 table) empty_raw in
    (r.sum_of_weights ≡ pos 220000)
    × (r.earned_points ≡ (codes "Github", pos 0) ∷ (codes "Google", pos 70000) ∷ [])
    × (r.expiration_date ≡ some 60)
unfolding add_stamps text_eq add_decimal
duplicate_provider = (refl, refl, refl)

customised :
    map (λ d. d.score) (compute_score (pos 250000) weights (some custom) table (1 ∷ 2 ∷ []))
    ≡ one ∷ pos 0 ∷ []
unfolding compute_score text_eq add_decimal
customised = refl

sum-distinct_example :
    (add_stamps weights (stamps_of 1 table) empty_raw).sum_of_weights
    ≡ total_weight weights (distinct (providers (stamps_of 1 table)))
sum-distinct_example = sum-distinct weights (stamps_of 1 table)

expiration_date-least_example :
    let r = add_stamps weights (stamps_of 1 table) empty_raw in
    r.expiration_date ≡ least (values r.stamp_expiration_dates)
expiration_date-least_example = expiration_date-least weights (stamps_of 1 table)

compute_score-Verdicts_example :
    Verdicts
      (pos 200000)
      weights
      (some custom)
      (λ p. stamps_of p table)
      (1 ∷ 2 ∷ [])
      (compute_score (pos 200000) weights (some custom) table (1 ∷ 2 ∷ []))
compute_score-Verdicts_example =
    compute_score-Verdicts (pos 200000) weights (some custom) table (1 ∷ 2 ∷ [])

scores_agree_example :
    (recompute_score (pos 200000) weights none ((1, github ∷ []) ∷ []) (1 ∷ 2 ∷ [])
      ≡ compute_score (pos 200000) weights none ((1, github) ∷ []) (1 ∷ 2 ∷ []))
    × (acompute_score (pos 200000) weights none ((1, github) ∷ []) (1 ∷ 2 ∷ [])
        ≡ with_float_scores
            (pos 200000)
            weights
            none
            (compute_score (pos 200000) weights none ((1, github) ∷ []) (1 ∷ 2 ∷ [])))
scores_agree_example =
    scores_agree (pos 200000) weights none ((1, github) ∷ []) ((1, github ∷ []) ∷ []) (1 ∷ 2 ∷ [])
      (λ p. refl)

abbrev seven_tenths : ℤ
seven_tenths = pos (7 * 10 ^ 1073)

-- The weight 0.7, which is a float, does not reach the threshold 0.7; as a text it does.
float_weight :
    map
      (λ d. d.score)
      (compute_score seven_tenths
        ((codes "Github", float_of seven_tenths) ∷ [])
        none
        ((1, github) ∷ [])
        (1 ∷ []))
    ≡ pos 0 ∷ []
unfolding compute_score text_eq add_decimal float_of
float_weight = refl

text_weight :
    map
      (λ d. d.score)
      (compute_score seven_tenths
        ((codes "Github", seven_tenths) ∷ [])
        none
        ((1, github) ∷ [])
        (1 ∷ []))
    ≡ one ∷ []
unfolding compute_score text_eq add_decimal
text_weight = refl
