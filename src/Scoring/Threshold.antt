-- ===== src/Scoring/Threshold.antt =====
-- `compute_score` and `recompute_score` of `BinaryWeightedScorerMixin`
-- (api/scorer_weighted/models.py): the score is a verdict on the weight of the distinct providers.
use passport_scorer.Common.{
  if◌then◌else◌, head?, leb_ℤ, ℤ, pos, Dict, one, ℕ, ◌≡◌, refl, Bool, true, false, Option, some,
  List, [], ◌∷◌,
}
use passport_scorer.Scoring.{
  Stamp, Raw, empty_raw, add_stamps, Customization, effective_weights, StampTable, stamps_of,
  given_stamps, ScoreData, score_to_binary, is_nonzero, make_score_data, compute_score,
  acompute_score, recompute_score,
}
use passport_scorer.Scoring.Loops.{
  floats, with_floats, aeffective_weights-effective_weights, add_fetched_stamps-add_stamps,
  aadd_stamps-add_stamps,
}
use passport_scorer.Scoring.Sum.{providers, distinct, total_weight, sum-distinct}

is_nonzero-verdict : (b : Bool) → is_nonzero (if b then one else pos 0) ≡ b
unfolding one
is_nonzero-verdict true = refl
is_nonzero-verdict false = refl

-- The weight that a passport's stamps have, each provider once.
abbrev pub passport_weight : Dict ℤ → Option Customization → List Stamp → ℤ
passport_weight weights custom ss =
    total_weight (effective_weights weights custom) (distinct (providers ss))

-- A verdict on a weight: 1 if the threshold is met and else 0, with the evidence for it.
pub record Judges (threshold weight : ℤ) (d : ScoreData) : Type 0 where
  pub verdict : d.score ≡ (if leb_ℤ threshold weight then one else pos 0)
  pub success : d.evidence.success ≡ leb_ℤ threshold weight
  pub raw : d.evidence.raw_score ≡ weight
  pub stated : d.evidence.threshold ≡ threshold

make_score_data-Judges :
    (threshold weight : ℤ) (raw : Raw)
    → raw.sum_of_weights ≡ weight
    → Judges threshold weight
        (make_score_data threshold raw (score_to_binary threshold raw.sum_of_weights))
unfolding make_score_data score_to_binary
make_score_data-Judges threshold weight raw e = record {
  verdict = rw e refl;
  success = rw e (is_nonzero-verdict _);
  raw = e;
  stated = refl;
}

module _ (threshold : ℤ) (weights : Dict ℤ) (custom : Option Customization) where
  -- One verdict for each passport, in order.
  abbrev pub Verdicts : (ℕ → List Stamp) → List ℕ → List ScoreData → Type 0
  Verdicts stamps [] [] = Unit
  Verdicts stamps [] (d ∷ ds) = ⊥
  Verdicts stamps (p ∷ ps) [] = ⊥
  Verdicts stamps (p ∷ ps) (d ∷ ds) =
      Judges threshold (passport_weight weights custom (stamps p)) d × Verdicts stamps ps ds

  -- Every passport that is asked for gets a verdict on the weight of the distinct providers of its
  -- stamps, under the scorer's weights as the community's customisation updates them: 1 and success
  -- if that meets the threshold, 0 and failure if not, with the weight and threshold as evidence.
  -- The weight is the sum of the weights' exact values, each partial sum rounded to 28 digits.
  pub compute_score-Verdicts :
      (table : StampTable) (passport_ids : List ℕ)
      → Verdicts
          (λ p. stamps_of p table)
          passport_ids
          (compute_score threshold weights custom table passport_ids)
  unfolding compute_score make_score_data score_to_binary
  compute_score-Verdicts table [] = tt
  compute_score-Verdicts table (p ∷ ps) = (
    make_score_data-Judges threshold (passport_weight weights custom (stamps_of p table))
        (add_stamps (effective_weights weights custom) (stamps_of p table) empty_raw)
        (sum-distinct (effective_weights weights custom) (stamps_of p table)),
    compute_score-Verdicts table ps,
  )

  -- The points of the stamps as floats.
  abbrev pub with_float_scores : List ScoreData → List ScoreData
  with_float_scores [] = []
  with_float_scores (d ∷ ds) =
      record d { stamp_scores = floats d.stamp_scores } ∷ with_float_scores ds

  pub acompute_score-compute_score :
      (table : StampTable) (passport_ids : List ℕ)
      → acompute_score threshold weights custom table passport_ids
        ≡ with_float_scores (compute_score threshold weights custom table passport_ids)
  unfolding acompute_score compute_score make_score_data score_to_binary
  acompute_score-compute_score table [] = refl
  acompute_score-compute_score table (p ∷ ps) =
      rw
        (
          aeffective_weights-effective_weights weights custom,
          aadd_stamps-add_stamps (effective_weights weights custom) (stamps_of p table) empty_raw,
          acompute_score-compute_score table ps,
        )
        refl

  -- One passport is asked for, so there is one verdict.
  pub first_verdict :
      (table : StampTable) (p : ℕ)
      → (d : ScoreData) × (head? (acompute_score threshold weights custom table (p ∷ [])) ≡ some d)
        × Judges threshold (passport_weight weights custom (stamps_of p table)) d
  unfolding acompute_score
  first_verdict table p =
      let raw = add_stamps (effective_weights weights custom) (stamps_of p table) empty_raw in
      let raw' = with_floats raw in
      (
        make_score_data threshold raw' (score_to_binary threshold raw'.sum_of_weights),
        rw
            (
              aeffective_weights-effective_weights weights custom,
              aadd_stamps-add_stamps (effective_weights weights custom) (stamps_of p table)
                  empty_raw,
            )
            refl,
        make_score_data-Judges threshold (passport_weight weights custom (stamps_of p table)) raw'
            (sum-distinct (effective_weights weights custom) (stamps_of p table)),
      )

  pub recompute_score-compute_score :
      (table : StampTable) (stamps : List (ℕ × List Stamp)) (passport_ids : List ℕ)
      → ((p : ℕ) → given_stamps p stamps ≡ stamps_of p table)
      → recompute_score threshold weights custom stamps passport_ids
        ≡ compute_score threshold weights custom table passport_ids
  unfolding compute_score recompute_score make_score_data score_to_binary
  recompute_score-compute_score table stamps [] same = refl
  recompute_score-compute_score table stamps (p ∷ ps) same =
      rw
        (
          same p,
          add_fetched_stamps-add_stamps (effective_weights weights custom) (stamps_of p table)
              empty_raw,
          recompute_score-compute_score table stamps ps same,
        )
        refl

  -- The three ways to compute scores, each with a loop of its own, agree: where the lists that a
  -- caller has fetched are the table's, recomputing over them gives the scores of `compute_score`,
  -- and `acompute_score` gives them with the stamps' points as floats.
  pub scores_agree :
      (table : StampTable) (stamps : List (ℕ × List Stamp)) (passport_ids : List ℕ)
      → ((p : ℕ) → given_stamps p stamps ≡ stamps_of p table)
      → (recompute_score threshold weights custom stamps passport_ids
          ≡ compute_score threshold weights custom table passport_ids)
        × (acompute_score threshold weights custom table passport_ids
            ≡ with_float_scores (compute_score threshold weights custom table passport_ids))
  scores_agree table stamps passport_ids same = (
    recompute_score-compute_score table stamps passport_ids same,
    acompute_score-compute_score table passport_ids,
  )
