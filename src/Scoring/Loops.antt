-- ===== src/Scoring/Loops.antt =====
-- The three loops of api/scorer_weighted/computation.py against each other.
use passport_scorer.Common.{
  Bool-cases, ℤ, pos, Text, text_eq, text_in, Dict, insert, float_of, ◌≡◌, refl, inl, inr, Option,
  none, some, List, [], ◌∷◌,
}
use passport_scorer.Scoring.{
  Stamp, Raw, weight_of, add_stamp, add_stamps, add_fetched_stamp, add_fetched_stamps, aadd_stamp,
  aadd_stamps, Customization, effective_weights, aeffective_weights,
}

-- The points as floats.
abbrev pub floats : Dict ℤ → Dict ℤ
floats [] = []
floats ((k, z) ∷ d) = (k, float_of z) ∷ floats d

abbrev pub with_floats : Raw → Raw
with_floats r = record r { earned_points = floats r.earned_points }

floats-insert :
    (k : Text) (z : ℤ) (d : Dict ℤ) → floats (insert k z d) ≡ insert k (float_of z) (floats d)
floats-insert k z [] = refl
floats-insert k z (e ∷ d) = elim (Bool-cases (text_eq k e.0)) [
  | inl same ↦ rw same refl
  | inr other ↦ rw (other, floats-insert k z d) refl
]

pub aeffective_weights-effective_weights :
    (weights : Dict ℤ) (custom : Option Customization)
    → aeffective_weights weights custom ≡ effective_weights weights custom
unfolding aeffective_weights effective_weights
aeffective_weights-effective_weights weights none = refl
aeffective_weights-effective_weights weights (some c) = refl

module _ (weights : Dict ℤ) where
  pub add_fetched_stamps-add_stamps :
      (ss : List Stamp) (r : Raw) → add_fetched_stamps weights ss r ≡ add_stamps weights ss r
  unfolding add_fetched_stamps add_stamps
  add_fetched_stamps-add_stamps [] r = refl
  add_fetched_stamps-add_stamps (s ∷ ss) r =
      add_fetched_stamps-add_stamps ss (add_fetched_stamp weights r s)

  aadd_stamp-add_stamp :
      (r : Raw) (s : Stamp)
      → aadd_stamp weights (with_floats r) s ≡ with_floats (add_stamp weights r s)
  unfolding aadd_stamp add_stamp
  aadd_stamp-add_stamp r s = elim (Bool-cases (text_in s.provider r.scored_providers)) [
    | inl seen ↦ rw (seen, floats-insert s.provider (pos 0) r.earned_points) refl
    | inr new ↦
        rw (new, floats-insert s.provider (weight_of weights s.provider) r.earned_points) refl
  ]

  -- The asynchronous loop computes what the other does, with floats for points.
  pub aadd_stamps-add_stamps :
      (ss : List Stamp) (r : Raw)
      → aadd_stamps weights ss (with_floats r) ≡ with_floats (add_stamps weights ss r)
  unfolding aadd_stamps add_stamps
  aadd_stamps-add_stamps [] r = refl
  aadd_stamps-add_stamps (s ∷ ss) r =
      rw (aadd_stamp-add_stamp r s) (aadd_stamps-add_stamps ss (add_stamp weights r s))
