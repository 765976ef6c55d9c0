-- ===== src/Scoring/Sum.antt =====
-- What the loop of api/scorer_weighted/computation.py adds up: the weight of each provider once, the
-- points shown for a provider, and the earliest expiration date.
use passport_scorer.Common.{
  Bool-cases, filter, ℤ, pos, Text, text_eq, text_eq_iff, text_in, text_in-snoc, Dict, add_decimal,
  ◌≡◌, refl, ap, inl, inr, true, not, List, [], ◌∷◌, ◌++◌, arith,
}
use passport_scorer.Scoring.{Stamp, Raw, empty_raw, weight_of, add_stamp, add_stamps}

abbrev pub providers : List Stamp → List Text
providers [] = []
providers (s ∷ ss) = s.provider ∷ providers ss

-- Each item once.
abbrev pub distinct : List Text → List Text
distinct [] = []
distinct (x ∷ xs) = x ∷ filter (λ y. not (text_eq y x)) (distinct xs)

-- The items that have not been seen.
abbrev unseen : List Text → List Text → List Text
unseen seen = filter (λ x. not (text_in x seen))

-- The weights of providers added up from left to right, as decimals of 28 digits.
abbrev pub add_weights : Dict ℤ → List Text → ℤ → ℤ
add_weights weights [] sum = sum
add_weights weights (p ∷ ps) sum = add_weights weights ps (add_decimal sum (weight_of weights p))

abbrev pub total_weight : Dict ℤ → List Text → ℤ
total_weight weights ps = add_weights weights ps (pos 0)

unseen_of_seen :
    (x : Text) (seen ys : List Text)
    → text_in x seen ≡ true
    → unseen seen (filter (λ y. not (text_eq y x)) ys) ≡ unseen seen ys
unseen_of_seen x seen [] h = refl
unseen_of_seen x seen (y ∷ ys) h = ground (arith, text_eq_iff y x, unseen_of_seen x seen ys h)

unseen-snoc :
    (x : Text) (seen ys : List Text)
    → unseen (seen ++ x ∷ []) ys ≡ unseen seen (filter (λ y. not (text_eq y x)) ys)
unseen-snoc x seen [] = refl
unseen-snoc x seen (y ∷ ys) = ground (arith, text_in-snoc y x seen, unseen-snoc x seen ys)

unseen_nothing : (ys : List Text) → unseen [] ys ≡ ys
unseen_nothing [] = refl
unseen_nothing (y ∷ ys) = ap (◌∷◌ y) (unseen_nothing ys)

module _ (weights : Dict ℤ) where
  add_stamps-sum :
      (ss : List Stamp) (r : Raw)
      → (add_stamps weights ss r).sum_of_weights
        ≡ add_weights weights (unseen r.scored_providers (distinct (providers ss))) r.sum_of_weights
  unfolding add_stamps
  add_stamps-sum [] r = refl
  add_stamps-sum (s ∷ ss) r = elim (Bool-cases (text_in s.provider r.scored_providers)) [
    | inl old ↦
        rw
          (
            add_stamps-sum ss (add_stamp weights r s),
            old,
            unseen_of_seen s.provider r.scored_providers (distinct (providers ss)) old,
          )
          refl
    | inr new ↦
        rw
          (
            add_stamps-sum ss (add_stamp weights r s),
            new,
            unseen-snoc s.provider r.scored_providers (distinct (providers ss)),
          )
          refl
  ]

  -- The sum of weights counts each provider of the passport's stamps once, at its first stamp,
  -- whatever the number of its stamps: the exact values of the weights, which for a float are those
  -- of its binary expansion, are added in that order, each sum rounded to 28 digits.
  pub sum-distinct :
      (ss : List Stamp)
      → (add_stamps weights ss empty_raw).sum_of_weights
        ≡ total_weight weights (distinct (providers ss))
  sum-distinct ss = rw (add_stamps-sum ss empty_raw, unseen_nothing) refl
