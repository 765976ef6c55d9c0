-- ===== src/Scoring/Points.antt =====
-- The points that the loop of api/scorer_weighted/computation.py shows for each provider, and the
-- date at which the score expires.
use passport_scorer.Common.{
  ltb, if◌then◌else◌, Bool-cases, ℤ, pos, Text, text_eq, text_eq_iff, text_in, text_in-snoc, Dict,
  lookup, keys, values, lookup-insert, insert_absent, keys-append, values-append, ℕ, zero, suc, ◌≡◌,
  refl, ◌∙◌, inl, inr, Bool, true, false, Option, none, some, List, [], ◌∷◌, ◌++◌, arith,
}
use passport_scorer.Scoring.{Stamp, Raw, empty_raw, weight_of, earlier, add_stamp, add_stamps}

abbrev pub occurrences : Text → List Stamp → ℕ
occurrences p [] = 0
occurrences p (s ∷ ss) = if text_eq p s.provider then suc (occurrences p ss) else occurrences p ss

-- The points of a provider with `n` stamps.
abbrev pub points_for : ℤ → ℕ → Option ℤ
points_for w zero = none
points_for w (suc zero) = some w
points_for w (suc (suc n)) = some (pos 0)

module _ (weights : Dict ℤ) (p : Text) where
  -- the stamps to come turn what is shown into zero
  abbrev after : Option ℤ → Bool → ℕ → Option ℤ
  after shown seen zero = shown
  after shown true (suc n) = some (pos 0)
  after shown false (suc n) = points_for (weight_of weights p) (suc n)

  after-add_stamp :
      (n : ℕ) (r : Raw) (s : Stamp)
      → let r' = add_stamp weights r s in
        after (lookup p r'.earned_points) (text_in p r'.scored_providers) n
        ≡ after
            (lookup p r.earned_points)
            (text_in p r.scored_providers)
            (if text_eq p s.provider then suc n else n)
  unfolding add_stamp
  after-add_stamp zero r s = ground (
    arith,
    text_eq_iff p s.provider,
    text_in-snoc p s.provider r.scored_providers,
    lookup-insert p s.provider (pos 0) r.earned_points,
    lookup-insert p s.provider (weight_of weights s.provider) r.earned_points,
  )
  after-add_stamp (suc n) r s = ground (
    arith,
    text_eq_iff p s.provider,
    text_in-snoc p s.provider r.scored_providers,
    lookup-insert p s.provider (pos 0) r.earned_points,
    lookup-insert p s.provider (weight_of weights s.provider) r.earned_points,
  )

  add_stamps-points :
      (ss : List Stamp) (r : Raw)
      → lookup p (add_stamps weights ss r).earned_points
        ≡ after (lookup p r.earned_points) (text_in p r.scored_providers) (occurrences p ss)
  unfolding add_stamps
  add_stamps-points [] r = refl
  add_stamps-points (s ∷ ss) r =
      add_stamps-points ss (add_stamp weights r s) ∙ after-add_stamp (occurrences p ss) r s

  -- A provider with one stamp is shown with its weight. One with several stamps is shown with zero
  -- points, and one with none is not shown.
  pub earned_points_lem :
      (ss : List Stamp)
      → lookup p (add_stamps weights ss empty_raw).earned_points
        ≡ points_for (weight_of weights p) (occurrences p ss)
  earned_points_lem ss = go (occurrences p ss) (add_stamps-points ss empty_raw)
    where
      go :
          (n : ℕ)
          → lookup p (add_stamps weights ss empty_raw).earned_points ≡ after none false n
          → lookup p (add_stamps weights ss empty_raw).earned_points
            ≡ points_for (weight_of weights p) n
      go zero e = e
      go (suc n) e = e

-- The least of some dates.
abbrev pub least : List ℕ → Option ℕ
least [] = none
least (d ∷ ds) = elim (least ds) [ none ↦ some d | some e ↦ if ltb e d then some e else some d ]

least-snoc : (ds : List ℕ) (d : ℕ) → least (ds ++ d ∷ []) ≡ earlier (least ds) d
unfolding earlier
least-snoc [] d = refl
least-snoc (e ∷ ds) d = ground (arith, least-snoc ds d)

-- The dates are kept by scored provider, and their least is the date of the score.
record IsDated (r : Raw) : Type 0 where
  scored : keys r.stamp_expiration_dates ≡ r.scored_providers
  expires : r.expiration_date ≡ least (values r.stamp_expiration_dates)

module _ (weights : Dict ℤ) where
  add_stamp-IsDated : (r : Raw) (s : Stamp) → IsDated r → IsDated (add_stamp weights r s)
  unfolding add_stamp
  add_stamp-IsDated r s h = elim (Bool-cases (text_in s.provider r.scored_providers)) [
    | inl old ↦ rw old (record { scored = h.scored; expires = h.expires })
    | inr new ↦
        let d = r.stamp_expiration_dates in
        let fresh = insert_absent s.provider s.expiration d (rw h.scored new) in
        rw new (record {
          scored = rw (fresh, keys-append, h.scored);
          expires = rw (fresh, values-append, least-snoc (values d) s.expiration, h.expires);
        })
  ]

  add_stamps-IsDated : (ss : List Stamp) (r : Raw) → IsDated r → IsDated (add_stamps weights ss r)
  unfolding add_stamps
  add_stamps-IsDated [] r h = h
  add_stamps-IsDated (s ∷ ss) r h =
      add_stamps-IsDated ss (add_stamp weights r s) (add_stamp-IsDated r s h)

  -- The score expires with the first of the stamps that it counts: its date is the least of the
  -- dates that are reported for the stamps, and none if there are none.
  pub expiration_date-least :
      (ss : List Stamp)
      → let r = add_stamps weights ss empty_raw in
        r.expiration_date ≡ least (values r.stamp_expiration_dates)
  expiration_date-least ss =
      (add_stamps-IsDated ss empty_raw (record { scored = refl; expires = refl })).expires
