-- ===== src/Submission/Listed.antt =====
-- The stamps that a score lists (`acalculate_score` in api/registry/atasks.py).
use passport_scorer.Common.{
  if◌then◌else◌, Bool-cases, Option-cases, get_or, All, All-append, ℤ, pos, Text, text_eq,
  text_eq_refl, text_eq_iff, text_in, Dict, lookup, has_key, insert, lookup-insert, quantize, err,
  ok, ℕ, ◌≡◌, refl, ◌∙◌, inl, inr, Bool, true, false, ◌&&◌, ◌||◌, none, some, List, [], ◌∷◌, map,
  arith,
}
use passport_scorer.Passport.{PassportStamp}
use passport_scorer.Scoring.{
  Stamp, Raw, empty_raw, weight_of, add_stamp, add_stamps, effective_weights, stamps_of,
  acalculate_weighted_score, score_to_binary, make_score_data, acompute_score,
}
use passport_scorer.Scoring.Loops.{
  floats, with_floats, aeffective_weights-effective_weights, aadd_stamps-add_stamps,
}
use passport_scorer.Submission.{
  Community, Passport, StampEntry, Score, scored_entries, clashing_entries, Stamps, scored_stamp,
  acalculate_score, done, community_missing, scorer_missing, attribute_error,
}

-- Each provider of a dictionary of points has a date.
abbrev Dated : Dict ℕ → Dict ℤ → Type 0
Dated dates = All (λ e. has_key e.0 dates ≡ true)

abbrev DatedAll : Dict ℕ → List Text → Type 0
DatedAll dates = All (λ p. has_key p dates ≡ true)

has_key-insert :
    (j k : Text) (v : ℕ) (d : Dict ℕ) → has_key j (insert k v d) ≡ (text_eq j k || has_key j d)
has_key-insert j k v d = ground (arith, lookup-insert j k v d)

Dated-insert_date :
    (k : Text) (v : ℕ) (dates : Dict ℕ) (d : Dict ℤ) → Dated dates d → Dated (insert k v dates) d
Dated-insert_date k v dates [] h = tt
Dated-insert_date k v dates (e ∷ d) h =
    (ground (arith, has_key-insert e.0 k v dates), Dated-insert_date k v dates d h.1)

DatedAll-insert_date :
    (k : Text) (v : ℕ) (dates : Dict ℕ) (ps : List Text)
    → DatedAll dates ps
    → DatedAll (insert k v dates) ps
DatedAll-insert_date k v dates [] h = tt
DatedAll-insert_date k v dates (p ∷ ps) h =
    (ground (arith, has_key-insert p k v dates), DatedAll-insert_date k v dates ps h.1)

Dated-insert :
    (k : Text) (z : ℤ) (dates : Dict ℕ) (d : Dict ℤ)
    → has_key k dates ≡ true
    → Dated dates d
    → Dated dates (insert k z d)
Dated-insert k z dates [] h g = (h, tt)
Dated-insert k z dates (e ∷ d) h g = elim (Bool-cases (text_eq k e.0)) [
  | inl same ↦ rw same (h, g.1)
  | inr other ↦ rw other (g.0, Dated-insert k z dates d h g.1)
]

DatedAll-in :
    (k : Text) (dates : Dict ℕ) (ps : List Text)
    → DatedAll dates ps
    → text_in k ps ≡ true
    → has_key k dates ≡ true
DatedAll-in k dates [] h i = cc
DatedAll-in k dates (p ∷ ps) h i = elim (Bool-cases (text_eq k p)) [
  | inl same ↦ rw ((text_eq_iff k p).0 same) h.0
  | inr other ↦ DatedAll-in k dates ps h.1 (ground arith)
]

add_stamp-Dated :
    (weights : Dict ℤ) (r : Raw) (s : Stamp)
    → Dated r.stamp_expiration_dates r.earned_points
    → DatedAll r.stamp_expiration_dates r.scored_providers
    → Dated (add_stamp weights r s).stamp_expiration_dates (add_stamp weights r s).earned_points
      × DatedAll
          (add_stamp weights r s).stamp_expiration_dates
          (add_stamp weights r s).scored_providers
unfolding add_stamp
add_stamp-Dated weights r s g h = elim (Bool-cases (text_in s.provider r.scored_providers)) [
  | inl seen ↦
      rw (seen, add_stamp)
        (
          Dated-insert s.provider (pos 0) r.stamp_expiration_dates r.earned_points
              (DatedAll-in s.provider r.stamp_expiration_dates r.scored_providers h seen) g,
          h,
        )
  | inr new ↦
      let dates = insert s.provider s.expiration r.stamp_expiration_dates in
      let here : has_key s.provider dates ≡ true = ground (
        arith,
        has_key-insert s.provider s.provider s.expiration r.stamp_expiration_dates,
        text_eq_refl s.provider,
      ) in
      rw (new, add_stamp)
        (
          Dated-insert s.provider (weight_of weights s.provider) dates r.earned_points here (
              Dated-insert_date s.provider s.expiration r.stamp_expiration_dates r.earned_points g),
          All-append (λ p. has_key p dates ≡ true) r.scored_providers (s.provider ∷ [])
              (DatedAll-insert_date s.provider s.expiration r.stamp_expiration_dates
                r.scored_providers h)
              (here, tt),
        )
]

add_stamps-Dated :
    (weights : Dict ℤ) (ss : List Stamp) (r : Raw)
    → Dated r.stamp_expiration_dates r.earned_points
    → DatedAll r.stamp_expiration_dates r.scored_providers
    → Dated (add_stamps weights ss r).stamp_expiration_dates (add_stamps weights ss r).earned_points
unfolding add_stamps
add_stamps-Dated weights [] r g h = g
add_stamps-Dated weights (s ∷ ss) r g h =
    let (g', h') = add_stamp-Dated weights r s g h in
    add_stamps-Dated weights ss (add_stamp weights r s) g' h'

-- Whether a list of entries shows a provider as deduplicated.
unfoldable pub shows_dedup : Text → Dict StampEntry → Bool
shows_dedup p d = elim (lookup p d) [ none ↦ false | some e ↦ e.dedup ]

-- An entry that is listed for the provider has the flag.
Flagged : Text → Bool → Dict StampEntry → Type 0
Flagged p b d = (has_key p d && shows_dedup p d) ≡ (has_key p d && b)

Flagged-insert :
    (p k : Text) (e : StampEntry) (b : Bool) (d : Dict StampEntry)
    → Flagged p b d
    → (text_eq p k ≡ true → e.dedup ≡ b)
    → Flagged p b (insert k e d)
unfolding Flagged shows_dedup
Flagged-insert p k e b d h f = elim (Bool-cases (text_eq p k)) [
  | inl same ↦ ground (arith, lookup-insert p k e d, f same)
  | inr other ↦ ground (arith, lookup-insert p k e d)
]

scored_entries-Flagged :
    (p : Text) (clashing : Dict PassportStamp) (dates : Dict ℕ) (scores : Dict ℤ)
    (d : Dict StampEntry)
    → Dated dates scores
    → Flagged p (has_key p clashing) d
    → (d' : Dict StampEntry) × (scored_entries clashing dates scores d ≡ ok d')
      × Flagged p (has_key p clashing) d'
unfolding scored_entries
scored_entries-Flagged p clashing dates [] d g f = (d, refl, f)
scored_entries-Flagged p clashing dates ((name, score) ∷ more) d g f =
    elim (Option-cases (lookup name clashing)) [
      | inr (s, e) ↦
          rw (e, scored_entries)
            (scored_entries-Flagged p clashing dates more
              (insert name
                (record {
                  score = quantize score;
                  dedup = true;
                  expiration_date = s.credential.expiration;
                })
                d)
              g.1
              (Flagged-insert p name
                (record {
                  score = quantize score;
                  dedup = true;
                  expiration_date = s.credential.expiration;
                })
                (has_key p clashing) d f (λ same. ground (arith, text_eq_iff p name))))
      | inl e ↦ elim (Option-cases (lookup name dates)) [
        | inl missing ↦ absurd (ground arith)
        | inr (date, h) ↦
            rw (e, h, scored_entries)
              (scored_entries-Flagged p clashing dates more
                (insert name
                  (record { score = quantize score; dedup = false; expiration_date = date }) d)
                g.1
                (Flagged-insert p name
                  (record { score = quantize score; dedup = false; expiration_date = date })
                  (has_key p clashing) d f (λ same. ground (arith, text_eq_iff p name))))
      ]
    ]

-- What is listed already stays; a clashing provider that is not is listed as deduplicated.
clashing_entries-shows_dedup :
    (p : Text) (more : Dict PassportStamp) (d : Dict StampEntry)
    → shows_dedup p (clashing_entries more d)
      ≡ (if has_key p d then shows_dedup p d else has_key p more)
unfolding clashing_entries shows_dedup
clashing_entries-shows_dedup p [] d = ground arith
clashing_entries-shows_dedup p ((k, s) ∷ more) d =
    let e : StampEntry = record {
      score = pos 0;
      dedup = true;
      expiration_date = s.credential.expiration;
    } in
    ground (
      arith,
      text_eq_iff p k,
      lookup-insert p k e d,
      clashing_entries-shows_dedup p more d,
      clashing_entries-shows_dedup p more (insert k e d),
    )

unflagged :
    (p : Text) (clashing : Dict PassportStamp) (d : Dict StampEntry)
    → Flagged p (has_key p clashing) d
    → (if has_key p d then shows_dedup p d else has_key p clashing) ≡ has_key p clashing
unfolding Flagged
unflagged p clashing d h = ground arith

-- The stamps that a score lists, none if it lists nothing.
abbrev pub listed : Score → Dict StampEntry
listed s = get_or s.stamps []

Dated-floats : (dates : Dict ℕ) (d : Dict ℤ) → Dated dates d → Dated dates (floats d)
Dated-floats dates [] h = tt
Dated-floats dates (e ∷ d) h = (h.0, Dated-floats dates d h.1)

-- Where the community's row and its scorer's are there: the calculation succeeds, and lists a
-- provider as deduplicated exactly where one of the provider's stamps clashed, whether the provider
-- earned points or not. Where either is missing, and where no clashing stamps are given, it raises.
pub acalculate_score-shows_dedup :
    (is_deleted : ℕ → Bool) (now : ℕ) (passport : Passport) (community : Community)
    (stamps : Stamps) (s : Score) (clashing : Dict PassportStamp) (p : Text)
    → is_deleted community.pk ≡ false
    → community.has_scorer ≡ true
    → ((scored : Score) × (acalculate_score is_deleted now passport community stamps s
            (some clashing)
          ≡ ok scored)
        × (shows_dedup p (listed scored) ≡ has_key p clashing))
      × (acalculate_score is_deleted now passport community stamps s none ≡ err attribute_error)
      × (acalculate_score (λ _. true) now passport community stamps s (some clashing)
          ≡ err community_missing)
      × (acalculate_score is_deleted now passport
            (record community { has_scorer = false })
            stamps
            s
            (some clashing)
          ≡ err scorer_missing)
unfolding acalculate_score acompute_score acalculate_weighted_score make_score_data
acalculate_score-shows_dedup is_deleted now passport community stamps s clashing p there scorer =
    let weights = effective_weights community.weights community.customization in
    let ss = stamps_of passport.id (map scored_stamp stamps) in
    let raw = with_floats (add_stamps weights ss empty_raw) in
    let (entries, run, flagged) =
      scored_entries-Flagged p clashing raw.stamp_expiration_dates raw.earned_points []
        (Dated-floats raw.stamp_expiration_dates (add_stamps weights ss empty_raw).earned_points
          (add_stamps-Dated weights ss empty_raw tt tt))
        (unfold Flagged shows_dedup in refl) in
    let data_ =
      make_score_data community.threshold raw
        (score_to_binary community.threshold raw.sum_of_weights) in
    let loop = aeffective_weights-effective_weights community.weights community.customization in
    (
      (
        record s {
          score = some data_.score;
          status = some done;
          last_score_timestamp = some now;
          evidence = some data_.evidence;
          error = none;
          stamp_scores = some data_.stamp_scores;
          expiration_date = data_.expiration_date;
          stamps = some (clashing_entries clashing entries);
        },
        rw (there, scorer, loop, aadd_stamps-add_stamps weights ss empty_raw, run) refl,
        clashing_entries-shows_dedup p clashing entries ∙ unflagged p clashing entries flagged,
      ),
      rw (there, scorer) refl,
      refl,
      rw there refl,
    )
