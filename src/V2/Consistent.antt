-- ===== src/V2/Consistent.antt =====
-- The value of a stored score agrees with its evidence (api/v2/api/api_stamps.py).
use passport_scorer.Common.{
  ◌==◌, Bool-cases, Option-cases, find, All, All-append, leb_ℤ, Text, lower, Result-cases, ℕ, ◌≡◌,
  refl, sym, subst, inl, inr, none, List, [], ◌∷◌,
}
use passport_scorer.Submission.{Community, Passport, Score, World, is_one, ascore_passport}
use passport_scorer.V2.{
  Db, Environment, aget_scorer_by_id, is_passport_of, get_or_create_passport, new_score,
  is_score_of, get_or_create_score, save_score, raw_score, twenty, threshold_of,
  format_v2_score_response, score_passport, ahandle_scoring, handle_scoring_for_account,
}
use passport_scorer.V2.Outcomes.{Outcome, ascore_passport-Outcome}
use passport_scorer.V2.Verdict.{format-is_one, ahandle_scoring-scored, ahandle_scoring-refused}

-- The value is 1 just if the evidence reaches its threshold.
abbrev pub IsConsistent : Score → Type 0
IsConsistent s = is_one s.score ≡ leb_ℤ (threshold_of s.evidence) (raw_score s.evidence)

-- Every row of scores is.
abbrev pub Sound : Db → Type 0
Sound db = All (λ r. IsConsistent r.1) db.scores

Outcome-IsConsistent :
    (c : Community) (p : ℕ) (s : Score) (w : World) → Outcome c p s w → IsConsistent s
Outcome-IsConsistent c p s w o =
    unfold format_v2_score_response in format-is_one [] none none c p s w o

new_score-IsConsistent : IsConsistent new_score
unfolding twenty
new_score-IsConsistent = refl

get_or_create_score-All :
    (p : ℕ) (scores : List (ℕ × Score))
    → All (λ r. IsConsistent r.1) scores
    → All (λ r. IsConsistent r.1) (get_or_create_score p scores).1
unfolding get_or_create_score
get_or_create_score-All p scores h = elim (Option-cases (find (is_score_of p) scores)) [
  | inl e ↦
      rw (e, get_or_create_score)
        (All-append (λ r. IsConsistent r.1) scores ((p, new_score) ∷ []) h
          (new_score-IsConsistent, tt))
  | inr (r, e) ↦ rw (e, get_or_create_score) h
]

save_score-All :
    (p : ℕ) (s : Score) (scores : List (ℕ × Score))
    → IsConsistent s
    → All (λ r. IsConsistent r.1) scores
    → All (λ r. IsConsistent r.1) (save_score p s scores)
unfolding save_score
save_score-All p s [] c h = tt
save_score-All p s (r ∷ scores) c h = elim (Bool-cases (r.0 == p)) [
  | inl e ↦ rw e (c, save_score-All p s scores c h.1)
  | inr e ↦ rw e (h.0, save_score-All p s scores c h.1)
]

module _ (env : Environment) where
  score_passport-Sound :
      (address : Text) (c : Community) (p : Passport) (db : Db)
      → Sound db
      → Sound (score_passport env address c p db).1
  unfolding score_passport
  score_passport-Sound address c p db h =
      let (score, scores) = get_or_create_score p.id db.scores in
      let submitted =
        ascore_passport env.verify_credential env.credential_of env.settings env.now env.clock
          env.cache c p address score db.world in
      let outcome =
        ascore_passport-Outcome env.verify_credential env.credential_of env.settings env.now
          env.clock env.cache c p address score db.world in
      save_score-All p.id submitted.0 scores
        (Outcome-IsConsistent c p.id submitted.0 submitted.1 outcome)
        (get_or_create_score-All p.id db.scores h)

  get_or_create_passport-Sound :
      (address : Text) (community : ℕ) (db : Db)
      → Sound db
      → Sound (get_or_create_passport address community db).1
  unfolding get_or_create_passport
  get_or_create_passport-Sound address community db h =
      elim (Option-cases (find (is_passport_of address community) db.passports)) [
        | inl e ↦ rw (e, get_or_create_passport) h
        | inr (r, e) ↦ rw (e, get_or_create_passport) h
      ]

  ahandle_scoring-Sound :
      (address : Text) (c : Community) (db : Db)
      → Sound db
      → Sound (ahandle_scoring env address c db).1
  unfolding ahandle_scoring
  ahandle_scoring-Sound address c db h = elim (Bool-cases (env.is_valid_address (lower address))) [
    | inr bad ↦ rw (bad, ahandle_scoring) h
    | inl good ↦
        let (passport, db') = get_or_create_passport (lower address) c.pk db in
        elim (Bool-cases c.has_scorer) [
          | inr missing ↦
              subst (λ x. Sound x.1) (sym (ahandle_scoring-refused env address c db good missing)) h
          | inl found ↦
              subst (λ x. Sound x.1) (sym (ahandle_scoring-scored env address c db good found))
                (score_passport-Sound (lower address) c passport db'
                  (get_or_create_passport-Sound (lower address) c.pk db h))
        ]
  ]

  pub handle_scoring_for_account-Sound :
      (address scorer_id : Text) (account : ℕ) (db : Db)
      → Sound db
      → Sound (handle_scoring_for_account env address scorer_id account db).1
  unfolding handle_scoring_for_account
  handle_scoring_for_account-Sound address scorer_id account db h =
      elim (Result-cases (aget_scorer_by_id scorer_id account env.communities)) [
        | inl (e, k) ↦ rw (k, handle_scoring_for_account) h
        | inr (c, k) ↦ rw (k, handle_scoring_for_account) (ahandle_scoring-Sound address c db h)
      ]
