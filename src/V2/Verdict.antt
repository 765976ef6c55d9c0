-- ===== src/V2/Verdict.antt =====
-- What the V2 score endpoint reports (api/v2/api/api_stamps.py).
use passport_scorer.Common.{
  ◌==◌, if◌then◌else◌, ==_iff, Bool-cases, Option-cases, is_some, find, leb_ℤ, pos, Text, lower,
  one, err, ok, ℕ, ◌≡◌, refl, sym, ap, ◌∙◌, subst, inl, inr, Bool, true, false, not, Option, none,
  some, List, [], ◌∷◌, ◌++◌, arith,
}
use passport_scorer.Submission.{Community, Passport, Score, World, Stamps, is_one, ascore_passport}
use passport_scorer.Totals.{PointsData}
use passport_scorer.V2.{
  Db, Environment, aget_scorer_by_id, get_or_create_passport, new_score, is_score_of,
  get_or_create_score, save_score, V2ScoreResponse, twenty, format_v2_score_response,
  response_points, score_passport, ahandle_scoring, handle_scoring_for_account, scorer_missing,
}
use passport_scorer.V2.Outcomes.{Outcome, failed, judged, stored_weight, ascore_passport-Outcome}

-- What a response reports of a passport's stored stamps: the weight of their distinct providers
-- against the community's threshold, or a failure, which does not pass.
pub data Reports (c : Community) (p : ℕ) (table : Stamps) (r : V2ScoreResponse) : Type 0 where
  verdict :
      r.error ≡ none
      → r.score ≡ stored_weight c p table
      → r.threshold ≡ c.threshold
      → r.passing_score ≡ leb_ℤ c.threshold (stored_weight c p table)
      → Reports c p table r
  failure :
      is_some r.error ≡ true
      → r.score ≡ pos 0
      → r.stamps ≡ []
      → r.passing_score ≡ false
      → Reports c p table r

is_one-verdict : (b : Bool) → is_one (some (if b then one else pos 0)) ≡ b
unfolding one
is_one-verdict true = refl
is_one-verdict false = refl

module _ (address : Text) (points possible : Option PointsData) where
  format-Reports :
      (c : Community) (p : ℕ) (s : Score) (w : World)
      → Outcome c p s w
      → Reports c p w.stamps (format_v2_score_response address s points possible)
  unfolding format_v2_score_response twenty one
  format-Reports c p s w (failed e is_error no_evidence no_score no_stamps) =
      failure (rw is_error refl) (rw no_evidence refl) (rw no_stamps refl) (rw no_evidence refl)
  format-Reports c p s w (judged d j no_error evidence score) =
      verdict no_error (rw (evidence, j.raw) refl) (rw (evidence, j.stated) refl)
        (rw (evidence, j.raw, j.stated) refl)

  -- The row and the response agree.
  pub format-is_one :
      (c : Community) (p : ℕ) (s : Score) (w : World)
      → Outcome c p s w
      → is_one s.score ≡ (format_v2_score_response address s points possible).passing_score
  unfolding format_v2_score_response twenty one
  format-is_one c p s w (failed e is_error no_evidence no_score no_stamps) =
      rw (no_score, no_evidence) refl
  format-is_one c p s w (judged d j no_error evidence score) =
      rw (score, evidence, j.verdict, j.raw, j.stated) (is_one-verdict _)

find_saved :
    (p : ℕ) (s : Score) (scores : List (ℕ × Score))
    → is_some (find (is_score_of p) scores) ≡ true
    → find (is_score_of p) (save_score p s scores) ≡ some (p, s)
unfolding save_score
find_saved p s [] h = absurd (ground arith)
find_saved p s (r ∷ scores) h = elim (Bool-cases (r.0 == p)) [
  | inl e ↦ rw (e, (==_iff p p).1 refl) refl
  | inr e ↦ rw (find_saved p s scores (ground arith), e) (rw e refl)
]

find_append :
    (p : ℕ) (s : Score) (scores : List (ℕ × Score))
    → is_some (find (is_score_of p) (scores ++ (p, s) ∷ [])) ≡ true
find_append p s [] = ground arith
find_append p s (r ∷ scores) = ground (arith, find_append p s scores)

-- There is a row for the passport.
get_or_create_score-found :
    (p : ℕ) (scores : List (ℕ × Score))
    → is_some (find (is_score_of p) (get_or_create_score p scores).1) ≡ true
unfolding get_or_create_score
get_or_create_score-found p scores = elim (Option-cases (find (is_score_of p) scores)) [
  | inl e ↦ rw (e, get_or_create_score) (find_append p new_score scores)
  | inr (r, e) ↦ rw (e, get_or_create_score) (rw e refl)
]

module _ (env : Environment) (address : Text) (c : Community) where
  -- The row that is saved is the one of which the answer is made.
  pub score_passport-stored :
      (p : Passport) (db : Db)
      → (scored : Score) × (find (is_score_of p.id) (score_passport env address c p db).1.scores
          ≡ some (p.id, scored))
        × (is_one scored.score ≡ (score_passport env address c p db).0.passing_score)
        × (points : Option PointsData) × (possible : Option PointsData) × ((score_passport env
              address c p db).0
            ≡ format_v2_score_response p.address scored points possible)
  unfolding score_passport
  score_passport-stored p db =
      let (score, scores) = get_or_create_score p.id db.scores in
      let submitted =
        ascore_passport env.verify_credential env.credential_of env.settings env.now env.clock
          env.cache c p address score db.world in
      let outcome =
        ascore_passport-Outcome env.verify_credential env.credential_of env.settings env.now
          env.clock env.cache c p address score db.world in
      let (points, possible) = response_points env address c submitted.1 in
      (
        submitted.0,
        find_saved p.id submitted.0 scores (get_or_create_score-found p.id db.scores),
        format-is_one p.address points possible c p.id submitted.0 submitted.1 outcome,
        points,
        possible,
        refl,
      )

  pub score_passport-passports :
      (p : Passport) (db : Db) → (score_passport env address c p db).1.passports ≡ db.passports
  unfolding score_passport
  score_passport-passports p db = refl

  -- The row, which is saved, and what is reported.
  score_passport-Reports :
      (p : Passport) (db : Db)
      → (scored : Score) × (find (is_score_of p.id) (score_passport env address c p db).1.scores
          ≡ some (p.id, scored))
        × (is_one scored.score ≡ (score_passport env address c p db).0.passing_score)
        × Reports c p.id
            (score_passport env address c p db).1.world.stamps
            (score_passport env address c p db).0
  unfolding score_passport
  score_passport-Reports p db =
      let (score, scores) = get_or_create_score p.id db.scores in
      let submitted =
        ascore_passport env.verify_credential env.credential_of env.settings env.now env.clock
          env.cache c p address score db.world in
      let outcome =
        ascore_passport-Outcome env.verify_credential env.credential_of env.settings env.now
          env.clock env.cache c p address score db.world in
      let (points, possible) = response_points env address c submitted.1 in
      (
        submitted.0,
        find_saved p.id submitted.0 scores (get_or_create_score-found p.id db.scores),
        format-is_one p.address points possible c p.id submitted.0 submitted.1 outcome,
        format-Reports p.address points possible c p.id submitted.0 submitted.1 outcome,
      )

if_not-true : {A : Type 0} (b : Bool) (x y : A) → b ≡ true → (if not b then x else y) ≡ y
if_not-true b x y e = rw e refl

-- The branches of `ahandle_scoring`.
pub ahandle_scoring-scored :
    (env : Environment) (address : Text) (c : Community) (db : Db)
    → env.is_valid_address (lower address) ≡ true
    → c.has_scorer ≡ true
    → let (p, db') = get_or_create_passport (lower address) c.pk db in
      ahandle_scoring env address c db ≡ (
        ok (score_passport env (lower address) c p db').0,
        (score_passport env (lower address) c p db').1,
      )
unfolding ahandle_scoring
ahandle_scoring-scored env address c db valid scorer =
    rw valid (if_not-true c.has_scorer _ _ scorer)

pub ahandle_scoring-refused :
    (env : Environment) (address : Text) (c : Community) (db : Db)
    → env.is_valid_address (lower address) ≡ true
    → c.has_scorer ≡ false
    → ahandle_scoring env address c db ≡ (err scorer_missing, db)
unfolding ahandle_scoring
ahandle_scoring-refused env address c db valid scorer = rw (valid, scorer) refl

-- Where the scorer is found with its rows and the address is valid: the endpoint answers. Its answer is the
-- verdict on the stamps that the tables then have for the passport, or reports an error with score
-- 0, no stamps and no pass: in a verdict the score is the weight of the distinct providers under the
-- community's weights, summed as decimals, the threshold is the community's, and the score passes just if it reaches
-- that. The row that is then stored for the passport has the value 1 just if the answer passes.
pub handle_scoring_for_account-Reports :
    (env : Environment) (address : Text) (scorer_id : Text) (account : ℕ) (db : Db) {c : Community}
    → aget_scorer_by_id scorer_id account env.communities ≡ ok c
    → env.is_valid_address (lower address) ≡ true
    → c.has_scorer ≡ true
    → (response : V2ScoreResponse) × (scored : Score) × ((handle_scoring_for_account env address
          scorer_id account db).0
        ≡ ok response)
      × (find
            (is_score_of (get_or_create_passport (lower address) c.pk db).0.id)
            (handle_scoring_for_account env address scorer_id account db).1.scores
          ≡ some ((get_or_create_passport (lower address) c.pk db).0.id, scored))
      × (is_one scored.score ≡ response.passing_score)
      × Reports c
          (get_or_create_passport (lower address) c.pk db).0.id
          (handle_scoring_for_account env address scorer_id account db).1.world.stamps
          response
unfolding handle_scoring_for_account
handle_scoring_for_account-Reports env address scorer_id account db {c} found valid scorer =
    let (p, db') = get_or_create_passport (lower address) c.pk db in
    let (scored, stored, same, reports) = score_passport-Reports env (lower address) c p db' in
    let call = handle_scoring_for_account env address scorer_id account db in
    let run : call ≡ (
      ok (score_passport env (lower address) c p db').0,
      (score_passport env (lower address) c p db').1,
    ) =
      rw (handle_scoring_for_account, found)
        (ahandle_scoring-scored env address c db valid scorer) in
    (
      (score_passport env (lower address) c p db').0,
      scored,
      ap (λ x. x.0) run,
      ap (λ x. find (is_score_of p.id) x.1.scores) run ∙ stored,
      same,
      subst (λ x. Reports c p.id x.1.world.stamps (score_passport env (lower address) c p db').0)
          (sym run) reports,
    )
