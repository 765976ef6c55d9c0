-- ===== src/V2.antt =====
-- The score endpoint of the V2 API (api/v2/api/api_stamps.py) with the lookup of the scorer
-- (api/registry/api/v1.py): an address is scored and the score's row is reported.
pub mod Outcomes
pub mod Verdict
pub mod Consistent
mod Tests
use passport_scorer.Common.{
  ◌==◌, if◌then◌else◌, is_some, get_or, filter, find, leb_ℤ, ℤ, pos, negsuc, Text, text_eq, lower,
  str, int_of, Dict, ok_or, Result, err, ok, ℕ, suc, ◌*◌, ◌^◌, Bool, false, not, ◌&&◌, Option, none,
  some, List, [], ◌∷◌, ◌++◌,
}
use passport_scorer.Passport.{Credential}
use passport_scorer.Cache.{Store, StampDoc}
use passport_scorer.Scoring.{Evidence}
use passport_scorer.Submission.{
  Community, Passport, Score, StampEntry, Problem, Settings, World, processing, ascore_passport,
}
use passport_scorer.Totals.{
  Config, Multiplier, PointsData, get_user_points_data, get_possible_points_data,
}

pub data Failure : Type 0 where
  rate_limited : Failure
  not_found : Failure
  invalid_address : Failure
  scorer_missing : Failure

-- A row of `Community` with its owner.
pub record CommunityRow : Type 0 where
  pub community : Community
  pub account : ℕ
  pub external_scorer_id : Option Text

pub record PassportRow : Type 0 where
  pub passport : Passport
  pub community : ℕ

-- The tables that the endpoint writes; a score is stored by its passport.
pub record Db : Type 0 where
  pub passports : List PassportRow
  pub next_passport : ℕ
  pub scores : List (ℕ × Score)
  pub world : World

-- What the endpoint reads. The verification of credentials is didkit's, `is_valid_address` rests on
-- eth_utils, and `credential_of` is the view of a stamp's JSON as a credential.
pub record Environment : Type 0 where
  pub verify_credential : Credential → Option (List Text)
  pub credential_of : StampDoc → Credential
  pub is_valid_address : Text → Bool
  pub settings : Settings
  pub human_points_enabled : Bool
  pub demo_api_scorer_id : ℕ
  pub configs : List Config
  pub multipliers : List Multiplier
  pub communities : List CommunityRow
  pub cache : Store
  pub now : ℕ
  pub clock : ℕ → ℕ

-- `get` of the rows that a filter finds; none or several of them raise.
abbrev only_row : List CommunityRow → Option Community
only_row [] = none
only_row (r ∷ []) = some r.community
only_row (r ∷ x ∷ rows) = none

abbrev pub is_external : Text → ℕ → CommunityRow → Bool
is_external scorer_id account r =
    r.account == account
    && is_some r.external_scorer_id
    && text_eq (get_or r.external_scorer_id []) scorer_id

abbrev pub is_internal : Text → ℕ → CommunityRow → Bool
is_internal scorer_id account r =
    r.account == account
    && elim (int_of scorer_id) [ none ↦ false | some id ↦ r.community.pk == id ]

-- `aget_scorer_by_id`: by the external id and else by the row's own, which raises for a text that is
-- no number.
unfoldable pub aget_scorer_by_id : Text → ℕ → List CommunityRow → Result Failure Community
unfolding int_of
aget_scorer_by_id scorer_id account rows =
    elim (only_row (filter (is_external scorer_id account) rows)) [
      | some c ↦ ok c
      | none ↦ ok_or (only_row (filter (is_internal scorer_id account) rows)) not_found
    ]

abbrev pub is_passport_of : Text → ℕ → PassportRow → Bool
is_passport_of address community r =
    text_eq r.passport.address (lower address) && r.community == community

-- `Passport.objects.aupdate_or_create`, which has nothing to update
unfoldable pub get_or_create_passport : Text → ℕ → Db → Passport × Db
get_or_create_passport address community db =
    elim (find (is_passport_of address community) db.passports) [
      | some r ↦ (r.passport, db)
      | none ↦
          let passport : Passport = record { id = db.next_passport; address = lower address } in
          (
            passport,
            record db {
              passports =
                  db.passports ++ record { passport = passport; community = community } ∷ [];
              next_passport = suc db.next_passport;
            },
          )
    ]

abbrev pub new_score : Score
new_score = record {
  score = none;
  last_score_timestamp = none;
  status = some processing;
  error = none;
  evidence = none;
  stamp_scores = none;
  stamps = none;
  expiration_date = none;
}

abbrev pub is_score_of : ℕ → ℕ × Score → Bool
is_score_of passport r = r.0 == passport

-- `Score.objects.aget_or_create`
unfoldable pub get_or_create_score : ℕ → List (ℕ × Score) → Score × List (ℕ × Score)
get_or_create_score passport scores = elim (find (is_score_of passport) scores) [
  | some r ↦ (r.1, scores)
  | none ↦ (new_score, scores ++ (passport, new_score) ∷ [])
]

-- `score.asave()`
unfoldable pub save_score : ℕ → Score → List (ℕ × Score) → List (ℕ × Score)
save_score passport score [] = []
save_score passport score (r ∷ scores) =
    (if is_score_of passport r then (passport, score) else r) ∷ save_score passport score scores

pub record V2ScoreResponse : Type 0 where
  pub address : Text
  pub score : ℤ
  pub passing_score : Bool
  pub threshold : ℤ
  pub last_score_timestamp : Option ℕ
  pub expiration_timestamp : Option ℕ
  pub error : Option Problem
  pub stamps : Dict StampEntry
  pub points_data : Option PointsData
  pub possible_points_data : Option PointsData

abbrev pub raw_score : Option Evidence → ℤ
raw_score none = pos 0
raw_score (some e) = e.raw_score

-- `Decimal("20")`
unfoldable pub twenty : ℤ
twenty = pos (20 * 10 ^ 1074)

-- The threshold of the evidence, and 20 where there is none.
abbrev pub threshold_of : Option Evidence → ℤ
threshold_of none = twenty
threshold_of (some e) = e.threshold

unfoldable pub format_v2_score_response :
    Text → Score → Option PointsData → Option PointsData → V2ScoreResponse
format_v2_score_response address score points_data possible_points_data = record {
  address = address;
  score = raw_score score.evidence;
  passing_score = leb_ℤ (threshold_of score.evidence) (raw_score score.evidence);
  threshold = threshold_of score.evidence;
  last_score_timestamp = score.last_score_timestamp;
  expiration_timestamp = score.expiration_date;
  error = score.error;
  stamps = get_or score.stamps [];
  points_data = points_data;
  possible_points_data = possible_points_data;
}

module _ (env : Environment) where
  -- The points of the response, and those that are possible.
  unfoldable pub response_points : Text → Community → World → Option PointsData × Option PointsData
  unfolding get_user_points_data get_possible_points_data
  response_points address community w =
      let points = get_user_points_data address env.configs env.multipliers w.qualified w.points in
      if env.human_points_enabled && community.human_points_program
      then (some points, some (get_possible_points_data env.configs points.multiplier))
      else (none, none)

  -- `ahandle_scoring` from the passport and the score's row on.
  unfoldable pub score_passport : Text → Community → Passport → Db → V2ScoreResponse × Db
  unfolding get_or_create_score save_score response_points format_v2_score_response
  score_passport address community passport db =
      let (score, scores) = get_or_create_score passport.id db.scores in
      let (scored, w) =
        ascore_passport env.verify_credential env.credential_of env.settings env.now env.clock
          env.cache community passport address score db.world in
      let (points, possible) = response_points address community w in
      (
        format_v2_score_response passport.address scored points possible,
        record db { scores = save_score passport.id scored scores; world = w },
      )

  unfoldable pub ahandle_scoring : Text → Community → Db → Result Failure V2ScoreResponse × Db
  unfolding get_or_create_passport score_passport
  ahandle_scoring address community db =
      let (passport, db') = get_or_create_passport (lower address) community.pk db in
      let (response, db'') = score_passport (lower address) community passport db' in
      if not (env.is_valid_address (lower address))
      then (err invalid_address, db)
      else if not community.has_scorer
      then (err scorer_missing, db)
      else (ok response, db'')

  unfoldable pub handle_scoring_for_account :
      Text → Text → ℕ → Db → Result Failure V2ScoreResponse × Db
  unfolding aget_scorer_by_id ahandle_scoring
  handle_scoring_for_account address scorer_id account db =
      elim (aget_scorer_by_id scorer_id account env.communities) [
        | err e ↦ (err e, db)
        | ok community ↦ ahandle_scoring address community db
      ]

  -- A negative scorer is the demo's.
  abbrev pub scorer_of : ℤ → ℕ
  scorer_of (pos n) = n
  scorer_of (negsuc n) = env.demo_api_scorer_id

  -- `a_submit_passport`; the flag says whether `check_rate_limit` raises.
  unfoldable pub a_submit_passport : Bool → ℤ → Text → ℕ → Db → Result Failure V2ScoreResponse × Db
  unfolding handle_scoring_for_account str
  a_submit_passport is_limited scorer_id address account db =
      if is_limited
      then (err rate_limited, db)
      else handle_scoring_for_account address (str (scorer_of scorer_id)) account db
