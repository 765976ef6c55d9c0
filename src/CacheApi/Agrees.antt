-- ===== src/CacheApi/Agrees.antt =====
-- What `handle_get_ui_score` of api/ceramic_cache/api/v1.py reports.
use passport_scorer.Common.{find, Text, lower, ℕ, ◌≡◌, Option, some}
use passport_scorer.Submission.{is_one, Score}
use passport_scorer.Totals.{PointsData}
use passport_scorer.V2.{
  PassportRow, Db, is_passport_of, is_score_of, V2ScoreResponse, format_v2_score_response,
}
use passport_scorer.V2 as V2

-- The answer is the one that the score endpoint gives for the score that is stored for the passport
-- of an address in a community, and this has the value 1 just if the answer passes.
abbrev pub IsStored : Text → ℕ → V2ScoreResponse → Db → Type 0
IsStored address community r db =
    (row : PassportRow) × (find (is_passport_of (lower address) community) db.passports ≡ some row)
    × (score : Score) × (find (is_score_of row.passport.id) db.scores
        ≡ some (row.passport.id, score))
    × (is_one score.score ≡ r.passing_score)
    × (points : Option PointsData) × (possible : Option PointsData) × (r
        ≡ format_v2_score_response row.passport.address score points possible)
