-- ===== src/Submission/Scores.antt =====
-- The row of a score, and its calculation (api/registry/models.py, api/registry/atasks.py).
use passport_scorer.Common.{
  if◌then◌else◌, head?, ℤ, pos, Text, Dict, lookup, has_key, insert, ok_or, ◌>>=◌, ◌>>◌, raise_if,
  not, quantize, Result, err, ok, ℕ, Bool, true, false, Option, none, some, List, [], ◌∷◌, map,
}
use passport_scorer.Passport.{PassportStamp}
use passport_scorer.Dedup
use passport_scorer.Scoring.{Customization, Evidence, Stamp, acompute_score}

pub data Rule : Type 0 where
  lifo : Rule
  other_rule : Rule

-- A community with its scorer.
pub record Community : Type 0 where
  pub pk : ℕ
  pub rule : Rule
  pub human_points_program : Bool
  pub threshold : ℤ
  pub weights : Dict ℤ
  pub customization : Option Customization
  -- whether `aget_scorer` finds the rows of the scorer
  pub has_scorer : Bool

pub record Passport : Type 0 where
  pub id : ℕ
  pub address : Text

pub data Status : Type 0 where
  processing : Status
  bulk_processing : Status
  done : Status
  error : Status

-- What makes a submission fail.
pub data Problem : Type 0 where
  no_passport : Problem
  invalid_rule : Problem
  index_error : Problem
  key_error : Problem
  dedup_failure : Dedup.Failure → Problem
  points_failure : Problem
  community_missing : Problem
  scorer_missing : Problem
  attribute_error : Problem

-- An entry of `score.stamps`; its score is written with five decimal places.
pub record StampEntry : Type 0 where
  pub score : ℤ
  pub dedup : Bool
  pub expiration_date : ℕ

-- A row of `Score`; the text of its error is the exception it is made from.
pub record Score : Type 0 where
  pub score : Option ℤ
  pub last_score_timestamp : Option ℕ
  pub status : Option Status
  pub error : Option Problem
  pub evidence : Option Evidence
  pub stamp_scores : Option (Dict ℤ)
  pub stamps : Option (Dict StampEntry)
  pub expiration_date : Option ℕ

-- `clear_on_error`
unfoldable pub clear_on_error : Problem → Score → Score
clear_on_error e s = record s {
  score = none;
  status = some error;
  last_score_timestamp = none;
  expiration_date = none;
  evidence = none;
  error = some e;
  stamp_scores = none;
  stamps = none;
}

-- The loop over `scoreData.stamp_scores`.
unfoldable pub scored_entries :
    Dict PassportStamp → Dict ℕ → Dict ℤ → Dict StampEntry → Result Problem (Dict StampEntry)
scored_entries clashing dates [] d = ok d
scored_entries clashing dates ((name, score) ∷ more) d = elim (lookup name clashing) [
  | some s ↦ scored_entries clashing dates more (
      insert name
        (record { score = quantize score; dedup = true; expiration_date = s.credential.expiration })
        d)
  | none ↦ elim (lookup name dates) [
    | none ↦ err key_error
    | some date ↦
        scored_entries clashing dates more
          (insert name (record { score = quantize score; dedup = false; expiration_date = date }) d)
  ]
]

-- The loop over `clashing_stamps`.
unfoldable pub clashing_entries : Dict PassportStamp → Dict StampEntry → Dict StampEntry
clashing_entries [] d = d
clashing_entries ((provider, s) ∷ more) d = clashing_entries more (
    if has_key provider d
    then d
    else insert provider
        (record { score = pos 0; dedup = true; expiration_date = s.credential.expiration }) d)

-- The rows of `Stamp`, by passport.
abbrev pub Stamps : Type 0
Stamps = List (ℕ × PassportStamp)

abbrev pub scored_stamp : ℕ × PassportStamp → ℕ × Stamp
scored_stamp (p, s) = (p, record { provider = s.provider; expiration = s.credential.expiration })

-- `acalculate_score`, with whether the row of a community is gone by then. The default of
-- `clashing_stamps`, which is a list, is `none`: reading it as a dictionary raises.
unfoldable pub acalculate_score :
    (ℕ → Bool)
    → ℕ
    → Passport
    → Community
    → Stamps
    → Score
    → Option (Dict PassportStamp)
    → Result Problem Score
unfolding acompute_score scored_entries clashing_entries
acalculate_score is_deleted now passport community stamps score clashing_stamps = do
  raise_if (is_deleted community.pk) community_missing
  raise_if (not community.has_scorer) scorer_missing
  let scores =
      acompute_score community.threshold community.weights community.customization
        (map scored_stamp stamps) (passport.id ∷ [])
  data_ ← ok_or (head? scores) index_error
  clashing ← ok_or clashing_stamps attribute_error
  entries ← scored_entries clashing data_.stamp_expiration_dates data_.stamp_scores []
  ok (record score {
    score = some data_.score;
    status = some done;
    last_score_timestamp = some now;
    evidence = some data_.evidence;
    error = none;
    stamp_scores = some data_.stamp_scores;
    expiration_date = data_.expiration_date;
    stamps = some (clashing_entries clashing entries);
  })
