-- ===== src/History.antt =====
-- The history of scores: the events that are written when a score is saved (`score_updated` in
-- api/registry/models.py) and the endpoint that reads them (`get_score_history` in
-- api/v2/api/api_stamps.py).
pub mod Saves
pub mod Logged
mod Tests
use passport_scorer.Common.{
  ltb, leb, ◌==◌, if◌then◌else◌, get_or, filter, find, leb_ℤ, ℤ, pos, Text, text_eq, lower, Dict,
  ok_or, ◌>>=◌, ◌>>◌, raise_if, Result, err, ok, ℕ, ◌*◌, ◌/◌, Bool, true, false, not, ◌&&◌, Option,
  none, some, List, [], ◌∷◌, ◌++◌,
}
use passport_scorer.Scoring.{Evidence}
use passport_scorer.Submission.{Community, Score, Status, StampEntry, Problem, done}
use passport_scorer.V2.{Environment, CommunityRow, scorer_of}

pub data Action : Type 0 where
  fifo_deduplication : Action
  lifo_deduplication : Action
  trustalab_score : Action
  score_update : Action

-- The text of a score's error, or the one that stands for a score that cannot be serialized.
pub data LoggedError : Type 0 where
  error_of : Problem → LoggedError
  error_serializing_score : LoggedError

-- The keys of an evidence that are read.
pub record EvidenceData : Type 0 where
  pub raw_score : Option ℤ
  pub threshold : Option ℤ

-- The keys of a score that are read. A key that is missing is `none`, and so is null, but that the
-- score tells the two apart.
pub record ScoreData : Type 0 where
  pub evidence : Option EvidenceData
  pub score : Option (Option ℤ)
  pub last_score_timestamp : Option ℕ
  pub expiration_date : Option ℕ
  pub error : Option LoggedError
  pub stamps : Option (Dict StampEntry)

-- The data of an event: with the key "fields", or the keys of a score themselves.
pub data EventData : Type 0 where
  with_fields : ScoreData → EventData
  direct : ScoreData → EventData

-- A row of `Event`.
pub record Event : Type 0 where
  pub action : Action
  pub address : Text
  pub community : Option ℕ
  pub created_at : ℕ
  pub data_ : EventData

abbrev pub no_data : ScoreData
no_data = record {
  evidence = none;
  score = none;
  last_score_timestamp = none;
  expiration_date = none;
  error = some error_serializing_score;
  stamps = none;
}

abbrev pub evidence_data : Option Evidence → Option EvidenceData
evidence_data none = none
evidence_data (some e) =
    some (record { raw_score = some e.raw_score; threshold = some e.threshold })

abbrev pub logged_error : Option Problem → Option LoggedError
logged_error none = none
logged_error (some e) = some (error_of e)

-- `DjangoJSONEncoder` writes a time to the millisecond, and cuts off the rest; times are in
-- microseconds here.
abbrev pub milliseconds : Option ℕ → Option ℕ
milliseconds none = none
milliseconds (some t) = some (t / 1000 * 1000)

abbrev pub fields_of : Score → ScoreData
fields_of s = record {
  evidence = evidence_data s.evidence;
  score = some s.score;
  last_score_timestamp = milliseconds s.last_score_timestamp;
  expiration_date = milliseconds s.expiration_date;
  error = logged_error s.error;
  stamps = s.stamps;
}

-- `serialize_score`; `serializes` says whether Django's serializer does not raise.
unfoldable pub serialize_score : (Score → Bool) → Score → EventData
serialize_score serializes s = if serializes s then with_fields (fields_of s) else direct no_data

abbrev pub is_done : Score → Bool
is_done s = elim s.status [ some done ↦ true | _ ↦ false ]

-- `score_updated`, which runs before a score is saved
unfoldable pub score_updated : (Score → Bool) → ℕ → Text → ℕ → Score → List Event → List Event
unfolding serialize_score
score_updated serializes now address community s events =
    if is_done s
    then events
      ++ record {
        action = score_update;
        address = lower address;
        community = some community;
        created_at = now;
        data_ = serialize_score serializes s;
      }
        ∷ []
    else events

pub data Failure : Type 0 where
  invalid_api_key_permissions : Failure
  created_at_is_required : Failure
  rate_limited : Failure
  not_found : Failure
  score_does_not_exist : Failure

-- `extract_score_data`
unfoldable pub extract_score_data : EventData → ScoreData
extract_score_data (with_fields d) = d
extract_score_data (direct d) = d

abbrev is_score_update : Action → Bool
is_score_update score_update = true
is_score_update fifo_deduplication = false
is_score_update lifo_deduplication = false
is_score_update trustalab_score = false

abbrev is_in : ℕ → Option ℕ → Bool
is_in community none = false
is_in community (some c) = c == community

-- `EventFilter`
abbrev pub is_wanted : ℕ → Text → ℕ → Event → Bool
is_wanted community address created_at e =
    is_in community e.community
    && is_score_update e.action
    && text_eq e.address (lower address)
    && leb e.created_at created_at

-- `order_by("-created_at").first()`; of events at one time it takes the last that was written, where
-- the database may take any.
unfoldable pub latest : List Event → Option Event
latest [] = none
latest (e ∷ es) = elim (latest es) [
  | none ↦ some e
  | some f ↦ if ltb f.created_at e.created_at then some e else some f
]

-- The answer, before its numbers are written with five decimal places.
pub record HistoryResponse : Type 0 where
  pub address : Text
  pub score : Option ℤ
  pub passing_score : Bool
  pub threshold : ℤ
  pub last_score_timestamp : Option ℕ
  pub expiration_timestamp : Option ℕ
  pub error : Option LoggedError
  pub stamps : Option (Dict StampEntry)

-- `evidence.get("threshold", "0")`
abbrev pub threshold_of : Option EvidenceData → ℤ
threshold_of none = pos 0
threshold_of (some e) = get_or e.threshold (pos 0)

abbrev pub raw_score_of : Option EvidenceData → Option ℤ
raw_score_of none = none
raw_score_of (some e) = e.raw_score

unfoldable pub score_of : ScoreData → Option ℤ
score_of d = elim (raw_score_of d.evidence) [
  | some z ↦ some z
  | none ↦ get_or d.score (some (pos 0))
]

abbrev pub reaches : Option ℤ → ℤ → Bool
reaches none threshold = false
reaches (some z) threshold = leb_ℤ threshold z

unfoldable pub format_history : Text → ScoreData → HistoryResponse
unfolding score_of
format_history address d = record {
  address = address;
  score = score_of d;
  passing_score = reaches (score_of d) (threshold_of d.evidence);
  threshold = threshold_of d.evidence;
  last_score_timestamp = d.last_score_timestamp;
  expiration_timestamp = d.expiration_date;
  error = d.error;
  stamps = d.stamps;
}

-- What `get_score_history` answers for a community.
unfoldable pub read_history : ℕ → Text → ℕ → List Event → Result Failure HistoryResponse
unfolding latest extract_score_data format_history
read_history community address created_at events =
    elim (latest (filter (is_wanted community address created_at) events)) [
      | none ↦ err score_does_not_exist
      | some e ↦ ok (format_history address (extract_score_data e.data_))
    ]

abbrev is_community : ℕ → ℕ → CommunityRow → Bool
is_community scorer_id account r = r.community.pk == scorer_id && r.account == account

-- `get_score_history`; the flags are `historical_endpoint` of the key and whether `check_rate_limit`
-- raises, and a time that is an empty text is `none`.
unfoldable pub get_score_history :
    Environment
    → Bool
    → Bool
    → ℤ
    → ℕ
    → Text
    → Option ℕ
    → List Event
    → Result Failure HistoryResponse
unfolding read_history
get_score_history env may_read is_limited scorer_id account address created_at events = do
  raise_if (not may_read) invalid_api_key_permissions
  time ← ok_or created_at created_at_is_required
  raise_if is_limited rate_limited
  row ← ok_or (find (is_community (scorer_of env scorer_id) account) env.communities) not_found
  read_history row.community.pk address time events
