-- ===== src/History/Logged.antt =====
-- The history of a score is that of its saves (`get_score_history` in api/v2/api/api_stamps.py and
-- `score_updated` in api/registry/models.py).
use passport_scorer.Common.{
  ltb, if◌then◌else◌, Bool-cases, Option-cases, filter, All, Text, lower, Dict, Result, err, ok, ℕ,
  ◌≡◌, refl, sym, ap, ◌∙◌, inl, inr, true, false, Option, none, some, List, [], ◌∷◌, ◌++◌,
  append-nil, append_assoc, arith,
}
use passport_scorer.Scoring.{Evidence}
use passport_scorer.Submission.{Score, StampEntry}
use passport_scorer.Submission.Settled.{is_settled}
use passport_scorer.V2.{V2ScoreResponse, format_v2_score_response}
use passport_scorer.History.Saves.{
  Save, log_all, is_relevant, last_save, IsInOrder, last_save-take, last_save-later, last_save-skip,
  last_save-after, last_save-holds,
}
use passport_scorer.History.{
  Event, logged_error, milliseconds, fields_of, serialize_score, is_done, Failure,
  extract_score_data, is_wanted, latest, HistoryResponse, format_history, read_history,
  score_update, with_fields, score_does_not_exist,
}

-- The history's answer for a score against the score endpoint's: its times are cut to milliseconds.
pub record Repeats (h : HistoryResponse) (r : V2ScoreResponse) : Type 0 where
  pub score : h.score ≡ some r.score
  pub passing_score : h.passing_score ≡ r.passing_score
  pub threshold : h.threshold ≡ r.threshold
  pub last_score_timestamp : h.last_score_timestamp ≡ milliseconds r.last_score_timestamp
  pub expiration_timestamp : h.expiration_timestamp ≡ milliseconds r.expiration_timestamp
  pub error : h.error ≡ logged_error r.error
  pub stamps : h.stamps ≡ some r.stamps

abbrev event_of : Save → Event
event_of s = record {
  action = score_update;
  address = lower s.address;
  community = some s.community;
  created_at = s.time;
  data_ = with_fields (fields_of s.score);
}

events_of : List Save → List Event
events_of [] = []
events_of (s ∷ saves) =
    let rest = events_of saves in if is_done s.score then event_of s ∷ rest else rest

log_all-append :
    (saves : List Save) (events : List Event) → log_all saves events ≡ events ++ events_of saves
unfolding log_all events_of serialize_score
log_all-append [] events = sym (append-nil events)
log_all-append (s ∷ saves) events = elim (Bool-cases (is_done s.score)) [
  | inl e ↦ rw e (
      log_all-append saves (events ++ event_of s ∷ [])
      ∙ append_assoc events (event_of s ∷ []) (events_of saves))
  | inr e ↦ rw e (log_all-append saves events)
]

abbrev event_of_option : Option Save → Option Event
event_of_option none = none
event_of_option (some s) = some (event_of s)

is_relevant-is_wanted :
    (community : ℕ) (address : Text) (time : ℕ) (s : Save)
    → is_done s.score ≡ true
    → is_relevant community address time s ≡ is_wanted community address time (event_of s)
is_relevant-is_wanted community address time s e = ground (arith, e)

latest-last_save :
    (community : ℕ) (address : Text) (time : ℕ) (saves : List Save)
    → IsInOrder saves
    → latest (filter (is_wanted community address time) (events_of saves))
      ≡ event_of_option (last_save (is_relevant community address time) saves)
unfolding latest events_of
latest-last_save community address time [] h = refl
latest-last_save community address time (s ∷ saves) h =
    let rest = latest-last_save community address time saves h.1 in
    let p = is_relevant community address time in
    let wanted : List Event → List Event = filter (is_wanted community address time) in
    elim (Bool-cases (is_done s.score)) [
      | inr e ↦
          let skip : p s ≡ false = rw e refl in
          let left_out : latest (wanted (events_of (s ∷ saves)))
              ≡ latest (wanted (events_of saves)) =
            rw e refl in
          left_out ∙ rest ∙ ap event_of_option (sym (last_save-skip p s saves skip))
      | inl e ↦
          let same = is_relevant-is_wanted community address time s e in
          elim (Bool-cases (is_wanted community address time (event_of s))) [
            | inr f ↦
                let left_out : latest (wanted (events_of (s ∷ saves)))
                    ≡ latest (wanted (events_of saves)) =
                  rw (e, f) refl in
                left_out ∙ rest ∙ ap event_of_option (sym (last_save-skip p s saves (same ∙ f)))
            | inl f ↦ elim (Option-cases (last_save p saves)) [
              | inl n ↦
                  let own : (if p s then some s else none) ≡ some s = rw (same ∙ f) refl in
                  let found : latest (wanted (events_of (s ∷ saves))) ≡ some (event_of s) =
                    rw (e, f, rest, n) refl in
                  found ∙ ap event_of_option (sym (last_save-take p s saves n ∙ own))
              | inr (w, k) ↦
                  let after = last_save-after p s.time saves h.0 k in
                  let later : ltb w.time s.time ≡ false = ground (arith, after) in
                  let found : latest (wanted (events_of (s ∷ saves))) ≡ some (event_of w) =
                    rw (e, f, rest, k, later) refl in
                  found ∙ ap event_of_option (sym (last_save-later p s saves k))
            ]
          ]
    ]

-- What a done score has.
settled-parts :
    (s : Score)
    → is_settled s ≡ true
    → is_done s ≡ true
    → (e : Evidence) × (stamps : Dict StampEntry) × (s.evidence ≡ some e)
      × (s.stamps ≡ some stamps)
      × (s.error ≡ none)
unfolding is_settled
settled-parts s settled finished =
    let no_error : s.error ≡ none = ground (arith, settled, finished) in
    elim (Option-cases s.evidence) [
      | inl n ↦ absurd (ground (arith, settled, no_error, n))
      | inr (e, evidence) ↦ elim (Option-cases s.stamps) [
        | inl n ↦ absurd (ground (arith, settled, no_error, n))
        | inr (stamps, has_stamps) ↦ (e, stamps, evidence, has_stamps, no_error)
      ]
    ]

format_history-Repeats :
    (address : Text) (s : Score)
    → is_settled s ≡ true
    → is_done s ≡ true
    → Repeats (format_history address (fields_of s)) (format_v2_score_response address s none none)
unfolding format_history format_v2_score_response
format_history-Repeats address s settled finished =
    let (e, stamps, evidence, has_stamps, no_error) = settled-parts s settled finished in
    record {
      score = rw evidence refl;
      passing_score = rw evidence refl;
      threshold = rw evidence refl;
      last_score_timestamp = refl;
      expiration_timestamp = refl;
      error = refl;
      stamps = rw has_stamps refl;
    }

-- What the history has to answer, given the last save that is relevant.
abbrev pub Answers : Text → Option Save → Result Failure HistoryResponse → Type 0
Answers address none r = r ≡ err score_does_not_exist
Answers address (some s) r =
    (h : HistoryResponse) × (r ≡ ok h)
    × Repeats h (format_v2_score_response address s.score none none)

-- Where the scores that are saved are settled, as submissions leave them, and serialize, and the
-- times of the saves do not go back: the history at a time answers for an address in a community
-- with the last done score that was saved for them by then: with the score, pass, threshold, error
-- and stamps that the score endpoint reports for it, and with its times cut to milliseconds; and that no score exists if there is none.
pub read_history-Answers :
    (saves : List Save) (community : ℕ) (address : Text) (time : ℕ)
    → IsInOrder saves
    → All (λ s. is_settled s.score ≡ true) saves
    → Answers address
        (last_save (is_relevant community address time) saves)
        (read_history community address time (log_all saves []))
unfolding read_history extract_score_data
read_history-Answers saves community address time in_order settled =
    let p = is_relevant community address time in
    let found : latest (filter (is_wanted community address time) (log_all saves []))
        ≡ event_of_option (last_save p saves) =
      ap (λ k. latest (filter (is_wanted community address time) k)) (log_all-append saves [])
      ∙ latest-last_save community address time saves in_order in
    elim (Option-cases (last_save p saves)) [
      | inl n ↦
          let nothing : latest (filter (is_wanted community address time) (log_all saves []))
              ≡ none =
            found ∙ ap event_of_option n in
          rw (n, nothing, read_history) refl
      | inr (s, k) ↦
          let event : latest (filter (is_wanted community address time) (log_all saves []))
              ≡ some (event_of s) =
            found ∙ ap event_of_option k in
          let (is_settled_score, relevant) =
            last_save-holds (λ s. is_settled s.score ≡ true) p saves settled k in
          let finished : is_done s.score ≡ true = ground (arith, relevant) in
          rw (k, event, read_history)
            (
              format_history address (fields_of s.score),
              refl,
              format_history-Repeats address s.score is_settled_score finished,
            )
    ]
