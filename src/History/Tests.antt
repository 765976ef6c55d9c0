-- ===== src/History/Tests.antt =====
-- The history of two saves (api/v2/api/api_stamps.py, api/registry/models.py).
use passport_scorer.Common.{
  All, ℤ, pos, codes, text_eq, lower, Result, err, ok, ℕ, ◌≡◌, refl, Bool, true, false, Option,
  none, some, List, [], ◌∷◌, arith,
}
use passport_scorer.Submission.{Score, done, key_error, clear_on_error}
use passport_scorer.Submission.Settled.{is_settled}
use passport_scorer.History.{
  Event, HistoryResponse, Failure, score_update, direct, no_data, read_history,
}
use passport_scorer.History.Saves.{Save, log_all, is_relevant, last_save, IsInOrder}
use passport_scorer.History.Logged.{Answers, read_history-Answers}

abbrev finished : ℕ → Score
finished weight = record {
  score = some (pos 0);
  last_score_timestamp = some 4;
  status = some done;
  error = none;
  evidence = some (record { success = false; raw_score = pos weight; threshold = pos 2000000 });
  stamp_scores = some [];
  stamps = some [];
  expiration_date = none;
}

abbrev save : ℕ → Score → Save
save time score = record { time = time; address = codes "0xB"; community = 7; score = score }

-- A failed submission is not in the history.
abbrev saves : List Save
saves =
    save 5 (finished 10)
    ∷ save 8 (finished 20)
    ∷ save 9 (clear_on_error key_error (finished 20))
    ∷ []

saves-IsInOrder : IsInOrder saves
saves-IsInOrder = ((omega arith, (omega arith, tt)), ((omega arith, tt), (tt, tt)))

are_settled : All (λ (s : Save). is_settled s.score ≡ true) saves
unfolding is_settled clear_on_error
are_settled = (refl, (refl, (refl, tt)))

read_history-Answers_example :
    Answers
      (codes "0xb")
      (last_save (is_relevant 7 (codes "0xb") 7) saves)
      (read_history 7 (codes "0xb") 7 (log_all saves []))
read_history-Answers_example =
    read_history-Answers saves 7 (codes "0xb") 7 saves-IsInOrder are_settled

abbrev score_at : ℕ → Option ℤ
score_at time = elim (read_history 7 (codes "0xb") time (log_all saves [])) [
  | err e ↦ none
  | ok h ↦ h.score
]

at_times : (score_at 4 ≡ none) × (score_at 7 ≡ some (pos 10)) × (score_at 9 ≡ some (pos 20))
unfolding read_history log_all text_eq lower clear_on_error
at_times = (refl, refl, refl)

abbrev unserialized : Event
unserialized = record {
  action = score_update;
  address = codes "0xb";
  community = some 7;
  created_at = 5;
  data_ = direct no_data;
}

abbrev passes : Result Failure HistoryResponse → Bool
passes (err e) = false
passes (ok h) = h.passing_score

-- Score and threshold are both 0 where the score could not be serialized, so it passes.
error_passes : passes (read_history 7 (codes "0xb") 5 (unserialized ∷ [])) ≡ true
unfolding read_history text_eq lower
error_passes = refl
