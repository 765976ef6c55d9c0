-- ===== src/CacheApi/Kept.antt =====
-- The value of a stored score agrees with its evidence after every call of the endpoints of
-- api/ceramic_cache/api/v1.py.
use passport_scorer.Common.{
  ◌==◌, Bool-cases, Option-cases, is_some, get_or, find, Text, lower, str, Result, err, ok, ℕ, inl,
  inr, not, ◌&&◌, Option, List, [], ◌∷◌,
}
use passport_scorer.Cache.{Store, Row, CacheStampPayload, SourceApp}
use passport_scorer.Cache as Cache
use passport_scorer.V2.{
  CommunityRow, Environment, Db, V2ScoreResponse, is_score_of, is_passport_of,
  get_or_create_passport, get_or_create_score, save_score, new_score, format_v2_score_response,
  response_points, score_passport, ahandle_scoring, aget_scorer_by_id, handle_scoring_for_account,
  threshold_of, raw_score,
}
use passport_scorer.V2 as V2
use passport_scorer.CacheApi.{
  Failure, State, Settings, Reply, or_else, seen, has_pk, scored,
  get_detailed_score_response_for_address, with_score, handle_add_stamps,
  handle_patch_stamps_scored, masked, patch_stamps, handle_delete_stamps_scored, find_score,
  stamps_after, handle_get_stamps, unexpired, ui_score, ui_answer, handle_get_ui_score, calc_score,
}
use passport_scorer.V2.Consistent.{handle_scoring_for_account-Sound, Sound}

module _ (env : Environment) (settings : Settings) where
  detailed-Sound :
      (address : Text) (scorer_id : ℕ) (s : State)
      → Sound s.db
      → Sound (get_detailed_score_response_for_address env settings address scorer_id s).1
  unfolding get_detailed_score_response_for_address
  detailed-Sound address scorer_id s h = elim (Bool-cases (scorer_id == 0)) [
    | inl unset ↦ rw (unset, get_detailed_score_response_for_address) h
    | inr set ↦ elim (Option-cases (find (has_pk scorer_id) env.communities)) [
      | inl missing ↦ rw (set, get_detailed_score_response_for_address, missing) h
      | inr (r, found) ↦
          rw (set, get_detailed_score_response_for_address, found)
            (scored-Sound
              (handle_scoring_for_account (seen env s.store) address (str scorer_id) r.account s.db)
              (handle_scoring_for_account-Sound (seen env s.store) address (str scorer_id) r.account
                s.db h))
    ]
  ]
    where
      scored-Sound : (r : Result V2.Failure V2ScoreResponse × Db) → Sound r.1 → Sound (scored r).1
      scored-Sound (err e, db) h = h
      scored-Sound (ok r, db) h = h

  with_score-Sound :
      (address : Text) (scorer_id : ℕ) (r : Result Cache.Failure (List Row) × Store) (db : Db)
      → Sound db
      → Sound (with_score env settings address scorer_id r db).1.db
  unfolding with_score
  with_score-Sound address scorer_id (err e, store) db h = h
  with_score-Sound address scorer_id (ok rows, store) db h =
      detailed-Sound address scorer_id (record { store = store; db = db }) h

  masked-Sound : (r : Reply) → Sound r.1.db → Sound (masked env settings r).1.db
  masked-Sound (err e, s) h = h
  masked-Sound (ok r, s) h = h

  get_stamps-Sound :
      (address : Text) (s : State)
      → Sound s.db
      → Sound (handle_get_stamps env settings address s).1.db
  unfolding handle_get_stamps
  get_stamps-Sound address s h =
      elim (Bool-cases (
        not (settings.scorer_id == 0)
        && not (is_some (find_score env settings (lower address) settings.scorer_id s.db)))) [
          | inr idle ↦ rw (idle, handle_get_stamps) h
          | inl needed ↦
              let r =
                get_detailed_score_response_for_address env settings address settings.scorer_id s in
              rw (needed, handle_get_stamps)
                (after-Sound r (detailed-Sound address settings.scorer_id s h))
        ]
    where
      after-Sound :
          (r : Result Failure V2ScoreResponse × Db)
          → Sound r.1
          → Sound (stamps_after env settings address s.store r).1.db
      after-Sound (err e, db) h = h
      after-Sound (ok r, db) h = h

  ui_score-Sound :
      (store : Store) (r : Result Failure V2ScoreResponse × Db)
      → Sound r.1
      → Sound (ui_score env settings store r).1.db
  ui_score-Sound store (err e, db) h = h
  ui_score-Sound store (ok r, db) h = h

  ui_answer-Sound :
      (address : Text) (scorer_id : ℕ) (r : CommunityRow) (s : State)
      → Sound s.db
      → Sound (ui_answer env settings address scorer_id r s).1.db
  unfolding ui_answer
  ui_answer-Sound address scorer_id r s h =
      let old = find_score env settings (lower address) scorer_id s.db in
      let a = get_detailed_score_response_for_address env settings address scorer_id s in
      elim (Option-cases (unexpired env settings env.now old)) [
        | inl none1 ↦
            rw (none1, ui_answer) (ui_score-Sound s.store a (detailed-Sound address scorer_id s h))
        | inr (x, e) ↦ rw (e, ui_answer) h
      ]

  get_ui_score-Sound :
      (address : Text) (alternate : Option ℕ) (s : State)
      → Sound s.db
      → Sound (handle_get_ui_score env settings address alternate s).1.db
  unfolding handle_get_ui_score
  get_ui_score-Sound address alternate s h =
      let id = or_else alternate settings.scorer_id in
      elim (Bool-cases (env.is_valid_address (lower address))) [
        | inr bad ↦ rw (bad, handle_get_ui_score) h
        | inl good ↦ elim (Option-cases (find (has_pk id) env.communities)) [
          | inl missing ↦ rw (good, handle_get_ui_score, missing) h
          | inr (r, found) ↦
              rw (good, handle_get_ui_score, found) (ui_answer-Sound address id r s h)
        ]
      ]

-- The calls of the endpoints; the time of each is that of its environment.
pub data Call : Type 0 where
  add : Text → List CacheStampPayload → SourceApp → Option ℕ → Call
  patch : Text → List CacheStampPayload → Call
  remove : Text → List Text → Call
  get_stamps : Text → Call
  get_ui_score : Text → Option ℕ → Call
  recalculate : Text → Option ℕ → Call

unfoldable pub serve : Environment → Settings → Call → State → State
unfolding handle_add_stamps patch_stamps handle_delete_stamps_scored handle_get_stamps
    handle_get_ui_score calc_score
serve env settings (add address payload app alternate) s =
    (handle_add_stamps env settings env.now address payload app alternate s).1
serve env settings (patch address payload) s =
    (patch_stamps env settings env.now address payload s).1
serve env settings (remove address providers) s =
    (handle_delete_stamps_scored env settings env.now address providers s).1
serve env settings (get_stamps address) s = (handle_get_stamps env settings address s).1
serve env settings (get_ui_score address alternate) s =
    (handle_get_ui_score env settings address alternate s).1
serve env settings (recalculate address alternate) s = record s {
  db = (calc_score env settings address alternate s).1;
}

serve-Sound :
    (env : Environment) (settings : Settings) (call : Call) (s : State)
    → Sound s.db
    → Sound (serve env settings call s).db
unfolding serve handle_add_stamps patch_stamps handle_patch_stamps_scored
    handle_delete_stamps_scored calc_score
serve-Sound env settings (add address payload app alternate) s h =
    with_score-Sound env settings address (or_else alternate settings.scorer_id) _ s.db h
serve-Sound env settings (patch address payload) s h =
    masked-Sound env settings (handle_patch_stamps_scored env settings env.now address payload s)
      (with_score-Sound env settings address settings.scorer_id _ s.db h)
serve-Sound env settings (remove address providers) s h =
    with_score-Sound env settings address settings.scorer_id _ s.db h
serve-Sound env settings (get_stamps address) s h = get_stamps-Sound env settings address s h
serve-Sound env settings (get_ui_score address alternate) s h =
    get_ui_score-Sound env settings address alternate s h
serve-Sound env settings (recalculate address alternate) s h =
    detailed-Sound env settings address (get_or alternate 0) s h

-- A sequence of calls, each with its environment.
unfoldable pub serve_all : Settings → List (Environment × Call) → State → State
unfolding serve
serve_all settings [] s = s
serve_all settings ((env, call) ∷ calls) s = serve_all settings calls (serve env settings call s)

-- Over any sequence of calls that add, patch, delete and list stamps or read and calculate scores,
-- failing ones included and each in an environment of its own, every row of scores keeps a value
-- that is 1 just if the weight in its evidence reaches the threshold there (0 and 20 without
-- evidence).
pub serve_all-Sound :
    (settings : Settings) (calls : List (Environment × Call)) (s : State)
    → Sound s.db
    → Sound (serve_all settings calls s).db
unfolding serve_all
serve_all-Sound settings [] s h = h
serve_all-Sound settings ((env, call) ∷ calls) s h =
    serve_all-Sound settings calls (serve env settings call s) (serve-Sound env settings call s h)
