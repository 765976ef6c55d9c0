-- ===== src/CacheApi.antt =====
-- The endpoints of the stamp cache with the score that they report (api/ceramic_cache/api/v1.py):
-- the cache's handlers followed by the scoring, and the readings of stamps and scores.
pub mod Kept
pub mod Agrees
mod Tests
use passport_scorer.Common.{
  ltb, ◌==◌, if◌then◌else◌, is_some, get_or, filter, find, ℤ, Text, lower, str, Dict, ◌>>=◌, ◌>>◌,
  Result, err, ok, ℕ, ◌+◌, Bool, false, not, ◌&&◌, Option, none, some, List, ◌∷◌,
}
use passport_scorer.Cache.{
  Row, Store, CacheStampPayload, SourceApp, passport_state, handle_add_stamps_only,
  handle_patch_stamps, handle_delete_stamps,
}
use passport_scorer.Cache as Cache
use passport_scorer.Submission.{Community, Score}
use passport_scorer.V2.{
  Environment, Db, V2ScoreResponse, CommunityRow, is_passport_of, is_score_of,
  handle_scoring_for_account, format_v2_score_response, response_points,
}
use passport_scorer.V2 as V2

-- The exceptions of the cache and of the scoring, and those of the handlers.
pub data Failure : Type 0 where
  of_cache : Cache.Failure → Failure
  of_scoring : V2.Failure → Failure
  scorer_id_not_set : Failure
  account_not_found : Failure
  internal_server_error : Failure
  invalid_address : Failure
  no_community : Failure
  invalid_community_score_request : Failure

-- The cache with the tables of scores.
pub record State : Type 0 where
  pub store : Store
  pub db : Db

-- MAX_BULK_CACHE_SIZE, and CERAMIC_CACHE_SCORER_ID, which is not set if it is 0.
pub record Settings : Type 0 where
  pub max_bulk_cache_size : ℕ
  pub scorer_id : ℕ

-- `stamps`, `score`
abbrev pub StampsWithScore : Type 0
StampsWithScore = List Row × V2ScoreResponse

abbrev pub Reply : Type 0
Reply = Result Failure StampsWithScore × State

-- An id that is given and not 0, or the one of the settings.
abbrev pub or_else : Option ℕ → ℕ → ℕ
or_else none default = default
or_else (some id) default = if id == 0 then default else id

-- The scoring reads the cache as it is then.
abbrev pub seen : Environment → Store → Environment
seen env store = record env { cache = store }

abbrev pub has_pk : ℕ → CommunityRow → Bool
has_pk id r = r.community.pk == id

abbrev pub scored : Result V2.Failure V2ScoreResponse × Db → Result Failure V2ScoreResponse × Db
scored (err e, db) = (err (of_scoring e), db)
scored (ok r, db) = (ok r, db)

module _ (env : Environment) (settings : Settings) where
  -- `get_detailed_score_response_for_address`
  unfoldable pub get_detailed_score_response_for_address :
      Text → ℕ → State → Result Failure V2ScoreResponse × Db
  unfolding handle_scoring_for_account str
  get_detailed_score_response_for_address address scorer_id s =
      if scorer_id == 0
      then (err scorer_id_not_set, s.db)
      else elim (find (has_pk scorer_id) env.communities) [
        | none ↦ (err account_not_found, s.db)
        | some r ↦
            scored
              (handle_scoring_for_account (seen env s.store) address (str scorer_id) r.account s.db)
      ]

  -- The answer of a handler of the cache, with the score.
  unfoldable pub with_score : Text → ℕ → Result Cache.Failure (List Row) × Store → Db → Reply
  unfolding get_detailed_score_response_for_address
  with_score address scorer_id (err e, store) db =
      (err (of_cache e), record { store = store; db = db })
  with_score address scorer_id (ok rows, store) db =
      let (answer, db') =
        get_detailed_score_response_for_address address scorer_id
          (record { store = store; db = db }) in
      (do score ← answer; ok (rows, score), record { store = store; db = db' })

  -- `handle_add_stamps`
  unfoldable pub handle_add_stamps :
      ℕ → Text → List CacheStampPayload → SourceApp → Option ℕ → State → Reply
  unfolding handle_add_stamps_only with_score
  handle_add_stamps now address payload app alternate s =
      with_score address (or_else alternate settings.scorer_id)
        (handle_add_stamps_only settings.max_bulk_cache_size now address payload app alternate
          s.store)
        s.db

  -- `handle_patch_stamps`, and `patch_stamps`, which gives one error for all
  unfoldable pub handle_patch_stamps_scored : ℕ → Text → List CacheStampPayload → State → Reply
  unfolding handle_patch_stamps with_score
  handle_patch_stamps_scored now address payload s =
      with_score address settings.scorer_id
        (handle_patch_stamps settings.max_bulk_cache_size now address payload s.store) s.db

  abbrev pub masked : Reply → Reply
  masked (err e, s) = (err internal_server_error, s)
  masked (ok r, s) = (ok r, s)

  unfoldable pub patch_stamps : ℕ → Text → List CacheStampPayload → State → Reply
  unfolding handle_patch_stamps_scored
  patch_stamps now address payload s = masked (handle_patch_stamps_scored now address payload s)

  -- `handle_delete_stamps`
  unfoldable pub handle_delete_stamps_scored : ℕ → Text → List Text → State → Reply
  unfolding handle_delete_stamps with_score
  handle_delete_stamps_scored now address providers s =
      with_score address settings.scorer_id
        (handle_delete_stamps settings.max_bulk_cache_size now address providers s.store) s.db

  -- The row that `Score.objects.get` finds, with the passport's address.
  unfoldable pub find_score : Text → ℕ → Db → Option (Text × Score)
  find_score address community db = elim (find (is_passport_of address community) db.passports) [
    | none ↦ none
    | some r ↦ elim (find (is_score_of r.passport.id) db.scores) [
      | none ↦ none
      | some row ↦ some (r.passport.address, row.1)
    ]
  ]

  -- The stamps of `handle_get_stamps`, of the first type.
  abbrev pub stamps_after :
      Text → Store → Result Failure V2ScoreResponse × Db → Result Failure (List Row) × State
  stamps_after address store (err e, db) = (err e, record { store = store; db = db })
  stamps_after address store (ok r, db) =
      (ok (passport_state address store), record { store = store; db = db })

  -- `handle_get_stamps`, which scores an address that has no score
  unfoldable pub handle_get_stamps : Text → State → Result Failure (List Row) × State
  unfolding find_score get_detailed_score_response_for_address
  handle_get_stamps address s =
      if not (settings.scorer_id == 0)
        && not (is_some (find_score (lower address) settings.scorer_id s.db))
      then stamps_after address s.store
          (get_detailed_score_response_for_address address settings.scorer_id s)
      else (ok (passport_state address s.store), s)

  -- Whether a score is there that has not expired.
  abbrev pub is_expired : ℕ → Score → Bool
  is_expired now score = elim score.expiration_date [ none ↦ false | some t ↦ ltb t now ]

  abbrev pub unexpired : ℕ → Option (Text × Score) → Option (Text × Score)
  unexpired now none = none
  unexpired now (some row) = if is_expired now row.1 then none else some row

  -- Every error of the scoring becomes the same one.
  abbrev pub ui_score :
      Store → Result Failure V2ScoreResponse × Db → Result Failure V2ScoreResponse × State
  ui_score store (err e, db) =
      (err invalid_community_score_request, record { store = store; db = db })
  ui_score store (ok r, db) = (ok r, record { store = store; db = db })

  -- The score that is stored and has not expired, or a new one.
  unfoldable pub ui_answer :
      Text → ℕ → CommunityRow → State → Result Failure V2ScoreResponse × State
  unfolding find_score get_detailed_score_response_for_address response_points
      format_v2_score_response
  ui_answer address scorer_id r s =
      elim (unexpired env.now (find_score (lower address) scorer_id s.db)) [
        | none ↦ ui_score s.store (get_detailed_score_response_for_address address scorer_id s)
        | some (name, score) ↦
            let (points, possible) = response_points env (lower address) r.community s.db.world in
            (ok (format_v2_score_response name score points possible), s)
      ]

  -- `handle_get_ui_score`
  unfoldable pub handle_get_ui_score :
      Text → Option ℕ → State → Result Failure V2ScoreResponse × State
  handle_get_ui_score address alternate s =
      let scorer_id = or_else alternate settings.scorer_id in
      if not (env.is_valid_address (lower address))
      then (err invalid_address, s)
      else elim (find (has_pk scorer_id) env.communities) [
        | none ↦ (err no_community, s)
        | some r ↦ ui_answer address scorer_id r s
      ]

  -- `calc_score`
  unfoldable pub calc_score : Text → Option ℕ → State → Result Failure V2ScoreResponse × Db
  unfolding get_detailed_score_response_for_address
  calc_score address alternate s =
      get_detailed_score_response_for_address address (get_or alternate 0) s

-- A cache of Django for one minute: the weights by their key, with the time they last until.
abbrev pub Weights : Type 0
Weights = Dict ℤ

-- `handle_get_scorer_weights`; `weights_of` is `community.get_scorer().weights`, and a failure none.
unfoldable pub handle_get_scorer_weights :
    (ℕ → Option Weights)
    → ℕ
    → ℕ
    → Option ℕ
    → List (ℕ × Weights × ℕ)
    → Option Weights × List (ℕ × Weights × ℕ)
handle_get_scorer_weights weights_of default now given cache =
    let id = or_else given default in
    elim (find (λ e. e.0 == id && ltb now e.2) cache) [
      | some e ↦ (some e.1, cache)
      | none ↦ elim (weights_of id) [
        | none ↦ (none, cache)
        | some weights ↦
            (some weights, (id, weights, now + 60) ∷ filter (λ e. not (e.0 == id)) cache)
      ]
    ]
