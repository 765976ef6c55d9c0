-- ===== src/Communities/Calls.antt =====
-- Calls of the handlers of communities (api/account/api.py, api/registry/api/v1.py), one after the
-- other.
use passport_scorer.Common.{Text, ℕ, Bool, Option, List, [], ◌∷◌}
use passport_scorer.Communities.{
  Reply, CommunitiesPayload, create_community, create_generic_scorer, UpdatePayload,
  update_community, PatchPayload, patch_community, delete_community, Defaults, Db,
}
use passport_scorer.Communities.Scorers.{update_community_scorers}

-- What the handlers are called with: the account of the user, if there is one, and the payload.
pub data Call : Type 0 where
  create : Option ℕ → Option CommunitiesPayload → Call
  create_generic : ℕ → Bool → Text → Text → Option Text → Call
  put : Option ℕ → ℕ → UpdatePayload → Call
  patch : Option ℕ → ℕ → PatchPayload → Call
  remove : Option ℕ → ℕ → Call
  put_scorer : Option ℕ → ℕ → Text → Call

-- The settings USER_COMMUNITY_CREATION_LIMIT and GENERIC_COMMUNITY_CREATION_LIMIT.
pub record Limits : Type 0 where
  pub user : ℕ
  pub generic : ℕ

-- The answer to a call at the time `now`, and the tables after it.
unfoldable pub serve : Defaults → Limits → ℕ → Call → Db → Reply
unfolding create_community create_generic_scorer update_community patch_community delete_community
    update_community_scorers
serve defaults limits now (create account p) db =
    create_community defaults limits.user now account p db
serve defaults limits now (create_generic account may_create name description external) db =
    create_generic_scorer defaults limits.generic now account may_create name description external
      db
serve defaults limits now (put account id p) db = update_community account id p db
serve defaults limits now (patch account id p) db = patch_community account id p db
serve defaults limits now (remove account id) db = delete_community now account id db
serve defaults limits now (put_scorer account id type) db =
    update_community_scorers defaults account id type db

-- A sequence of calls, each with its time.
unfoldable pub serve_all : Defaults → Limits → List (ℕ × Call) → Db → Db
unfolding serve
serve_all defaults limits [] db = db
serve_all defaults limits ((now, call) ∷ calls) db =
    serve_all defaults limits calls (serve defaults limits now call db).1
