-- ===== src/Communities/Kept.antt =====
-- No sequence of calls (api/account/api.py, api/registry/api/v1.py) spoils the tables.
use passport_scorer.Common.{ℕ, ◌≤◌, List, [], ◌∷◌}
use passport_scorer.Communities.{
  put_found, update_community, patch_found, patch_community, delete_found, delete_community,
  Defaults, Db, unauthorized, account_does_not_exist,
}
use passport_scorer.Communities.Scorers.{scorer_found, update_community_scorers}
use passport_scorer.Communities.WellFormed.{WellFormed}
use passport_scorer.Communities.Handlers.{
  create-WellFormed, create_generic-WellFormed, with_community-WellFormed,
}
use passport_scorer.Communities.Changes.{
  put_found-WellFormed, patch_found-WellFormed, delete_found-WellFormed, scorer_found-WellFormed,
}
use passport_scorer.Communities.Calls.{
  Call, Limits, serve, serve_all, create, create_generic, put, patch, remove, put_scorer,
}

pub serve-WellFormed :
    (defaults : Defaults) (limits : Limits) (limit now : ℕ) (call : Call) (db : Db)
    → limits.user ≤ limit
    → limits.generic ≤ limit
    → WellFormed limit db
    → WellFormed limit (serve defaults limits now call db).1
unfolding serve update_community patch_community delete_community update_community_scorers
serve-WellFormed defaults limits limit now (create account p) db u g w =
    create-WellFormed defaults limit limits.user now account p db u w
serve-WellFormed defaults limits limit now
      (create_generic account may_create name description external) db u g w =
    create_generic-WellFormed defaults limit limits.generic now account may_create name description
      external db g w
serve-WellFormed defaults limits limit now (put account id p) db u g w =
    with_community-WellFormed limit unauthorized account id (put_found p) db
      (λ a c e. put_found-WellFormed limit p db a id c e w) w
serve-WellFormed defaults limits limit now (patch account id p) db u g w =
    with_community-WellFormed limit unauthorized account id (patch_found p) db
      (λ a c e. patch_found-WellFormed limit p db a id c e w) w
serve-WellFormed defaults limits limit now (remove account id) db u g w =
    with_community-WellFormed limit unauthorized account id (delete_found now) db
      (λ a c e. delete_found-WellFormed limit now db a id c e w) w
serve-WellFormed defaults limits limit now (put_scorer account id type) db u g w =
    with_community-WellFormed limit account_does_not_exist account id (scorer_found defaults type)
      db (λ a c e. scorer_found-WellFormed defaults limit type db a id c e w) w

-- No sequence of calls that create, change, delete and rescore communities, failing ones included,
-- spoils the tables: no two rows share an id, a scorer, or an account's name while both are live or
-- were deleted at one time; every community's scorer exists and is of the class that its type
-- names; and no account gets more live communities than a bound of the two limits that it did not
-- exceed before.
pub serve_all-WellFormed :
    (defaults : Defaults) (limits : Limits) (limit : ℕ) (calls : List (ℕ × Call)) (db : Db)
    → limits.user ≤ limit
    → limits.generic ≤ limit
    → WellFormed limit db
    → WellFormed limit (serve_all defaults limits calls db)
unfolding serve_all
serve_all-WellFormed defaults limits limit [] db u g w = w
serve_all-WellFormed defaults limits limit ((now, call) ∷ calls) db u g w =
    serve_all-WellFormed defaults limits limit calls (serve defaults limits now call db).1 u g
      (serve-WellFormed defaults limits limit now call db u g w)
