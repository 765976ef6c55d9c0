-- ===== src/Communities/Checks.antt =====
-- The checks of the handlers (api/account/api.py, api/registry/api/v1.py) come before the
-- constraints of the tables.
use passport_scorer.Common.{is_some, ℕ, ◌≡◌, refl, Bool, true, false, none, some}
use passport_scorer.Communities.{
  generic_payload, create_generic_scorer, put_found, update_community, patch_found, patch_community,
  Defaults, Db, unauthorized, account_does_not_exist,
}
use passport_scorer.Communities.Scorers.{scorer_found, update_community_scorers}
use passport_scorer.Communities.WellFormed.{WellFormed}
use passport_scorer.Communities.Calls.{
  Call, Limits, serve, create, create_generic, put, patch, remove, put_scorer,
}
use passport_scorer.Communities.Answers.{
  is_broken, put-answers, patch-answers, scorer-answers, create_for_account-answers, create-answers,
  with_community-answers,
}

-- The calls that a constraint may refuse: with an external id, or to delete.
abbrev pub may_collide : Call → Bool
may_collide (create_generic account may_create name description external) = is_some external
may_collide (remove account id) = true
may_collide other = false

-- On well-formed tables no call without an external id, a deletion apart, is refused by a
-- constraint of the database or fails for a scorer that is missing or of the wrong class: the
-- checks of the handlers find every duplicate name first.
pub serve-answers :
    (defaults : Defaults) (limits : Limits) (limit now : ℕ) (call : Call) (db : Db)
    → WellFormed limit db
    → may_collide call ≡ false
    → is_broken (serve defaults limits now call db).0 ≡ false
unfolding serve is_broken update_community patch_community update_community_scorers
    create_generic_scorer
serve-answers defaults limits limit now (create account p) db w m =
    create-answers defaults limits.user now account p db
serve-answers defaults limits limit now (create_generic account true name description none) db w m =
    create_for_account-answers defaults limits.generic now account
      (generic_payload name description) db
serve-answers defaults limits limit now (create_generic account false name description none) db w
      m =
    refl
serve-answers defaults limits limit now
      (create_generic account may_create name description (some e)) db w m =
    cc
serve-answers defaults limits limit now (put account id p) db w m =
    with_community-answers unauthorized account id (put_found p) db refl
      (λ a c e. put-answers p a id c db e)
serve-answers defaults limits limit now (patch account id p) db w m =
    with_community-answers unauthorized account id (patch_found p) db refl
      (λ a c e. patch-answers limit p a id c db e w)
serve-answers defaults limits limit now (remove account id) db w m = cc
serve-answers defaults limits limit now (put_scorer account id type) db w m =
    with_community-answers account_does_not_exist account id (scorer_found defaults type) db refl
      (λ a c e. scorer-answers defaults limit type a id c db e w)
