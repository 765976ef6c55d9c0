-- ===== src/Communities/Tests.antt =====
-- The handlers of communities (api/account/api.py, api/registry/api/v1.py) on small tables.
use passport_scorer.Common.{
  is_some, pos, Text, codes, text_eq, err, ok, ℕ, ◌≡◌, refl, Bool, true, false, none, some, List,
  [], ◌∷◌, map, arith,
}
use passport_scorer.V1.{weighted, weighted_binary}
use passport_scorer.Communities.{
  create_checks, scorer_for, CommunitiesPayload, create_community_for_account, create_community,
  create_generic_scorer, with_community, update_community, patch_threshold, patch_community,
  delete_community, Community, Scorer, Defaults, Db, clashes, create_row, write_row, save_community,
  save_new_scorer, get_scorer, write_threshold, save_threshold, delete_scorer, unauthorized,
  not_found, too_many_communities, community_exists, no_name, integrity_error,
  account_does_not_exist,
}
use passport_scorer.Communities.Scorers.{
  scorer_type_of, delete_after, new_scorer, replace_scorer, update_community_scorers,
  get_community_scorers, items, order_by_id, get_communities,
}
use passport_scorer.Communities.Rows.{conflict}
use passport_scorer.Communities.WellFormed.{WellFormed}
use passport_scorer.Communities.Calls.{
  Call, Limits, serve, serve_all, put, patch, remove, put_scorer,
}
use passport_scorer.Communities.Kept.{serve_all-WellFormed}
use passport_scorer.Communities.Checks.{serve-answers}
use passport_scorer.Communities.Answers.{is_broken}

abbrev defaults : Defaults
defaults = record { threshold = pos 2000000; weights = some ((codes "Ens", pos 50000) ∷ []) }

abbrev limits : Limits
limits = record { user = 2; generic = 3 }

abbrev payload : Text → Text → CommunitiesPayload
payload name scorer = record {
  name = name;
  description = codes "a";
  use_case = codes "b";
  rule = codes "LIFO";
  scorer = scorer;
  threshold = some (pos 1500000);
}

abbrev row : ℕ → ℕ → Text → ℕ → Community
row id account name scorer = record {
  id = id;
  account = account;
  name = name;
  description = codes "a";
  use_case = some (codes "b");
  rule = codes "LIFO";
  scorer = scorer;
  external_scorer_id = none;
  created_at = 5;
  deleted_at = none;
}

abbrev binary : ℕ → Scorer
binary id = record {
  id = id;
  type = weighted_binary;
  child = weighted_binary;
  threshold = pos 1500000;
  weights = some ((codes "Ens", pos 70000) ∷ []);
}

-- Two communities of one account and one of another.
abbrev three : Db
three = record {
  communities = row 0 1 (codes "A") 0 ∷ row 1 1 (codes "B") 1 ∷ row 2 2 (codes "A") 2 ∷ [];
  scorers = binary 0 ∷ binary 1 ∷ binary 2 ∷ [];
  next_community = 3;
  next_scorer = 3;
}

three-WellFormed : WellFormed 3 three
unfolding conflict clashes text_eq
three-WellFormed = record {
  apart = (refl, (refl, (refl, tt)));
  fresh_rows = (omega arith, (omega arith, (omega arith, tt)));
  fresh_scorers = (omega arith, (omega arith, (omega arith, tt)));
  linked = (refl, (refl, (refl, tt)));
  agree = (refl, (refl, (refl, tt)));
  limited = λ a. ground arith;
}

-- The second community gets the other kind of scorer; its name cannot be that of the first; once
-- the first is deleted, it can.
abbrev calls : List (ℕ × Call)
calls =
    (6, put_scorer (some 1) 1 (codes "WEIGHTED"))
    ∷ (
      7,
      patch (some 1) 1 (record { name = some (codes "A"); description = none; threshold = none }),
    )
    ∷ (8, remove (some 1) 0)
    ∷ (
      9,
      patch (some 1) 1
          (record { name = some (codes "A"); description = none; threshold = some (pos 7) }),
    )
    ∷ []

abbrev Served : List (ℕ × Call) → Db
Served cs = serve_all defaults limits cs three

serve_all_scorers :
    (Served calls).scorers
    ≡ binary 0
      ∷ binary 2
      ∷ record {
        id = 3;
        type = weighted;
        child = weighted;
        threshold = pos 7;
        weights = some ((codes "Ens", pos 70000) ∷ []);
      }
      ∷ []
unfolding serve_all serve update_community_scorers update_community patch_community delete_community
    with_community save_community write_row clashes patch_threshold get_scorer save_threshold
    write_threshold replace_scorer new_scorer save_new_scorer scorer_type_of delete_after
    delete_scorer text_eq
serve_all_scorers = refl

serve_all_names :
    map {B = ℕ × Text × ℕ × Bool}
      (λ c. (c.id, c.name, c.scorer, is_some c.deleted_at))
      (Served calls).communities
    ≡ (0, codes "A", 0, true) ∷ (1, codes "A", 3, false) ∷ (2, codes "A", 2, false) ∷ []
unfolding serve_all serve update_community_scorers update_community patch_community delete_community
    with_community save_community write_row clashes patch_threshold get_scorer save_threshold
    write_threshold replace_scorer new_scorer save_new_scorer scorer_type_of delete_after
    delete_scorer text_eq
serve_all_names = refl

-- A user at the limit, and one below it whose name is taken.
create_refused :
    ((create_community defaults 2 9 (some 1) (some (payload (codes "C") [])) three).0
      ≡ err too_many_communities)
    × ((create_community defaults 2 9 (some 2) (some (payload (codes "A") [])) three).0
        ≡ err community_exists)
    × ((create_community defaults 2 9 (some 2) (some (payload [] [])) three).0 ≡ err no_name)
    × ((create_community defaults 2 9 none none three).0 ≡ err unauthorized)
unfolding create_community create_community_for_account create_checks text_eq
create_refused = (refl, refl, refl, refl)

-- The generic scorer's community is created, and listed with the others of the account.
create_listed :
    get_communities
      (some 2)
      (create_generic_scorer defaults 3 9 2 true (codes "C") (codes "d") (some (codes "x")) three).1
    ≡ ok (
        record {
          name = codes "A";
          description = codes "a";
          id = 2;
          created_at = 5;
          use_case = codes "b";
          threshold = pos 1500000;
        }
        ∷ record {
          name = codes "C";
          description = codes "d";
          id = 3;
          created_at = 9;
          use_case = codes "Sybil Protection";
          threshold = pos 2000000;
        }
        ∷ [])
unfolding create_generic_scorer create_community_for_account create_checks create_row scorer_for
    save_new_scorer clashes get_communities items order_by_id get_scorer text_eq
create_listed = refl

-- An external id that another account has is refused by the database only, when the scorer is saved.
create_external :
    (create_generic_scorer defaults 3 10 1 true
      (codes "D")
      (codes "d")
      (some (codes "x"))
      (create_generic_scorer defaults 3 9 2 true
        (codes "C")
        (codes "d")
        (some (codes "x"))
        three).1).0
    ≡ err integrity_error
unfolding create_generic_scorer create_community_for_account create_checks create_row scorer_for
    save_new_scorer clashes text_eq
create_external = refl

scorers_without_account :
    (get_community_scorers none 1 three ≡ err account_does_not_exist)
    × (get_community_scorers (some 1) 1 three ≡ ok weighted_binary)
    × (get_community_scorers (some 2) 1 three ≡ err not_found)
unfolding get_community_scorers
scorers_without_account = (refl, refl, refl)

serve_all-WellFormed_example : WellFormed 3 (Served calls)
serve_all-WellFormed_example =
    serve_all-WellFormed defaults limits 3 calls three (omega arith) (omega arith) three-WellFormed

serve-answers_example :
    is_broken
      (serve defaults limits 9
        (put (some 1) 1 (record { name = codes "A"; description = codes "c"; use_case = [] }))
        three).0
    ≡ false
serve-answers_example =
    serve-answers defaults limits 3 9
      (put (some 1) 1 (record { name = codes "A"; description = codes "c"; use_case = [] })) three
      three-WellFormed refl
