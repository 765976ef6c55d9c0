-- ===== src/Communities.antt =====
-- Communities, which an account's user creates and changes (api/account/api.py, and
-- `create_generic_scorer` of api/registry/api/v1.py), and their scorers (api/account/models.py,
-- api/scorer_weighted/models.py). Each handler gives its answer and the tables afterwards.
mod Tables
pub mod Scorers
pub mod Rows
pub mod WellFormed
pub mod Creation
pub mod Handlers
pub mod Changes
pub mod Calls
pub mod Kept
pub mod Clear
pub mod Answers
pub mod Checks
mod Tests
unfoldable pub use Tables.*
use passport_scorer.Common.{
  leb, ◌==◌, if◌then◌else◌, get_or, length, filter, any, find, ℤ, Text, codes, text_eq, truthy,
  ◌>>=◌, ◌>>◌, raise_if, Result, err, ok, ℕ, Bool, not, ◌&&◌, Option, none, some, List, [],
}
use passport_scorer.V1.{ScorerType, weighted, weighted_binary}

abbrev pub Reply : Type 0
Reply = Result Failure (Unit {0}) × Db

-- Whether `name` is that of another live community of the account.
abbrev pub is_taken : ℕ → ℕ → Text → List Community → Bool
is_taken account id name = any (λ q. named account name q && not (q.id == id))

-- What `create_community_for_account` checks before it writes.
unfoldable pub create_checks :
    ℕ → ℕ → Text → Option Text → List Community → Result Failure (Unit {0})
create_checks limit account name external rows = do
  raise_if (leb limit (length (filter (live_of account) rows))) too_many_communities
  raise_if (any (named account name) rows) community_exists
  raise_if (length name == 0) no_name
  raise_if
      (truthy (get_or external []) && any (λ c. live_of account c && same_external external c) rows)
      community_exists_external_id

-- The scorer of a new community; its defaults are those of the two classes.
unfoldable pub scorer_for : Defaults → ℕ → Text → Option ℤ → Scorer
scorer_for defaults id scorer threshold =
    let type = if text_eq scorer (codes "WEIGHTED_BINARY") then weighted_binary else weighted in
    record {
      id = id;
      type = type;
      child = type;
      threshold = get_or threshold defaults.threshold;
      weights = defaults.weights;
    }

-- `CommunitiesPayload`
pub record CommunitiesPayload : Type 0 where
  pub name : Text
  pub description : Text
  pub use_case : Text
  pub rule : Text
  pub scorer : Text
  pub threshold : Option ℤ

-- The row of a new community.
abbrev pub new_community : ℕ → ℕ → CommunitiesPayload → Option Text → Db → Community
new_community now account p external db = record {
  id = db.next_community;
  account = account;
  name = p.name;
  description = p.description;
  use_case = some p.use_case;
  rule = p.rule;
  scorer = db.next_scorer;
  external_scorer_id = external;
  created_at = now;
  deleted_at = none;
}

-- `create_community_for_account`
unfoldable pub create_community_for_account :
    Defaults → ℕ → ℕ → ℕ → CommunitiesPayload → Option Text → Db → Reply
unfolding create_checks scorer_for save_new_scorer create_row
create_community_for_account defaults limit now account p external db =
    elim (create_checks limit account p.name external db.communities) [
      | err e ↦ (err e, db)
      | ok checked ↦
          elim (save_new_scorer (scorer_for defaults db.next_scorer p.scorer p.threshold) db) [
            | err e ↦ (err e, db)
            | ok saved ↦ create_row (new_community now account p external db) saved
          ]
    ]

-- `create_community`; `limit` is USER_COMMUNITY_CREATION_LIMIT, and a user may have no account.
unfoldable pub create_community :
    Defaults → ℕ → ℕ → Option ℕ → Option CommunitiesPayload → Db → Reply
unfolding create_community_for_account
create_community defaults limit now none payload db = (err unauthorized, db)
create_community defaults limit now (some account) none db = (err no_body, db)
create_community defaults limit now (some account) (some p) db =
    if length p.description == 0
    then (err no_description, db)
    else create_community_for_account defaults limit now account p none db

-- What `create_generic_scorer` gives in place of a payload.
abbrev pub generic_payload : Text → Text → CommunitiesPayload
generic_payload name description = record {
  name = name;
  description = description;
  use_case = codes "Sybil Protection";
  rule = codes "LIFO";
  scorer = codes "WEIGHTED";
  threshold = none;
}

-- `create_generic_scorer`; `limit` is GENERIC_COMMUNITY_CREATION_LIMIT, and `may_create` the flag
-- `create_scorers` of the API key.
unfoldable pub create_generic_scorer :
    Defaults → ℕ → ℕ → ℕ → Bool → Text → Text → Option Text → Db → Reply
unfolding create_community_for_account
create_generic_scorer defaults limit now account may_create name description external db =
    if may_create
    then create_community_for_account defaults limit now account (generic_payload name description)
        external db
    else (err invalid_api_key_permissions, db)

-- A handler of one community: `get_object_or_404` of a live community of the user's account. The
-- error of a user without an account depends on what the handler catches.
unfoldable pub with_community : Failure → Option ℕ → ℕ → (ℕ → Community → Db → Reply) → Db → Reply
with_community refused none id handle db = (err refused, db)
with_community refused (some account) id handle db =
    elim (find (is_found account id) db.communities) [
      | none ↦ (err not_found, db)
      | some c ↦ handle account c db
    ]

-- `CommunitiesUpdatePayload`
pub record UpdatePayload : Type 0 where
  pub name : Text
  pub description : Text
  pub use_case : Text

-- `update_community`
abbrev pub put_found : UpdatePayload → ℕ → Community → Db → Reply
put_found p account c db =
    if is_taken account c.id p.name db.communities
    then (err community_exists, db)
    else save_community
        (record c { name = p.name; description = p.description; use_case = some p.use_case }) db

unfoldable pub update_community : Option ℕ → ℕ → UpdatePayload → Db → Reply
unfolding with_community save_community
update_community account id p = with_community unauthorized account id (put_found p)

-- `CommunitiesPatchPayload`
pub record PatchPayload : Type 0 where
  pub name : Option Text
  pub description : Option Text
  pub threshold : Option ℤ

-- A text that is given and not empty, or the old one.
abbrev pub given_or : Option Text → Text → Text
given_or given old = if truthy (get_or given []) then get_or given [] else old

-- The threshold of a patch, saved before the community is.
unfoldable pub patch_threshold : Option ℤ → Community → Db → Result Failure Db
unfolding get_scorer save_threshold
patch_threshold none c db = ok db
patch_threshold (some t) c db = do s ← get_scorer c.scorer db.scorers; save_threshold s.id t db

-- A community with what a patch gives.
abbrev pub patched : PatchPayload → Community → Community
patched p c = record c {
  name = given_or p.name c.name;
  description = given_or p.description c.description;
}

abbrev pub patch_found : PatchPayload → ℕ → Community → Db → Reply
patch_found p account c db =
    if truthy (get_or p.name []) && is_taken account c.id (get_or p.name []) db.communities
    then (err community_exists, db)
    else elim (patch_threshold p.threshold c db) [
      | err e ↦ (err e, db)
      | ok db' ↦ save_community (patched p c) db'
    ]

-- `patch_community`
unfoldable pub patch_community : Option ℕ → ℕ → PatchPayload → Db → Reply
unfolding with_community save_community patch_threshold
patch_community account id p = with_community unauthorized account id (patch_found p)

abbrev pub delete_found : ℕ → ℕ → Community → Db → Reply
delete_found now account c db = save_community (record c { deleted_at = some now }) db

-- `delete_community`
unfoldable pub delete_community : ℕ → Option ℕ → ℕ → Db → Reply
unfolding with_community save_community
delete_community now account id = with_community unauthorized account id (delete_found now)
