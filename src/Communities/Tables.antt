-- ===== src/Communities/Tables.antt =====
-- The tables of communities and scorers (api/account/models.py, api/scorer_weighted/models.py), and
-- what the database does when a row is created, saved or deleted.
use passport_scorer.Common.{
  ltb, leb, ◌==◌, if◌then◌else◌, is_some, get_or, length, filter, any, find, ℤ, pos, negsuc, Text,
  text_eq, Dict, Result, err, ok, ℕ, suc, ◌+◌, Bool, true, false, not, ◌&&◌, ◌||◌, Option, none,
  some, List, [], ◌∷◌, ◌++◌,
}
use passport_scorer.V1.{ScorerType, weighted, weighted_binary}

-- A row of `Community`, without the flag of the Human Points Program; `scorer` is a scorer's id.
pub record Community : Type 0 where
  pub id : ℕ
  pub account : ℕ
  pub name : Text
  pub description : Text
  pub use_case : Option Text
  pub rule : Text
  pub scorer : ℕ
  pub external_scorer_id : Option Text
  pub created_at : ℕ
  pub deleted_at : Option ℕ

-- A row of `Scorer` with its row in the table of one of the two classes, which `child` names.
pub record Scorer : Type 0 where
  pub id : ℕ
  pub type : ScorerType
  pub child : ScorerType
  pub threshold : ℤ
  pub weights : Option (Dict ℤ)

-- What `get_default_threshold` and `get_default_weights` give.
pub record Defaults : Type 0 where
  pub threshold : ℤ
  pub weights : Option (Dict ℤ)

pub record Db : Type 0 where
  pub communities : List Community
  pub scorers : List Scorer
  pub next_community : ℕ
  pub next_scorer : ℕ

-- The exceptions of the handlers. The last four are no answers of the API but errors of the server:
-- of a constraint, of a column that is too short, and of objects that a row does not have.
pub data Failure : Type 0 where
  unauthorized : Failure
  not_found : Failure
  too_many_communities : Failure
  community_exists : Failure
  community_exists_external_id : Failure
  no_name : Failure
  no_description : Failure
  no_body : Failure
  no_scorer_type : Failure
  invalid_api_key_permissions : Failure
  integrity_error : Failure
  data_error : Failure
  account_does_not_exist : Failure
  related_object_does_not_exist : Failure

abbrev pub same_scorer_type : ScorerType → ScorerType → Bool
same_scorer_type weighted weighted = true
same_scorer_type weighted weighted_binary = false
same_scorer_type weighted_binary weighted = false
same_scorer_type weighted_binary weighted_binary = true

-- `filter(account=account, deleted_at=None)`
abbrev pub live_of : ℕ → Community → Bool
live_of account c = c.account == account && not (is_some c.deleted_at)

abbrev pub named : ℕ → Text → Community → Bool
named account name c = live_of account c && text_eq c.name name

-- `filter(id=id, account=account, deleted_at=None)`
abbrev pub is_found : ℕ → ℕ → Community → Bool
is_found account id c = c.id == id && live_of account c

-- Whether two columns that may be null are equal; null is equal to nothing.
abbrev pub same_external : Option Text → Community → Bool
same_external none c = false
same_external (some e) c = elim c.external_scorer_id [ none ↦ false | some f ↦ text_eq e f ]

-- Both rows are live, or both were deleted at one time.
abbrev pub same_deletion : Option ℕ → Option ℕ → Bool
same_deletion none none = true
same_deletion none (some u) = false
same_deletion (some t) none = false
same_deletion (some t) (some u) = t == u

-- The two constraints on an account's names.
unfoldable pub clashes : Community → Community → Bool
clashes c q =
    c.account == q.account && text_eq c.name q.name && same_deletion c.deleted_at q.deleted_at

-- The columns are as long as their texts at least.
abbrev pub fits : Community → Bool
fits c =
    leb (length c.name) 100
    && leb (length c.description) 100
    && leb (length (get_or c.use_case [])) 100
    && leb (length c.rule) 100
    && leb (length (get_or c.external_scorer_id [])) 42

-- Ten digits, of which five are decimal places.
abbrev pub fits_threshold : ℤ → Bool
fits_threshold (pos n) = ltb n 10000000000
fits_threshold (negsuc n) = ltb (n + 1) 10000000000

-- `Community.objects.create(...)`
unfoldable pub create_row : Community → Db → Result Failure (Unit {0}) × Db
unfolding clashes
create_row c db =
    if not (fits c)
    then (err data_error, db)
    else if any (λ q. clashes c q || same_external c.external_scorer_id q) db.communities
    then (err integrity_error, db)
    else (
      ok tt,
      record db { communities = db.communities ++ c ∷ []; next_community = suc db.next_community },
    )

-- The row with the id of `c` becomes `c`.
unfoldable pub write_row : Community → List Community → List Community
write_row c [] = []
write_row c (q ∷ qs) = (if q.id == c.id then c else q) ∷ write_row c qs

-- `community.save()`, whose external id has not changed
unfoldable pub save_community : Community → Db → Result Failure (Unit {0}) × Db
unfolding clashes write_row
save_community c db =
    if not (fits c)
    then (err data_error, db)
    else if any (λ q. not (q.id == c.id) && clashes c q) db.communities
    then (err integrity_error, db)
    else (ok tt, record db { communities = write_row c db.communities })

-- `scorer_obj.save()` of a scorer that is new
unfoldable pub save_new_scorer : Scorer → Db → Result Failure Db
save_new_scorer s db =
    if fits_threshold s.threshold
    then ok (record db { scorers = db.scorers ++ s ∷ []; next_scorer = suc db.next_scorer })
    else err data_error

-- `get_scorer`: the row of the class that the scorer's type names
unfoldable pub get_scorer : ℕ → List Scorer → Result Failure Scorer
get_scorer id scorers = elim (find (λ s. s.id == id) scorers) [
  | none ↦ err related_object_does_not_exist
  | some s ↦ if same_scorer_type s.type s.child then ok s else err related_object_does_not_exist
]

unfoldable pub write_threshold : ℕ → ℤ → List Scorer → List Scorer
write_threshold id t [] = []
write_threshold id t (s ∷ ss) =
    (if s.id == id then record s { threshold = t } else s) ∷ write_threshold id t ss

-- `scorer.save()` with a new threshold
unfoldable pub save_threshold : ℕ → ℤ → Db → Result Failure Db
unfolding write_threshold
save_threshold id t db =
    if fits_threshold t
    then ok (record db { scorers = write_threshold id t db.scorers })
    else err data_error

-- `scorer.delete()`, which deletes the communities of the scorer too
unfoldable pub delete_scorer : ℕ → Db → Db
delete_scorer id db = record db {
  communities = filter (λ c. not (c.scorer == id)) db.communities;
  scorers = filter (λ s. not (s.id == id)) db.scorers;
}
