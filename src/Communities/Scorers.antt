-- ===== src/Communities/Scorers.antt =====
-- The handlers of a community's scorer (api/account/api.py), and the list of communities.
use passport_scorer.Common.{
  leb, ◌==◌, if◌then◌else◌, get_or, filter, find, null, ℤ, Text, codes, text_eq, Dict, ok_or, ◌>>=◌,
  Result, err, ok, ℕ, Option, none, some, List, [], ◌∷◌,
}
use passport_scorer.V1.{ScorerType, weighted, weighted_binary}
use passport_scorer.Communities.{
  Reply, with_community, Community, Scorer, Defaults, Db, Failure, live_of, is_found,
  save_community, save_new_scorer, get_scorer, delete_scorer, unauthorized, not_found,
  no_scorer_type, account_does_not_exist, related_object_does_not_exist,
}

-- `payload.scorer_type`, if it is one of the types
unfoldable pub scorer_type_of : Text → Option ScorerType
scorer_type_of t =
    if text_eq t (codes "WEIGHTED")
    then some weighted
    else if text_eq t (codes "WEIGHTED_BINARY")
    then some weighted_binary
    else none

-- The weights that a new scorer takes over, if there are any.
abbrev pub weights_or : Option (Dict ℤ) → Option (Dict ℤ) → Option (Dict ℤ)
weights_or none default = default
weights_or (some weights) default = if null weights then default else some weights

-- `oldScorer.delete()`, unless the community could not be saved.
unfoldable pub delete_after : ℕ → Reply → Reply
unfolding delete_scorer
delete_after id (err e, db) = (err e, db)
delete_after id (ok done, db) = (ok done, delete_scorer id db)

-- The scorer that takes the place of `old`.
unfoldable pub new_scorer : Defaults → ScorerType → Scorer → Db → Scorer
new_scorer defaults type old db = record {
  id = db.next_scorer;
  type = type;
  child = type;
  threshold = defaults.threshold;
  weights = weights_or old.weights defaults.weights;
}

-- The new scorer is saved, then the community with it, and the old scorer is deleted.
unfoldable pub replace_scorer : Defaults → ScorerType → Community → Scorer → Db → Reply
unfolding new_scorer save_new_scorer save_community delete_after
replace_scorer defaults type c old db =
    elim (save_new_scorer (new_scorer defaults type old db) db) [
      | err e ↦ (err e, db)
      | ok saved ↦ delete_after old.id (save_community (record c { scorer = db.next_scorer }) saved)
    ]

abbrev pub scorer_found : Defaults → Text → ℕ → Community → Db → Reply
scorer_found defaults type account c db = elim (find (λ s. s.id == c.scorer) db.scorers) [
  | none ↦ (err related_object_does_not_exist, db)
  | some old ↦ elim (scorer_type_of type) [
    | none ↦ (err no_scorer_type, db)
    | some t ↦ replace_scorer defaults t c old db
  ]
]

-- `update_community_scorers`, which catches no error of a user without an account
unfoldable pub update_community_scorers : Defaults → Option ℕ → ℕ → Text → Db → Reply
unfolding with_community scorer_type_of replace_scorer
update_community_scorers defaults account id type =
    with_community account_does_not_exist account id (scorer_found defaults type)

-- `get_community_scorers`: the type of the scorer
unfoldable pub get_community_scorers : Option ℕ → ℕ → Db → Result Failure ScorerType
get_community_scorers none id db = err account_does_not_exist
get_community_scorers (some account) id db = do
  c ← ok_or (find (is_found account id) db.communities) not_found
  s ← ok_or (find (λ s. s.id == c.scorer) db.scorers) related_object_does_not_exist
  ok s.type

-- `CommunityApiSchema`
pub record CommunityItem : Type 0 where
  pub name : Text
  pub description : Text
  pub id : ℕ
  pub created_at : ℕ
  pub use_case : Text
  pub threshold : ℤ

unfoldable pub items : List Scorer → List Community → Result Failure (List CommunityItem)
unfolding get_scorer
items scorers [] = ok []
items scorers (c ∷ cs) = do
  s ← get_scorer c.scorer scorers
  rest ← items scorers cs
  ok (
      record {
        name = c.name;
        description = c.description;
        id = c.id;
        created_at = c.created_at;
        use_case = get_or c.use_case [];
        threshold = s.threshold;
      }
      ∷ rest)

-- `order_by("id")`
insert_by_id : Community → List Community → List Community
insert_by_id c [] = c ∷ []
insert_by_id c (q ∷ qs) = if leb c.id q.id then c ∷ q ∷ qs else q ∷ insert_by_id c qs

unfoldable pub order_by_id : List Community → List Community
unfolding insert_by_id
order_by_id [] = []
order_by_id (c ∷ cs) = insert_by_id c (order_by_id cs)

-- `get_communities`
unfoldable pub get_communities : Option ℕ → Db → Result Failure (List CommunityItem)
unfolding items order_by_id
get_communities none db = err unauthorized
get_communities (some account) db =
    items db.scorers (order_by_id (filter (live_of account) db.communities))
