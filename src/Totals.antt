-- ===== src/Totals.antt =====
-- The Human Points that are shown for an address (`get_user_points_data` and
-- `get_possible_points_data` in api/registry/human_points_utils.py).
pub mod Groups
pub mod Sums
mod Tests
use passport_scorer.Common.{
  ◌==◌, if◌then◌else◌, filter, any, find, ◌+ℤ◌, ℤ, pos, Text, text_eq, lower, str, Dict, lookup,
  insert, ℕ, Bool, false, not, ◌&&◌, none, some, List, [], ◌∷◌, ◌++◌, map,
}
use passport_scorer.HumanPoints.{Points, Qualified, human_id_mint, action_code}

-- A row of `HumanPointsConfig`.
pub record Config : Type 0 where
  pub action : Text
  pub points : ℤ
  pub active : Bool

-- A row of `HumanPointsMultiplier`.
pub record Multiplier : Type 0 where
  pub address : Text
  pub multiplier : ℤ

-- The dictionary that both functions return.
pub record PointsData : Type 0 where
  pub total_points : ℤ
  pub is_eligible : Bool
  pub multiplier : ℤ
  pub breakdown : Dict ℤ

-- A row of the query's answer.
pub record Group : Type 0 where
  pub action : Text
  pub chain_id : ℕ
  pub action_points : ℤ
  pub multiplier : ℤ

-- The `WHERE` of the query.
abbrev pub is_counted : Text → Points → Bool
is_counted address r =
    text_eq r.address address && not (text_eq r.action (action_code human_id_mint))

-- `hp.action = hpc.action AND hpc.active = true`
abbrev pub is_config_of : Text → Config → Bool
is_config_of action c = text_eq action c.action && c.active

-- The points of the configurations that the inner join finds for an action.
abbrev pub config_points : Text → List Config → List ℤ
config_points action configs = map (λ (c : Config). c.points) (filter (is_config_of action) configs)

-- The left join: the address is the key of the multipliers.
unfoldable pub multiplier_of : Text → List Multiplier → ℤ
multiplier_of address multipliers = elim (find (λ m. text_eq address m.address) multipliers) [
  | none ↦ pos 1
  | some m ↦ m.multiplier
]

abbrev pub same_group : Text → ℕ → Group → Bool
same_group action chain_id g = text_eq g.action action && g.chain_id == chain_id

-- A joined row is put into the group of its action and chain.
unfoldable pub add_to_groups : ℤ → Text → ℕ → ℤ → List Group → List Group
add_to_groups multiplier action chain_id points [] =
    record { action = action; chain_id = chain_id; action_points = points; multiplier = multiplier }
    ∷ []
add_to_groups multiplier action chain_id points (g ∷ gs) =
    let rest = add_to_groups multiplier action chain_id points gs in
    if same_group action chain_id g
    then record g { action_points = g.action_points +ℤ points } ∷ gs
    else g ∷ rest

unfoldable pub add_all : ℤ → Text → ℕ → List ℤ → List Group → List Group
unfolding add_to_groups
add_all multiplier action chain_id [] groups = groups
add_all multiplier action chain_id (points ∷ more) groups =
    add_all multiplier action chain_id more (add_to_groups multiplier action chain_id points groups)

-- `GROUP BY`, over the rows that are counted
unfoldable pub group_by : ℤ → List Config → List Points → List Group → List Group
unfolding add_all
group_by multiplier configs [] groups = groups
group_by multiplier configs (r ∷ rows) groups =
    group_by multiplier configs rows
      (add_all multiplier r.action r.chain_id (config_points r.action configs) groups)

-- The rows of the query; SQL leaves their order open, and here it is that of the first rows.
unfoldable pub query_rows : Text → List Config → List Multiplier → List Points → List Group
unfolding group_by multiplier_of
query_rows address configs multipliers table =
    group_by (multiplier_of address multipliers) configs (filter (is_counted address) table) []

-- One round of `for row in rows`.
unfoldable pub add_breakdown : Dict ℤ → Group → Dict ℤ
add_breakdown breakdown g =
    let with_chain : Dict ℤ =
      if g.chain_id == 0
      then breakdown
      else insert (g.action ++ b'_' ∷ str g.chain_id) g.action_points breakdown in
    insert g.action
      (elim (lookup g.action with_chain) [
        | none ↦ g.action_points
        | some points ↦ points +ℤ g.action_points
      ])
      with_chain

unfoldable pub add_rows : List Group → ℤ × Dict ℤ → ℤ × Dict ℤ
unfolding add_breakdown
add_rows [] s = s
add_rows (g ∷ gs) (total, breakdown) =
    add_rows gs (total +ℤ g.action_points, add_breakdown breakdown g)

unfoldable pub get_user_points_data :
    Text → List Config → List Multiplier → List Qualified → List Points → PointsData
unfolding query_rows add_rows
get_user_points_data address configs multipliers qualified table =
    let rows = query_rows address configs multipliers table in
    let (total, breakdown) = add_rows rows (pos 0, []) in
    record {
      total_points = total;
      is_eligible = any (λ q. text_eq q.address (lower address)) qualified;
      multiplier = elim rows [ [] ↦ pos 1 | g ∷ gs ↦ g.multiplier ];
      breakdown = breakdown;
    }

-- `{c.action: c.points for c in HumanPointsConfig.objects.all() if c.active}`
unfoldable pub possible_breakdown : List Config → Dict ℤ → Dict ℤ
possible_breakdown [] d = d
possible_breakdown (c ∷ configs) d =
    possible_breakdown configs (if c.active then insert c.action c.points d else d)

unfoldable pub get_possible_points_data : List Config → ℤ → PointsData
unfolding possible_breakdown
get_possible_points_data configs multiplier = record {
  total_points = pos 0;
  is_eligible = false;
  multiplier = multiplier;
  breakdown = possible_breakdown configs [];
}
