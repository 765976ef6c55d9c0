-- ===== src/Totals/Groups.antt =====
-- The groups of the query for an address's points, and what they add up to
-- (`get_user_points_data` in api/registry/human_points_utils.py).
use passport_scorer.Common.{
  if◌then◌else◌, Bool-cases, filter, ◌+ℤ◌, +ℤ_assoc, +ℤ_comm, +ℤ_zero, zero_+ℤ, +ℤ_right_comm, ℤ,
  pos, Text, text_eq_iff, Dict, ℕ, ◌≡◌, refl, sym, ap, ◌∙◌, inl, inr, Bool, true, false, ◌&&◌, List,
  [], ◌∷◌, arith,
}
use passport_scorer.HumanPoints.{Points}
use passport_scorer.Totals.{
  Config, Multiplier, Group, is_counted, config_points, multiplier_of, same_group, add_to_groups,
  add_all, group_by, query_rows, add_breakdown, add_rows,
}

abbrev pub sum_ℤ : List ℤ → ℤ
sum_ℤ [] = pos 0
sum_ℤ (x ∷ xs) = x +ℤ sum_ℤ xs

-- The configured points of the rows that a test accepts.
abbrev pub earned : (Points → Bool) → List Config → List Points → ℤ
earned p configs [] = pos 0
earned p configs (r ∷ rows) =
    (if p r then sum_ℤ (config_points r.action configs) else pos 0) +ℤ earned p configs rows

earned-filter :
    (c p : Points → Bool) (configs : List Config) (rows : List Points)
    → earned p configs (filter c rows) ≡ earned (λ r. c r && p r) configs rows
earned-filter c p configs [] = refl
earned-filter c p configs (r ∷ rows) =
    let rest = earned-filter c p configs rows in
    elim (Bool-cases (c r)) [
      | inl e ↦
          rw e (ap (λ k. (if p r then sum_ℤ (config_points r.action configs) else pos 0) +ℤ k) rest)
      | inr e ↦ rw e (rest ∙ sym (zero_+ℤ _))
    ]

-- The points of the groups whose action a test accepts.
abbrev pub group_sum : (Text → Bool) → List Group → ℤ
group_sum q [] = pos 0
group_sum q (g ∷ gs) = (if q g.action then g.action_points else pos 0) +ℤ group_sum q gs

group_sum-more :
    (b : Bool) (x y z : ℤ)
    → (if b then x +ℤ y else pos 0) +ℤ z
      ≡ ((if b then x else pos 0) +ℤ z) +ℤ (if b then y else pos 0)
group_sum-more true x y z = +ℤ_right_comm x y z
group_sum-more false x y z = sym (+ℤ_zero (pos 0 +ℤ z))

if-plus :
    (b : Bool) (x y : ℤ)
    → (if b then x else pos 0) +ℤ (if b then y else pos 0) ≡ (if b then x +ℤ y else pos 0)
if-plus true x y = refl
if-plus false x y = +ℤ_zero (pos 0)

if-zero : (b : Bool) → (if b then pos 0 else pos 0) ≡ pos 0
if-zero true = refl
if-zero false = refl

same_group-action :
    (action : Text) (chain_id : ℕ) (g : Group)
    → same_group action chain_id g ≡ true
    → g.action ≡ action
same_group-action action chain_id g h = ground (arith, text_eq_iff g.action action)

group_sum-add_to_groups :
    (q : Text → Bool) (m : ℤ) (action : Text) (chain_id : ℕ) (points : ℤ) (gs : List Group)
    → group_sum q (add_to_groups m action chain_id points gs)
      ≡ group_sum q gs +ℤ (if q action then points else pos 0)
unfolding add_to_groups
group_sum-add_to_groups q m action chain_id points [] =
    +ℤ_comm (if q action then points else pos 0) (pos 0)
group_sum-add_to_groups q m action chain_id points (g ∷ gs) =
    let rest = group_sum-add_to_groups q m action chain_id points gs in
    elim (Bool-cases (same_group action chain_id g)) [
      | inl e ↦
          rw (e, sym (same_group-action action chain_id g e))
            (group_sum-more (q g.action) g.action_points points (group_sum q gs))
      | inr e ↦
          rw (e, rest)
            (sym (
              +ℤ_assoc (if q g.action then g.action_points else pos 0) (group_sum q gs)
                (if q action then points else pos 0)))
    ]

group_sum-add_all :
    (q : Text → Bool) (m : ℤ) (action : Text) (chain_id : ℕ) (points : List ℤ) (gs : List Group)
    → group_sum q (add_all m action chain_id points gs)
      ≡ group_sum q gs +ℤ (if q action then sum_ℤ points else pos 0)
unfolding add_all
group_sum-add_all q m action chain_id [] gs =
    rw (if-zero (q action)) (sym (+ℤ_zero (group_sum q gs)))
group_sum-add_all q m action chain_id (x ∷ points) gs =
    group_sum-add_all q m action chain_id points (add_to_groups m action chain_id x gs)
    ∙ ap (λ k. k +ℤ (if q action then sum_ℤ points else pos 0))
        (group_sum-add_to_groups q m action chain_id x gs)
    ∙ +ℤ_assoc (group_sum q gs) (if q action then x else pos 0)
        (if q action then sum_ℤ points else pos 0)
    ∙ ap (λ k. group_sum q gs +ℤ k) (if-plus (q action) x (sum_ℤ points))

group_sum-group_by :
    (q : Text → Bool) (m : ℤ) (configs : List Config) (rows : List Points) (gs : List Group)
    → group_sum q (group_by m configs rows gs)
      ≡ group_sum q gs +ℤ earned (λ r. q r.action) configs rows
unfolding group_by
group_sum-group_by q m configs [] gs = sym (+ℤ_zero (group_sum q gs))
group_sum-group_by q m configs (r ∷ rows) gs =
    group_sum-group_by q m configs rows
      (add_all m r.action r.chain_id (config_points r.action configs) gs)
    ∙ ap (λ k. k +ℤ earned (λ r. q r.action) configs rows)
        (group_sum-add_all q m r.action r.chain_id (config_points r.action configs) gs)
    ∙ +ℤ_assoc (group_sum q gs)
        (if q r.action then sum_ℤ (config_points r.action configs) else pos 0)
        (earned (λ r. q r.action) configs rows)

pub add_rows-total :
    (gs : List Group) (total : ℤ) (d : Dict ℤ)
    → (add_rows gs (total, d)).0 ≡ total +ℤ group_sum (λ a. true) gs
unfolding add_rows
add_rows-total [] total d = sym (+ℤ_zero total)
add_rows-total (g ∷ gs) total d =
    add_rows-total gs (total +ℤ g.action_points) (add_breakdown d g)
    ∙ +ℤ_assoc total g.action_points (group_sum (λ a. true) gs)

-- The grouped rows of the query, summed up by action.
pub query_rows-sum :
    (q : Text → Bool) (address : Text) (configs : List Config) (multipliers : List Multiplier)
    (table : List Points)
    → group_sum q (query_rows address configs multipliers table)
      ≡ earned (λ r. is_counted address r && q r.action) configs table
unfolding query_rows
query_rows-sum q address configs multipliers table =
    group_sum-group_by q (multiplier_of address multipliers) configs
      (filter (is_counted address) table) []
    ∙ zero_+ℤ _
    ∙ earned-filter (is_counted address) (λ r. q r.action) configs table

pub and_true : (b : Bool) → (b && true) ≡ b
and_true true = refl
and_true false = refl

pub earned_congr :
    (p q : Points → Bool) (configs : List Config) (rows : List Points)
    → ((r : Points) → p r ≡ q r)
    → earned p configs rows ≡ earned q configs rows
earned_congr p q configs [] h = refl
earned_congr p q configs (r ∷ rows) h = rw (h r, earned_congr p q configs rows h) refl
