-- ===== src/Totals/Sums.antt =====
-- What the Human Points of an address add up to (`get_user_points_data` in
-- api/registry/human_points_utils.py).
use passport_scorer.Common.{
  ◌==◌, if◌then◌else◌, Bool-cases, get_or, all, ◌+ℤ◌, +ℤ_assoc, +ℤ_zero, zero_+ℤ, ℤ, pos, Text,
  text_eq, text_eq_iff, str, Dict, lookup, insert, lookup-insert, ◌≡◌, refl, sym, ap, ◌∙◌, inl, inr,
  Bool, true, false, not, ◌&&◌, Option, none, some, List, [], ◌∷◌, ◌++◌, arith,
}
use passport_scorer.HumanPoints.{Points, Qualified}
use passport_scorer.Totals.{
  Config, Multiplier, Group, is_counted, query_rows, add_breakdown, add_rows, get_user_points_data,
}
use passport_scorer.Totals.Groups.{
  earned, group_sum, add_rows-total, query_rows-sum, earned_congr, and_true,
}

-- No underscore, which the keys with a chain have.
abbrev pub is_plain_key : Text → Bool
is_plain_key = all (λ c. not (c == b'_'))

chain_key-differs :
    (a action s : Text) → is_plain_key a ≡ true → text_eq a (action ++ b'_' ∷ s) ≡ false
unfolding text_eq
chain_key-differs [] [] s h = refl
chain_key-differs [] (c ∷ action) s h = refl
chain_key-differs (x ∷ a) [] s h = ground arith
chain_key-differs (x ∷ a) (c ∷ action) s h = ground (arith, chain_key-differs a action s)

lookup-chain :
    (a : Text) (d : Dict ℤ) (g : Group)
    → is_plain_key a ≡ true
    → lookup a (
        if g.chain_id == 0 then d else insert (g.action ++ b'_' ∷ str g.chain_id) g.action_points d)
      ≡ lookup a d
lookup-chain a d g h = elim (Bool-cases (g.chain_id == 0)) [
  | inl e ↦ rw e refl
  | inr e ↦
      rw
        (
          e,
          lookup-insert a (g.action ++ b'_' ∷ str g.chain_id) g.action_points d,
          chain_key-differs a g.action (str g.chain_id) h,
        )
        refl
]

increased :
    (o : Option ℤ) (v : ℤ) → elim o [ none ↦ v | some points ↦ points +ℤ v ] ≡ get_or o (pos 0) +ℤ v
increased none v = sym (zero_+ℤ v)
increased (some points) v = refl

lookup-increase :
    (a k : Text) (v : ℤ) (d : Dict ℤ)
    → get_or
        (lookup a (insert k (elim (lookup k d) [ none ↦ v | some points ↦ points +ℤ v ]) d))
        (pos 0)
      ≡ get_or (lookup a d) (pos 0) +ℤ (if text_eq k a then v else pos 0)
lookup-increase a k v d =
    let sum : ℤ = elim (lookup k d) [ none ↦ v | some points ↦ points +ℤ v ] in
    let inserted = ap (λ (o : Option ℤ). get_or o (pos 0)) (lookup-insert a k sum d) in
    elim (Bool-cases (text_eq k a)) [
      | inl e ↦
          let same : k ≡ a = (text_eq_iff k a).0 e in
          let found : text_eq a k ≡ true = ground (arith, text_eq_iff a k, same) in
          inserted ∙ rw (e, found) (increased (lookup k d) v ∙ rw same refl)
      | inr e ↦
          let missed : text_eq a k ≡ false = ground (arith, text_eq_iff a k, text_eq_iff k a) in
          inserted ∙ rw (e, missed) (sym (+ℤ_zero _))
    ]

lookup-add_breakdown :
    (a : Text) (d : Dict ℤ) (g : Group)
    → is_plain_key a ≡ true
    → get_or (lookup a (add_breakdown d g)) (pos 0)
      ≡ get_or (lookup a d) (pos 0) +ℤ (if text_eq g.action a then g.action_points else pos 0)
unfolding add_breakdown
lookup-add_breakdown a d g h =
    let with_chain : Dict ℤ =
      if g.chain_id == 0 then d else insert (g.action ++ b'_' ∷ str g.chain_id) g.action_points d in
    lookup-increase a g.action g.action_points with_chain
    ∙ ap
        (λ (k : Option ℤ).
          get_or k (pos 0) +ℤ (if text_eq g.action a then g.action_points else pos 0))
        (lookup-chain a d g h)

add_rows-breakdown :
    (a : Text) (gs : List Group) (total : ℤ) (d : Dict ℤ)
    → is_plain_key a ≡ true
    → get_or (lookup a (add_rows gs (total, d)).1) (pos 0)
      ≡ get_or (lookup a d) (pos 0) +ℤ group_sum (λ action. text_eq action a) gs
unfolding add_rows
add_rows-breakdown a [] total d h = sym (+ℤ_zero _)
add_rows-breakdown a (g ∷ gs) total d h =
    add_rows-breakdown a gs (total +ℤ g.action_points) (add_breakdown d g) h
    ∙ ap (λ k. k +ℤ group_sum (λ action. text_eq action a) gs) (lookup-add_breakdown a d g h)
    ∙ +ℤ_assoc (get_or (lookup a d) (pos 0)) (if text_eq g.action a then g.action_points else pos 0)
        (group_sum (λ action. text_eq action a) gs)

-- The total is the sum of the active configured points of the rows of the address, those of the
-- action HIM left out, however the query groups them by chain; and for a key without an underscore,
-- as the codes of actions are, the breakdown has the sum over the rows of that action, whose absence
-- counts as 0.
pub get_user_points_data_lem :
    (address : Text) (configs : List Config) (multipliers : List Multiplier)
    (qualified : List Qualified) (table : List Points) (a : Text)
    → is_plain_key a ≡ true
    → ((get_user_points_data address configs multipliers qualified table).total_points
        ≡ earned (is_counted address) configs table)
      × (get_or
            (lookup a (get_user_points_data address configs multipliers qualified table).breakdown)
            (pos 0)
          ≡ earned (λ r. is_counted address r && text_eq r.action a) configs table)
unfolding get_user_points_data
get_user_points_data_lem address configs multipliers qualified table a h =
    let rows = query_rows address configs multipliers table in
    (
      add_rows-total rows (pos 0) []
          ∙ zero_+ℤ _
          ∙ query_rows-sum (λ a. true) address configs multipliers table
          ∙ earned_congr (λ r. is_counted address r && true) (is_counted address) configs table
              (λ r. and_true (is_counted address r)),
      add_rows-breakdown a rows (pos 0) [] h
          ∙ zero_+ℤ _
          ∙ query_rows-sum (λ action. text_eq action a) address configs multipliers table,
    )
