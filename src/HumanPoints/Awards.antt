-- ===== src/HumanPoints/Awards.antt =====
-- The awards that are given once (`acheck_and_award_scoring_bonus`, `acheck_and_award_misc_points`
-- in api/registry/human_points_utils.py).
use passport_scorer.Common.{
  ltb, leb, ◌==◌, if◌then◌else◌, Bool-cases, length, filter, Text, codes, text_eq, text_eq_refl,
  lower, lower-lower, ok, ℕ, ◌+◌, ◌≤◌, ◌≡◌, refl, sym, ap, ◌∙◌, inl, inr, Bool, true, false, ◌&&◌,
  List, [], ◌∷◌, ◌++◌, arith,
}
use passport_scorer.HumanPoints.{
  Points, Qualified, Action, AddressLists, has_action, new_points, action_code, scoring_bonus,
  metamask_og_2, seasoned_passport_og, the_chosen_one, get_or_create, award_if, on_list, mta_count,
  acheck_and_award_scoring_bonus, acheck_and_award_misc_points,
}

-- How many rows an address has for an action.
abbrev pub times : Text → Action → List Points → ℕ
times address action table = length (filter (has_action address action) table)

length-filter-snoc :
    (q : Points → Bool) (table : List Points) (p : Points)
    → length (filter q (table ++ p ∷ [])) ≡ (if q p then 1 else 0) + length (filter q table)
length-filter-snoc q [] p = ground arith
length-filter-snoc q (x ∷ table) p = ground (arith, length-filter-snoc q table p)

new_points-has_action :
    (address : Text) (action : Action)
    → has_action address action (new_points address action [] []) ≡ true
new_points-has_action address action =
    ground (arith, text_eq_refl (lower address), text_eq_refl (action_code action))

-- The table after `get_or_create`, if it succeeds.
abbrev awarded : Text → Action → List Points → List Points
awarded address action table =
    if times address action table == 0 then table ++ new_points address action [] [] ∷ [] else table

awarded-others :
    (q : Points → Bool) (address : Text) (action : Action) (table : List Points)
    → q (new_points address action [] []) ≡ false
    → length (filter q (awarded address action table)) ≡ length (filter q table)
awarded-others q address action table h =
    ground (arith, length-filter-snoc q table (new_points address action [] []))

awarded-length :
    (q : Points → Bool) (address : Text) (action : Action) (table : List Points)
    → length (filter q (awarded address action table)) ≤ 1 + length (filter q table)
awarded-length q address action table =
    ground (arith, length-filter-snoc q table (new_points address action [] []))

awarded-times :
    (address : Text) (action : Action) (table : List Points)
    → times address action table ≤ 1
    → times address action (awarded address action table) ≡ 1
awarded-times address action table h = ground (
  arith,
  length-filter-snoc (has_action address action) table (new_points address action [] []),
  new_points-has_action address action,
)

get_or_create_lem :
    (address : Text) (action : Action) (table : List Points)
    → times address action table ≤ 1
    → get_or_create address action table
      ≡ ok (times address action table == 0, awarded address action table)
unfolding get_or_create
get_or_create_lem address action table h = elim (Bool-cases (times address action table == 0)) [
  | inl e ↦ rw e refl
  | inr e ↦ let f : (times address action table == 1) ≡ true = ground arith in rw (e, f) refl
]

-- An address with fewer than four qualifying rows gets nothing; one with four or more has exactly
-- one bonus afterwards, whether the bonus is new or not, if it had at most one before.
pub acheck_and_award_scoring_bonus_lem :
    (address : Text) (qualified : List Qualified) (table : List Points)
    → times address scoring_bonus table ≤ 1
    → (r : Bool × List Points) × (acheck_and_award_scoring_bonus address qualified table ≡ ok r)
      × (r.0 ≡ (
          leb 4 (length (filter (λ q. text_eq q.address (lower address)) qualified))
          && times address scoring_bonus table == 0))
      × (times address scoring_bonus r.1 ≡ (
          if leb 4 (length (filter (λ q. text_eq q.address (lower address)) qualified))
          then 1
          else times address scoring_bonus table))
unfolding acheck_and_award_scoring_bonus
acheck_and_award_scoring_bonus_lem address qualified table h =
    elim (Bool-cases (leb 4 (length (filter (λ q. text_eq q.address (lower address)) qualified)))) [
      | inr e ↦ ((false, table), rw e refl, rw e refl, rw e refl)
      | inl e ↦ (
        (times address scoring_bonus table == 0, awarded address scoring_bonus table),
        rw e (get_or_create_lem address scoring_bonus table h),
        rw e refl,
        rw e (awarded-times address scoring_bonus table h),
      )
    ]

times-lower :
    (address : Text) (action : Action) (table : List Points)
    → times (lower address) action table ≡ times address action table
times-lower address action table =
    ap
      (λ a.
        length (filter (λ p. text_eq p.address a && text_eq p.action (action_code action)) table))
      (lower-lower address)

-- The table after an award, if it succeeds.
abbrev awarded_if : Bool → Text → Action → List Points → List Points
awarded_if b address action table = if b then awarded (lower address) action table else table

award_if_lem :
    (b : Bool) (address : Text) (action : Action) (table : List Points)
    → times address action table ≤ 1
    → award_if b address action table ≡ ok (awarded_if b address action table)
award_if_lem false address action table h = refl
award_if_lem true address action table h =
    rw (get_or_create_lem (lower address) action table (rw (times-lower address action table) h))
      refl

awarded_if-others :
    (q : Points → Bool) (b : Bool) (address : Text) (action : Action) (table : List Points)
    → q (new_points (lower address) action [] []) ≡ false
    → length (filter q (awarded_if b address action table)) ≡ length (filter q table)
awarded_if-others q false address action table h = refl
awarded_if-others q true address action table h = awarded-others q (lower address) action table h

awarded_if-times :
    (b : Bool) (address : Text) (action : Action) (table : List Points)
    → times address action table ≤ 1
    → times address action (awarded_if b address action table)
      ≡ (if b then 1 else times address action table)
awarded_if-times false address action table h = refl
awarded_if-times true address action table h =
    sym (times-lower address action (awarded (lower address) action table))
    ∙ awarded-times (lower address) action table (rw (times-lower address action table) h)

-- No row for one action counts for another.
other_times :
    (b : Bool) (address : Text) (x y : Action) (table : List Points)
    → text_eq (action_code y) (action_code x) ≡ false
    → times address x (awarded_if b address y table) ≡ times address x table
other_times b address x y table h =
    awarded_if-others (has_action address x) b address y table (ground arith)

-- The condition of the first award.
abbrev pub takes_og : Bool → AddressLists → Text → List Points → Bool
takes_og enabled lists address table =
    enabled && on_list (codes "MetaMaskOG2") address lists && ltb (mta_count table) 5000

is_og_row : Points → Bool
is_og_row p = text_eq p.action (action_code metamask_og_2)

-- The first award goes no further than 5000 rows.
award_og-le :
    (enabled : Bool) (lists : AddressLists) (address : Text) (table : List Points)
    → mta_count (awarded_if (takes_og enabled lists address table) address metamask_og_2 table)
      ≤ (if leb 5000 (mta_count table) then mta_count table else 5000)
unfolding is_og_row
award_og-le enabled lists address table = elim (Bool-cases (takes_og enabled lists address table)) [
  | inr e ↦ rw e (ground arith)
  | inl e ↦
      let more = awarded-length is_og_row (lower address) metamask_og_2 table in
      rw e (ground (arith, more))
]

-- For an address with at most one row of each of the three actions, the call succeeds. An address
-- on the list of an action has exactly one row of it afterwards, and one that is not on it as many
-- as before; for the MetaMask action this needs the program to be switched on and fewer than 5000
-- rows of it. The rows of the MetaMask action never grow beyond 5000.
pub acheck_and_award_misc_points_lem :
    (enabled : Bool) (lists : AddressLists) (address : Text) (table : List Points)
    → times address metamask_og_2 table ≤ 1
    → times address seasoned_passport_og table ≤ 1
    → times address the_chosen_one table ≤ 1
    → (table' : List Points) × (acheck_and_award_misc_points enabled lists address table
        ≡ ok table')
      × (times address metamask_og_2 table'
          ≡ (if takes_og enabled lists address table then 1 else times address metamask_og_2 table))
      × (times address seasoned_passport_og table' ≡ (
          if on_list (codes "SeasonedPassportOGs") address lists
          then 1
          else times address seasoned_passport_og table))
      × (times address the_chosen_one table' ≡ (
          if on_list (codes "TheChosenOnes") address lists
          then 1
          else times address the_chosen_one table))
      × (mta_count table' ≤ (if leb 5000 (mta_count table) then mta_count table else 5000))
unfolding acheck_and_award_misc_points text_eq action_code is_og_row
acheck_and_award_misc_points_lem enabled lists address table h1 h2 h3 =
    let b1 = takes_og enabled lists address table in
    let b2 = on_list (codes "SeasonedPassportOGs") address lists in
    let b3 = on_list (codes "TheChosenOnes") address lists in
    let t1 = awarded_if b1 address metamask_og_2 table in
    let t2 = awarded_if b2 address seasoned_passport_og t1 in
    let t3 = awarded_if b3 address the_chosen_one t2 in
    let run1 = award_if_lem b1 address metamask_og_2 table h1 in
    let same2 = other_times b1 address seasoned_passport_og metamask_og_2 table refl in
    let run2 = award_if_lem b2 address seasoned_passport_og t1 (rw same2 h2) in
    let same3 =
      other_times b2 address the_chosen_one seasoned_passport_og t1 refl
      ∙ other_times b1 address the_chosen_one metamask_og_2 table refl in
    let run3 = award_if_lem b3 address the_chosen_one t2 (rw same3 h3) in
    (
      t3,
      rw (run1, run2) run3,
      other_times b3 address metamask_og_2 the_chosen_one t2 refl
          ∙ (other_times b2 address metamask_og_2 seasoned_passport_og t1 refl
              ∙ awarded_if-times b1 address metamask_og_2 table h1),
      other_times b3 address seasoned_passport_og the_chosen_one t2 refl
          ∙ (awarded_if-times b2 address seasoned_passport_og t1 (rw same2 h2) ∙ rw same2 refl),
      awarded_if-times b3 address the_chosen_one t2 (rw same3 h3) ∙ rw same3 refl,
      rw
          (
            awarded_if-others is_og_row b3 address the_chosen_one t2 refl,
            awarded_if-others is_og_row b2 address seasoned_passport_og t1 refl,
          )
          (award_og-le enabled lists address table),
    )
