-- ===== src/HumanPoints.antt =====
-- The Human Points Program (api/registry/human_points_utils.py, and the tables in
-- api/registry/models.py): the actions that are recorded for an address, and what they add up to.
pub mod Record
pub mod Awards
mod Tests
use passport_scorer.Common.{
  ltb, leb, ◌==◌, if◌then◌else◌, is_some, get_or, length, filter, any, Text, codes, text_eq,
  text_in, lower, truthy, Dict, lookup, ◌>>=◌, ◌>>◌, Result, err, ok, ℕ, Bool, true, false, ◌&&◌,
  Option, none, some, List, [], ◌∷◌, ◌++◌,
}
use passport_scorer.Passport.{PassportStamp}

-- `HumanPoints.Action`
pub data Action : Type 0 where
  scoring_bonus : Action
  human_keys : Action
  identity_staking_bronze : Action
  identity_staking_silver : Action
  identity_staking_gold : Action
  community_staking_beginner : Action
  community_staking_experienced : Action
  community_staking_trusted : Action
  passport_mint : Action
  human_id_mint : Action
  human_tech_gov_id : Action
  human_tech_phone : Action
  human_tech_proof_of_clean_hands : Action
  human_tech_biometric : Action
  metamask_og : Action
  metamask_og_2 : Action
  seasoned_passport_og : Action
  the_chosen_one : Action

-- The texts that stand for the actions in the database.
unfoldable pub action_code : Action → Text
action_code scoring_bonus = codes "SCB"
action_code human_keys = codes "HKY"
action_code identity_staking_bronze = codes "ISB"
action_code identity_staking_silver = codes "ISS"
action_code identity_staking_gold = codes "ISG"
action_code community_staking_beginner = codes "CSB"
action_code community_staking_experienced = codes "CSE"
action_code community_staking_trusted = codes "CST"
action_code passport_mint = codes "PMT"
action_code human_id_mint = codes "HIM"
action_code human_tech_gov_id = codes "HGO"
action_code human_tech_phone = codes "HPH"
action_code human_tech_proof_of_clean_hands = codes "HCH"
action_code human_tech_biometric = codes "HBI"
action_code metamask_og = codes "MTA"
action_code metamask_og_2 = codes "MM2"
action_code seasoned_passport_og = codes "SOG"
action_code the_chosen_one = codes "TCO"

-- A row of `HumanPoints`; all but the time are in its unique constraint. The action is its text.
pub record Points : Type 0 where
  pub address : Text
  pub action : Text
  pub chain_id : ℕ
  pub provider : Text
  pub tx_hash : Text

abbrev pub same_points : Points → Points → Bool
same_points p q =
    text_eq p.address q.address
    && text_eq p.action q.action
    && p.chain_id == q.chain_id
    && text_eq p.provider q.provider
    && text_eq p.tx_hash q.tx_hash

-- `bulk_create(..., ignore_conflicts=True)`: rows that break the constraint are left out.
unfoldable pub insert_ignore : List Points → List Points → List Points
insert_ignore [] table = table
insert_ignore (p ∷ ps) table =
    insert_ignore ps (if any (same_points p) table then table else table ++ p ∷ [])

abbrev pub has_action : Text → Action → Points → Bool
has_action address action p =
    text_eq p.address (lower address) && text_eq p.action (action_code action)

-- `STAMP_PROVIDER_TO_ACTION`
unfoldable pub stamp_provider_to_action : Dict Action
stamp_provider_to_action =
    (codes "SelfStakingBronze", identity_staking_bronze)
    ∷ (codes "SelfStakingSilver", identity_staking_silver)
    ∷ (codes "SelfStakingGold", identity_staking_gold)
    ∷ (codes "BeginnerCommunityStaker", community_staking_beginner)
    ∷ (codes "ExperiencedCommunityStaker", community_staking_experienced)
    ∷ (codes "TrustedCitizen", community_staking_trusted)
    ∷ (codes "HolonymGovIdProvider", human_tech_gov_id)
    ∷ (codes "HolonymPhone", human_tech_phone)
    ∷ (codes "CleanHands", human_tech_proof_of_clean_hands)
    ∷ (codes "Biometrics", human_tech_biometric)
    ∷ []

-- The last nullifier that is no empty text, if there is one.
unfoldable pub latest_nullifier : List Text → Option Text
latest_nullifier [] = none
latest_nullifier (n ∷ ns) =
    let later = latest_nullifier ns in
    if is_some later then later else if truthy n then some n else none

-- `HumanPoints(address=..., action=..., tx_hash=..., provider=...)` as saved
abbrev pub new_points : Text → Action → Text → Text → Points
new_points address action tx_hash provider = record {
  address = lower address;
  action = action_code action;
  chain_id = 0;
  provider = provider;
  tx_hash = tx_hash;
}

-- The row for the stamp's human key, unless the table has one for the provider.
unfoldable pub human_key_points : Text → List Points → PassportStamp → List Points
unfolding latest_nullifier action_code lower
human_key_points address table stamp =
    let cs = stamp.credential.subject in
    let provider = get_or cs.provider [] in
    elim (latest_nullifier (get_or cs.nullifiers [])) [
      | none ↦ []
      | some nullifier ↦
          if truthy provider
          then if any (λ p. has_action address human_keys p && text_eq p.provider provider) table
            then []
            else new_points address human_keys nullifier provider ∷ []
          else []
    ]

unfoldable pub provider_points : Text → PassportStamp → List Points
unfolding stamp_provider_to_action action_code lower
provider_points address stamp = elim (lookup stamp.provider stamp_provider_to_action) [
  | none ↦ []
  | some action ↦ new_points address action [] [] ∷ []
]

-- The loop of `arecord_stamp_actions`, over the table as it was before.
unfoldable pub stamp_points : Text → List Points → List PassportStamp → List Points
unfolding human_key_points provider_points
stamp_points address table [] = []
stamp_points address table (s ∷ ss) =
    human_key_points address table s ++ (provider_points address s ++ stamp_points address table ss)

unfoldable pub arecord_stamp_actions : Text → List PassportStamp → List Points → List Points
unfolding stamp_points insert_ignore
arecord_stamp_actions address stamps table = insert_ignore (stamp_points address table stamps) table

-- A row of `HumanPointsCommunityQualifiedUsers`.
pub record Qualified : Type 0 where
  pub address : Text
  pub community : ℕ

abbrev pub qualifies : Text → ℕ → Qualified → Bool
qualifies address community q = text_eq q.address (lower address) && q.community == community

-- `arecord_passing_score`
unfoldable pub arecord_passing_score : Text → ℕ → List Qualified → List Qualified
unfolding lower
arecord_passing_score address community table =
    if any (qualifies address community) table
    then table
    else table ++ record { address = lower address; community = community } ∷ []

-- The exception of `aget_or_create`, with the table as it stands when it is raised.
pub data Failure : Type 0 where
  multiple_objects_returned : List Points → Failure

-- `aget_or_create(address=..., action=...)`: whether a row was created.
unfoldable pub get_or_create : Text → Action → List Points → Result Failure (Bool × List Points)
unfolding action_code lower
get_or_create address action table =
    let n = length (filter (has_action address action) table) in
    if n == 0
    then ok (true, table ++ new_points address action [] [] ∷ [])
    else if n == 1
    then ok (false, table)
    else err (multiple_objects_returned table)

-- `acheck_and_award_scoring_bonus`
unfoldable pub acheck_and_award_scoring_bonus :
    Text → List Qualified → List Points → Result Failure (Bool × List Points)
unfolding get_or_create
acheck_and_award_scoring_bonus address qualified table =
    if leb 4 (length (filter (λ q. text_eq q.address (lower address)) qualified))
    then get_or_create address scoring_bonus table
    else ok (false, table)

-- The address lists by name; a list that does not exist is missing.
abbrev pub AddressLists : Type 0
AddressLists = Dict (List Text)

abbrev pub on_list : Text → Text → AddressLists → Bool
on_list name address lists = elim (lookup name lists) [
  | none ↦ false
  | some l ↦ text_in (lower address) l
]

abbrev pub award : Text → Action → List Points → Result Failure (List Points)
award address action table = do (_, table') ← get_or_create (lower address) action table; ok table'

abbrev pub award_if : Bool → Text → Action → List Points → Result Failure (List Points)
award_if b address action table = if b then award address action table else ok table

abbrev pub mta_count : List Points → ℕ
mta_count table = length (filter (λ p. text_eq p.action (action_code metamask_og_2)) table)

-- `acheck_and_award_misc_points`; `mta_enabled` is HUMAN_POINTS_MTA_ENABLED.
unfoldable pub acheck_and_award_misc_points :
    Bool → AddressLists → Text → List Points → Result Failure (List Points)
unfolding get_or_create
acheck_and_award_misc_points mta_enabled lists address table = do
  table1 ←
      award_if
        (mta_enabled && on_list (codes "MetaMaskOG2") address lists && ltb (mta_count table) 5000)
        address metamask_og_2 table
  table2 ←
      award_if (on_list (codes "SeasonedPassportOGs") address lists) address seasoned_passport_og
        table1
  award_if (on_list (codes "TheChosenOnes") address lists) address the_chosen_one table2
