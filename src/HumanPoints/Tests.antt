-- ===== src/HumanPoints/Tests.antt =====
-- Runs of the Human Points Program.
use passport_scorer.Common.{
  leb, if◌then◌else◌, length, filter, any, Text, codes, text_eq, lower, ok, ℕ, ◌≤◌, ◌≡◌, refl, true,
  ◌||◌, none, some, List, [], ◌∷◌, arith,
}
use passport_scorer.Passport.{PassportStamp}
use passport_scorer.HumanPoints.{
  action_code, Points, new_points, arecord_stamp_actions, Qualified, AddressLists, on_list,
  mta_count, acheck_and_award_misc_points, passport_mint, metamask_og_2, seasoned_passport_og,
  the_chosen_one,
}
use passport_scorer.HumanPoints.Record.{holds_key, gives_key, arecord_stamp_actions-keeps_keys}
use passport_scorer.HumanPoints.Awards.{times, takes_og, acheck_and_award_misc_points_lem}

abbrev ada : Text
ada = codes "0xAda"

abbrev key_stamp : PassportStamp
key_stamp = record {
  provider = codes "CleanHands";
  credential = record {
    subject = record {
      id = none;
      hash = none;
      provider = some (codes "CleanHands");
      nullifiers = some (codes "v0:n" ∷ codes "v1:n" ∷ []);
    };
    expiration = 2030;
    issuer = some (codes "did:key:iam");
  };
}

-- A human key and the action of the provider are recorded, under the address in small letters.
two_rows : length (arecord_stamp_actions ada (key_stamp ∷ []) []) ≡ 2
unfolding arecord_stamp_actions text_eq
two_rows = refl

-- The stamp with a nullifier that has changed since.
abbrev rotated : PassportStamp
rotated = record key_stamp {
  credential = record key_stamp.credential {
    subject = record key_stamp.credential.subject { nullifiers = some (codes "v2:m" ∷ []) };
  };
}

arecord_stamp_actions-keeps_keys_example :
    let before = arecord_stamp_actions ada (key_stamp ∷ []) [] in
    let after = arecord_stamp_actions ada (rotated ∷ []) before in
    let holds = holds_key ada (codes "CleanHands") in
    (any holds after ≡ (any holds before || any (gives_key (codes "CleanHands")) (rotated ∷ [])))
    × (if any holds before then filter holds after ≡ filter holds before else Unit)
arecord_stamp_actions-keeps_keys_example =
    arecord_stamp_actions-keeps_keys ada (codes "CleanHands") (rotated ∷ [])
      (arecord_stamp_actions ada (key_stamp ∷ []) []) refl

abbrev qualified_in : ℕ → Qualified
qualified_in community = record { address = codes "0xada"; community = community }

abbrev four : List Qualified
four = qualified_in 1 ∷ qualified_in 2 ∷ qualified_in 3 ∷ qualified_in 4 ∷ []

abbrev mint : Points
mint = new_points ada passport_mint (codes "0x01") []

abbrev lists : AddressLists
lists = (codes "MetaMaskOG2", codes "0xada" ∷ []) ∷ (codes "TheChosenOnes", codes "0xbob" ∷ []) ∷ []

acheck_and_award_misc_points_example :
    (table' : List Points) × (acheck_and_award_misc_points true lists ada (mint ∷ []) ≡ ok table')
    × (times ada metamask_og_2 table'
        ≡ (if takes_og true lists ada (mint ∷ []) then 1 else times ada metamask_og_2 (mint ∷ [])))
    × (times ada seasoned_passport_og table' ≡ (
        if on_list (codes "SeasonedPassportOGs") ada lists
        then 1
        else times ada seasoned_passport_og (mint ∷ [])))
    × (times ada the_chosen_one table' ≡ (
        if on_list (codes "TheChosenOnes") ada lists
        then 1
        else times ada the_chosen_one (mint ∷ [])))
    × (mta_count table'
        ≤ (if leb 5000 (mta_count (mint ∷ [])) then mta_count (mint ∷ []) else 5000))
unfolding lower text_eq action_code
acheck_and_award_misc_points_example =
    acheck_and_award_misc_points_lem true lists ada (mint ∷ []) (omega arith) (omega arith)
      (omega arith)
