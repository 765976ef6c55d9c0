-- ===== src/Totals/Tests.antt =====
-- The Human Points of an address with mints on two chains (api/registry/human_points_utils.py).
use passport_scorer.Common.{
  get_or, ◌+ℤ◌, pos, Text, codes, text_eq, lower, str, lookup, ℕ, ◌≡◌, refl, Bool, true, false,
  ◌&&◌, List, [], ◌∷◌,
}
use passport_scorer.HumanPoints.{Points, action_code}
use passport_scorer.Totals.{
  Config, Multiplier, is_counted, get_user_points_data, get_possible_points_data,
}
use passport_scorer.Totals.Groups.{earned}
use passport_scorer.Totals.Sums.{get_user_points_data_lem}

abbrev ada : Text
ada = codes "0xada"

abbrev points : Text → ℕ → Points
points action chain_id = record {
  address = ada;
  action = action;
  chain_id = chain_id;
  provider = [];
  tx_hash = [];
}

abbrev table : List Points
table =
    points (codes "PMT") 10
    ∷ points (codes "SCB") 0
    ∷ points (codes "HIM") 10
    ∷ points (codes "PMT") 42161
    ∷ []

abbrev config : Text → ℕ → Bool → Config
config action points active = record { action = action; points = pos points; active = active }

abbrev configs : List Config
configs =
    config (codes "PMT") 300 true
    ∷ config (codes "SCB") 1000 true
    ∷ config (codes "HIM") 7 true
    ∷ config (codes "TCO") 9 false
    ∷ []

abbrev doubled : Multiplier
doubled = record { address = ada; multiplier = pos 2 }

shown : get_user_points_data ada configs (doubled ∷ []) [] table ≡ record {
  total_points = pos 1600;
  is_eligible = false;
  multiplier = pos 2;
  breakdown =
      (codes "PMT_10", pos 300)
      ∷ (codes "PMT", pos 600)
      ∷ (codes "SCB", pos 1000)
      ∷ (codes "PMT_42161", pos 300)
      ∷ [];
}
unfolding get_user_points_data text_eq lower str action_code ◌+ℤ◌
shown = refl

get_user_points_data_example :
    ((get_user_points_data ada configs (doubled ∷ []) [] table).total_points
      ≡ earned (is_counted ada) configs table)
    × (get_or
          (lookup
            (codes "PMT")
            (get_user_points_data ada configs (doubled ∷ []) [] table).breakdown)
          (pos 0)
        ≡ earned (λ r. is_counted ada r && text_eq r.action (codes "PMT")) configs table)
get_user_points_data_example =
    get_user_points_data_lem ada configs (doubled ∷ []) [] table (codes "PMT") refl

possible :
    (get_possible_points_data configs (pos 2)).breakdown
    ≡ (codes "PMT", pos 300) ∷ (codes "SCB", pos 1000) ∷ (codes "HIM", pos 7) ∷ []
unfolding get_possible_points_data text_eq
possible = refl

several_digits : str 42161 ≡ codes "42161"
unfolding str
several_digits = refl
