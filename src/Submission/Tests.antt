-- ===== src/Submission/Tests.antt =====
-- Submissions on small tables, and the theorems at them.
use passport_scorer.Common.{
  length, All, codes, text_eq, Dict, has_key, one, add_decimal, err, ok, ◌≡◌, refl, ◌⊎◌, true,
  false, none, some, [], ◌∷◌,
}
use passport_scorer.Passport.{PassportStamp}
use passport_scorer.Submission.{
  World, ascore_passport, is_valid, Score, acalculate_score, error, community_missing,
  scorer_missing, attribute_error,
}
use passport_scorer.Submission.Example.{
  cache, credential_of, accepts, settings, community, passport, fresh, other_stamp, world,
}
use passport_scorer.Submission.Settled.{is_settled, ascore_passport-is_settled}
use passport_scorer.Submission.Stored.{
  own_stamps, others_stamps, ascore_passport-others, ascore_passport-own,
}
use passport_scorer.Submission.Listed.{shows_dedup, listed, acalculate_score-shows_dedup}

abbrev after : Score × World
after =
    ascore_passport accepts credential_of settings 50 (λ _. 50) cache community passport
      (codes "0xB") fresh world

-- The stamp is stored in place of the old one, the score passes, and the community is recorded.
passes : after.0.score ≡ some (one)
unfolding ascore_passport text_eq add_decimal
passes = refl

records_community : length after.1.qualified ≡ 1
unfolding ascore_passport text_eq add_decimal
records_community = refl

stores_stamp : length (own_stamps 3 after.1.stamps) ≡ 1
unfolding ascore_passport text_eq own_stamps add_decimal
stores_stamp = refl

ascore_passport-is_settled_example : is_settled after.0 ≡ true
ascore_passport-is_settled_example =
    ascore_passport-is_settled accepts credential_of settings 50 (λ _. 50) cache community passport
      (codes "0xB") fresh world

ascore_passport-others_example : others_stamps 3 after.1.stamps ≡ others_stamps 3 world.stamps
ascore_passport-others_example =
    ascore_passport-others accepts credential_of settings 50 (λ _. 50) cache community passport
      (codes "0xB") fresh world

ascore_passport-own_example :
    All
      (λ t. is_valid accepts settings.trusted_iam_issuers 50 (codes "0xb") t ≡ true)
      (own_stamps 3 after.1.stamps)
    ⊎ (after.1.stamps ≡ world.stamps) × (after.0.status ≡ some error)
ascore_passport-own_example =
    ascore_passport-own accepts credential_of settings 50 (λ _. 50) cache community passport
      (codes "0xB") fresh world

acalculate_score-shows_dedup_example :
    let clashing : Dict PassportStamp = (codes "Github", other_stamp) ∷ [] in
    ((scored : Score) × (acalculate_score settings.is_deleted 50 passport community world.stamps
          fresh
          (some clashing)
        ≡ ok scored)
      × (shows_dedup (codes "Github") (listed scored) ≡ has_key (codes "Github") clashing))
    × (acalculate_score settings.is_deleted 50 passport community world.stamps fresh none
        ≡ err attribute_error)
    × (acalculate_score (λ _. true) 50 passport community world.stamps fresh (some clashing)
        ≡ err community_missing)
    × (acalculate_score settings.is_deleted 50 passport
          (record community { has_scorer = false })
          world.stamps
          fresh
          (some clashing)
        ≡ err scorer_missing)
acalculate_score-shows_dedup_example =
    acalculate_score-shows_dedup settings.is_deleted 50 passport community world.stamps fresh
      ((codes "Github", other_stamp) ∷ []) (codes "Github") refl refl
