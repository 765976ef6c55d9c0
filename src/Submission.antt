-- ===== src/Submission.antt =====
-- The submission of a passport (api/registry/atasks.py): the stamps are read, validated,
-- deduplicated, stored and scored, and the score's row is settled.
mod Credentials
mod Scores
pub mod Settled
pub mod Stored
pub mod Listed
pub mod Example
mod Tests
unfoldable pub use Credentials.*
unfoldable pub use Scores.*
use passport_scorer.Common.{
  leb, ◌==◌, if◌then◌else◌, filter, leb_ℤ, ℤ, one, Text, Dict, ◌>>=◌, ◌>>◌, Result, err, ok, ℕ,
  Bool, false, not, ◌&&◌, Option, none, some, List, ◌++◌, map,
}
use passport_scorer.Passport.{PassportStamp, Credential}
use passport_scorer.Cache.{Store, StampDoc, Row}
use passport_scorer.Reader.{aget_passport}
use passport_scorer.Dedup.{Links, alifo}
use passport_scorer.HumanPoints.{
  Points, Qualified, AddressLists, arecord_passing_score, arecord_stamp_actions,
  acheck_and_award_scoring_bonus, acheck_and_award_misc_points,
}
use passport_scorer.HumanPoints

-- `aprocess_deduplication`
unfoldable pub aprocess_deduplication :
    Bool
    → (ℕ → ℕ)
    → Text
    → Community
    → List PassportStamp
    → Links
    → Result Problem (List PassportStamp × Dict PassportStamp) × Links
unfolding alifo
aprocess_deduplication multi clock address community stamps links = elim community.rule [
  | other_rule ↦ (err invalid_rule, links)
  | lifo ↦
      let (r, links') = alifo multi clock community.pk address (some stamps) links in
      (elim r [ ok d ↦ ok d | err e ↦ err (dedup_failure e) ], links')
]

-- `Stamp.objects.filter(passport=passport).adelete()`
abbrev delete_stamps : ℕ → Stamps → Stamps
delete_stamps passport = filter (λ s. not (s.0 == passport))

-- `aupdate_passport`
unfoldable pub aupdate_passport : ℕ → List PassportStamp → Stamps → Stamps
aupdate_passport passport stamps table =
    delete_stamps passport table ++ map (λ s. (passport, s)) stamps

-- The settings and the lists of addresses that the submission reads.
pub record Settings : Type 0 where
  pub multi_nullifier : Bool
  pub trusted_iam_issuers : List Text
  pub human_points_write_enabled : Bool
  pub human_points_start_timestamp : ℕ
  pub human_points_mta_enabled : Bool
  pub address_lists : AddressLists
  -- whether the row of a community is gone when it is read a second time
  pub is_deleted : ℕ → Bool

-- The tables that a submission writes.
pub record World : Type 0 where
  pub stamps : Stamps
  pub links : Links
  pub qualified : List Qualified
  pub points : List Points

-- The Human Points part of `ascore_passport`; what was written before a failure stays.
unfoldable pub award_points :
    Settings → Text → ℕ → List PassportStamp → World → Result Problem (Unit {0}) × World
unfolding arecord_passing_score arecord_stamp_actions acheck_and_award_scoring_bonus
    acheck_and_award_misc_points
award_points settings address community stamps w =
    let qualified = arecord_passing_score address community w.qualified in
    let recorded = arecord_stamp_actions address stamps w.points in
    let awards = do
      (_, table) ← acheck_and_award_scoring_bonus address qualified recorded
      acheck_and_award_misc_points settings.human_points_mta_enabled settings.address_lists address
          table
    in elim awards [
      | err (HumanPoints.multiple_objects_returned table) ↦
          (err points_failure, record w { qualified = qualified; points = table })
      | ok table ↦ (ok tt, record w { qualified = qualified; points = table })
    ]

abbrev pub is_one : Option ℤ → Bool
is_one none = false
is_one (some z) = leb_ℤ z one && leb_ℤ one z

-- The condition of the Human Points part.
unfoldable pub earns_points : Settings → ℕ → Community → Score → Bool
earns_points settings now community score =
    settings.human_points_write_enabled
    && community.human_points_program
    && is_one score.score
    && leb settings.human_points_start_timestamp now

-- What the handlers of the exceptions leave of a score.
unfoldable pub settle : Score → Result Problem (Unit {0}) × World → Score × World
unfolding clear_on_error
settle score (ok _, w) = (score, w)
settle score (err e, w) = (clear_on_error e score, w)

-- From the score on, with the stamps already stored.
unfoldable pub score_stored :
    Settings
    → ℕ
    → Community
    → Passport
    → Text
    → List PassportStamp
    → Dict PassportStamp
    → Score
    → World
    → Score × World
unfolding acalculate_score award_points earns_points settle
score_stored settings now community passport address stamps clashing score w =
    elim (acalculate_score settings.is_deleted now passport community w.stamps score
      (some clashing)) [
        | err e ↦ settle score (err e, w)
        | ok scored ↦ settle scored (
            if earns_points settings now community scored
            then award_points settings address community.pk stamps w
            else (ok tt, w))
      ]

-- The stamps that the deduplication keeps are stored and scored.
unfoldable pub store_and_score :
    Settings
    → ℕ
    → Community
    → Passport
    → Text
    → Score
    → World
    → Result Problem (List PassportStamp × Dict PassportStamp) × Links
    → Score × World
unfolding aupdate_passport score_stored settle
store_and_score settings now community passport address score w (err e, links) =
    settle score (err e, record w { links = links })
store_and_score settings now community passport address score w (ok (stamps, clashing), links) =
    score_stored settings now community passport address stamps clashing score
      (record w { links = links; stamps = aupdate_passport passport.id stamps w.stamps })

-- The stamp of a row of the cache; `credential_of` is the view of its JSON as a credential.
abbrev passport_stamp : (StampDoc → Credential) → Row → PassportStamp
passport_stamp credential_of r = record {
  provider = r.provider;
  credential = credential_of r.stamp;
}

-- `aload_passport_data`, whose dictionary is never empty
unfoldable pub aload_passport_data : (StampDoc → Credential) → Text → Store → List PassportStamp
unfolding aget_passport
aload_passport_data credential_of address cache =
    map (passport_stamp credential_of) (aget_passport address cache)

-- `ascore_passport`: the score as it is left, and the tables. The time is `now` throughout, but
-- `clock` in the attempts of the deduplication.
unfoldable pub ascore_passport :
    (Credential → Option (List Text))
    → (StampDoc → Credential)
    → Settings
    → ℕ
    → (ℕ → ℕ)
    → Store
    → Community
    → Passport
    → Text
    → Score
    → World
    → Score × World
unfolding aload_passport_data avalidate_credentials aprocess_deduplication store_and_score
ascore_passport verify_credential credential_of settings now clock cache community passport address
      score w =
    let loaded = aload_passport_data credential_of address cache in
    let valid =
      avalidate_credentials verify_credential settings.trusted_iam_issuers now passport.address
        loaded in
    store_and_score settings now community passport address score w (
      aprocess_deduplication settings.multi_nullifier clock passport.address community valid
        w.links)
