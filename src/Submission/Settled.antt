-- ===== src/Submission/Settled.antt =====
-- How `ascore_passport` leaves the score (api/registry/atasks.py).
use passport_scorer.Common.{
  if◌then◌else◌, is_some, Text, Dict, Result-cases, Result, err, ok, ℕ, ◌≡◌, refl, inl, inr, Bool,
  true, false, not, ◌&&◌, ◌||◌, Option, none, some, List, arith,
}
use passport_scorer.Passport.{PassportStamp, Credential}
use passport_scorer.Cache.{Store, StampDoc}
use passport_scorer.Submission.{
  Score, Problem, Community, Passport, Settings, World, done, error, clear_on_error,
  acalculate_score, aload_passport_data, avalidate_credentials, aprocess_deduplication,
  aupdate_passport, award_points, earns_points, settle, score_stored, store_and_score,
  ascore_passport, Stamps,
}
use passport_scorer.Dedup.{Links}

-- Either a finished score with all its parts and no error, or an error with all of them cleared.
unfoldable pub is_settled : Score → Bool
is_settled s = elim s.error [
  | none ↦
      elim s.status [ some done ↦ true | _ ↦ false ]
      && is_some s.score
      && is_some s.last_score_timestamp
      && is_some s.evidence
      && is_some s.stamp_scores
      && is_some s.stamps
  | some e ↦
      elim s.status [ some error ↦ true | _ ↦ false ]
      && not (
          is_some s.score
          || is_some s.last_score_timestamp
          || is_some s.evidence
          || is_some s.stamp_scores
          || is_some s.stamps
          || is_some s.expiration_date)
]

clear_on_error-is_settled : (e : Problem) (s : Score) → is_settled (clear_on_error e s) ≡ true
unfolding is_settled clear_on_error
clear_on_error-is_settled e s = refl

settle-is_settled :
    (s : Score) (r : Result Problem (Unit {0}) × World)
    → is_settled s ≡ true
    → is_settled (settle s r).0 ≡ true
unfolding settle
settle-is_settled s (ok _, w) h = h
settle-is_settled s (err e, w) h = clear_on_error-is_settled e s

acalculate_score-is_settled :
    (is_deleted : ℕ → Bool) (now : ℕ) (passport : Passport) (community : Community)
    (stamps : Stamps) (s : Score) (clashing : Option (Dict PassportStamp)) {scored : Score}
    → acalculate_score is_deleted now passport community stamps s clashing ≡ ok scored
    → is_settled scored ≡ true
unfolding acalculate_score is_settled
acalculate_score-is_settled is_deleted now passport community stamps s clashing {scored} h =
    ground arith

score_stored-is_settled :
    (settings : Settings) (now : ℕ) (community : Community) (passport : Passport) (address : Text)
    (stamps : List PassportStamp) (clashing : Dict PassportStamp) (s : Score) (w : World)
    → is_settled (score_stored settings now community passport address stamps clashing s w).0 ≡ true
unfolding score_stored settle is_settled clear_on_error
score_stored-is_settled settings now community passport address stamps clashing s w =
    let r =
      acalculate_score settings.is_deleted now passport community w.stamps s (some clashing) in
    elim (Result-cases r) [
      | inl (e, h) ↦ rw (h, score_stored) refl
      | inr (scored, h) ↦
          rw (h, score_stored)
            (settle-is_settled scored
              (if earns_points settings now community scored
                then award_points settings address community.pk stamps w
                else (ok tt, w))
              (acalculate_score-is_settled settings.is_deleted now passport community w.stamps s
                (some clashing) h))
    ]

store_and_score-is_settled :
    (settings : Settings) (now : ℕ) (community : Community) (passport : Passport) (address : Text)
    (s : Score) (w : World) (r : Result Problem (List PassportStamp × Dict PassportStamp) × Links)
    → is_settled (store_and_score settings now community passport address s w r).0 ≡ true
unfolding store_and_score
store_and_score-is_settled settings now community passport address s w (err e, links) =
    unfold settle in clear_on_error-is_settled e s
store_and_score-is_settled settings now community passport address s w
      (ok (kept, clashing), links) =
    score_stored-is_settled settings now community passport address kept clashing s
      (record w { links = links; stamps = aupdate_passport passport.id kept w.stamps })

-- Whatever the stamps, the tables and the results of the calls, a submission leaves the score
-- either done, with no error and with its value, time, evidence and stamps, or in error, with all
-- of these and the expiration date cleared.
pub ascore_passport-is_settled :
    (verify_credential : Credential → Option (List Text)) (credential_of : StampDoc → Credential)
    (settings : Settings) (now : ℕ) (clock : ℕ → ℕ) (cache : Store) (community : Community)
    (passport : Passport) (address : Text) (s : Score) (w : World)
    → is_settled
        (ascore_passport verify_credential credential_of settings now clock cache community passport
          address s w).0
      ≡ true
unfolding ascore_passport
ascore_passport-is_settled verify_credential credential_of settings now clock cache community
      passport address s w =
    store_and_score-is_settled settings now community passport address s w (
      aprocess_deduplication settings.multi_nullifier clock passport.address community
        (avalidate_credentials verify_credential settings.trusted_iam_issuers now passport.address
          (aload_passport_data credential_of address cache))
        w.links)
