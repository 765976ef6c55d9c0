-- ===== src/V2/Outcomes.antt =====
-- What a submission leaves in the score's row (`ascore_passport` in api/registry/atasks.py).
use passport_scorer.Common.{
  if◌then◌else◌, ℤ, Text, Dict, Result-cases, Result, err, ok, ℕ, ◌≡◌, refl, sym, subst, inl, inr,
  Bool, true, false, Option, none, some, List, map, arith,
}
use passport_scorer.Passport.{PassportStamp, Credential}
use passport_scorer.Cache.{Store, StampDoc}
use passport_scorer.Dedup.{Links}
use passport_scorer.Scoring.{stamps_of, ScoreData}
use passport_scorer.Scoring.Threshold.{passport_weight, Judges, first_verdict}
use passport_scorer.Submission.Stored.{award_points-stamps}
use passport_scorer.Submission.{
  Score, Problem, Community, Passport, Settings, World, Stamps, scored_stamp, clear_on_error,
  acalculate_score, award_points, earns_points, settle, score_stored, store_and_score,
  ascore_passport, aupdate_passport, aload_passport_data, avalidate_credentials,
  aprocess_deduplication,
}

-- The weight of the stamps that are stored for a passport, each provider once.
abbrev pub stored_weight : Community → ℕ → Stamps → ℤ
stored_weight c p table =
    passport_weight c.weights c.customization (stamps_of p (map scored_stamp table))

-- A cleared row with an error, or the verdict on the stored stamps with its evidence.
pub data Outcome (c : Community) (p : ℕ) (s : Score) (w : World) : Type 0 where
  failed :
      (e : Problem)
      → s.error ≡ some e
      → s.evidence ≡ none
      → s.score ≡ none
      → s.stamps ≡ none
      → Outcome c p s w
  judged :
      (d : ScoreData)
      → Judges c.threshold (stored_weight c p w.stamps) d
      → s.error ≡ none
      → s.evidence ≡ some d.evidence
      → s.score ≡ some d.score
      → Outcome c p s w

clear_on_error-Outcome :
    (c : Community) (p : ℕ) (e : Problem) (s : Score) (w : World)
    → Outcome c p (clear_on_error e s) w
unfolding clear_on_error
clear_on_error-Outcome c p e s w = failed e refl refl refl refl

settle-Outcome :
    (c : Community) (p : ℕ) (s : Score) (r : Result Problem (Unit {0}) × World)
    → Outcome c p s r.1
    → Outcome c p (settle s r).0 (settle s r).1
unfolding settle
settle-Outcome c p s (ok _, w) h = h
settle-Outcome c p s (err e, w) h = clear_on_error-Outcome c p e s w

acalculate_score-Outcome :
    (is_deleted : ℕ → Bool) (now : ℕ) (c : Community) (p : Passport) (s : Score)
    (clashing : Option (Dict PassportStamp)) {scored : Score} (w : World)
    → acalculate_score is_deleted now p c w.stamps s clashing ≡ ok scored
    → Outcome c p.id scored w
unfolding acalculate_score
acalculate_score-Outcome is_deleted now c p s clashing {scored} w h =
    let (d, first, judges) =
      first_verdict c.threshold c.weights c.customization (map scored_stamp w.stamps) p.id in
    let no_error : scored.error ≡ none = ground (arith, first) in
    let evidence : scored.evidence ≡ some d.evidence = ground (arith, first) in
    let score : scored.score ≡ some d.score = ground (arith, first) in
    judged d judges no_error evidence score

Outcome-stamps :
    (c : Community) (p : ℕ) (s : Score) (w w' : World)
    → w'.stamps ≡ w.stamps
    → Outcome c p s w
    → Outcome c p s w'
Outcome-stamps c p s w w' same (failed e a b d f) = failed e a b d f
Outcome-stamps c p s w w' same (judged d judges a b f) =
    judged d (subst (λ k. Judges c.threshold (stored_weight c p k) d) (sym same) judges) a b f

awarded-Outcome :
    (b : Bool) (settings : Settings) (c : Community) (p : ℕ) (address : Text)
    (stamps : List PassportStamp) (s : Score) (w : World)
    → Outcome c p s w
    → Outcome c p s (if b then award_points settings address c.pk stamps w else (ok tt, w)).1
awarded-Outcome true settings c p address stamps s w h =
    Outcome-stamps c p s w (award_points settings address c.pk stamps w).1
      (award_points-stamps settings address c.pk stamps w) h
awarded-Outcome false settings c p address stamps s w h = h

score_stored-Outcome :
    (settings : Settings) (now : ℕ) (c : Community) (p : Passport) (address : Text)
    (stamps : List PassportStamp) (clashing : Dict PassportStamp) (s : Score) (w : World)
    → Outcome c p.id
        (score_stored settings now c p address stamps clashing s w).0
        (score_stored settings now c p address stamps clashing s w).1
unfolding score_stored settle
score_stored-Outcome settings now c p address stamps clashing s w =
    elim (Result-cases (acalculate_score settings.is_deleted now p c w.stamps s (some clashing))) [
      | inl (e, h) ↦ rw (h, score_stored) (clear_on_error-Outcome c p.id e s w)
      | inr (scored, h) ↦
          rw (h, score_stored)
            (settle-Outcome c p.id scored
              (if earns_points settings now c scored
                then award_points settings address c.pk stamps w
                else (ok tt, w))
              (awarded-Outcome (earns_points settings now c scored) settings c p.id address stamps
                scored w
                (acalculate_score-Outcome settings.is_deleted now c p s (some clashing) w h)))
    ]

store_and_score-Outcome :
    (settings : Settings) (now : ℕ) (c : Community) (p : Passport) (address : Text) (s : Score)
    (w : World) (r : Result Problem (List PassportStamp × Dict PassportStamp) × Links)
    → Outcome c p.id
        (store_and_score settings now c p address s w r).0
        (store_and_score settings now c p address s w r).1
unfolding store_and_score settle
store_and_score-Outcome settings now c p address s w (err e, links) =
    clear_on_error-Outcome c p.id e s (record w { links = links })
store_and_score-Outcome settings now c p address s w (ok (kept, clashing), links) =
    score_stored-Outcome settings now c p address kept clashing s
      (record w { links = links; stamps = aupdate_passport p.id kept w.stamps })

pub ascore_passport-Outcome :
    (verify_credential : Credential → Option (List Text)) (credential_of : StampDoc → Credential)
    (settings : Settings) (now : ℕ) (clock : ℕ → ℕ) (cache : Store) (c : Community) (p : Passport)
    (address : Text) (s : Score) (w : World)
    → Outcome c p.id
        (ascore_passport verify_credential credential_of settings now clock cache c p address s w).0
        (ascore_passport verify_credential credential_of settings now clock cache c p address s w).1
unfolding ascore_passport
ascore_passport-Outcome verify_credential credential_of settings now clock cache c p address s w =
    store_and_score-Outcome settings now c p address s w (
      aprocess_deduplication settings.multi_nullifier clock p.address c
        (avalidate_credentials verify_credential settings.trusted_iam_issuers now p.address
          (aload_passport_data credential_of address cache))
        w.links)
