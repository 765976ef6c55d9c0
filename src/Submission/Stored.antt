-- ===== src/Submission/Stored.antt =====
-- The stamps that `ascore_passport` stores (api/registry/atasks.py).
use passport_scorer.Common.{
  ◌==◌, if◌then◌else◌, Bool-cases, filter, All, Text, Dict, Result-cases, Result, err, ok, ℕ, ◌≡◌,
  refl, ap, ◌∙◌, ◌⊎◌, inl, inr, Bool, true, not, Option, some, List, [], ◌∷◌, ◌++◌, map, append-nil,
  arith,
}
use passport_scorer.Passport.{PassportStamp, Credential}
use passport_scorer.Cache.{Store, StampDoc}
use passport_scorer.Dedup.{Links, alifo}
use passport_scorer.Dedup.Kept.{KeptAll, alifo-KeptAll}
use passport_scorer.Submission.{
  Score, Problem, Community, Passport, Settings, World, Stamps, Rule, lifo, other_rule, error,
  clear_on_error, is_valid, acalculate_score, aload_passport_data, avalidate_credentials,
  aprocess_deduplication, aupdate_passport, award_points, earns_points, settle, score_stored,
  store_and_score, ascore_passport,
}

-- The stamps of a passport, and those of the others.
unfoldable pub own_stamps : ℕ → Stamps → List PassportStamp
own_stamps passport [] = []
own_stamps passport ((p, s) ∷ table) =
    if p == passport then s ∷ own_stamps passport table else own_stamps passport table

unfoldable pub others_stamps : ℕ → Stamps → Stamps
others_stamps passport = filter (λ s. not (s.0 == passport))

own_stamps-delete :
    (p : ℕ) (table : Stamps) (more : Stamps)
    → own_stamps p (filter (λ s. not (s.0 == p)) table ++ more) ≡ own_stamps p more
unfolding own_stamps
own_stamps-delete p [] more = refl
own_stamps-delete p ((q, s) ∷ table) more = ground (arith, own_stamps-delete p table more)

own_stamps-new :
    (p : ℕ) (stamps : List PassportStamp) → own_stamps p (map (λ s. (p, s)) stamps) ≡ stamps
unfolding own_stamps
own_stamps-new p [] = refl
own_stamps-new p (s ∷ stamps) = ground (arith, own_stamps-new p stamps)

aupdate_passport-own :
    (p : ℕ) (stamps : List PassportStamp) (table : Stamps)
    → own_stamps p (aupdate_passport p stamps table) ≡ stamps
unfolding aupdate_passport
aupdate_passport-own p stamps table =
    own_stamps-delete p table (map (λ s. (p, s)) stamps) ∙ own_stamps-new p stamps

others_stamps-delete :
    (p : ℕ) (table : Stamps) (more : Stamps)
    → others_stamps p (filter (λ s. not (s.0 == p)) table ++ more)
      ≡ others_stamps p table ++ others_stamps p more
unfolding others_stamps
others_stamps-delete p [] more = refl
others_stamps-delete p ((q, s) ∷ table) more = ground (arith, others_stamps-delete p table more)

others_stamps-new :
    (p : ℕ) (stamps : List PassportStamp) → others_stamps p (map (λ s. (p, s)) stamps) ≡ []
unfolding others_stamps
others_stamps-new p [] = refl
others_stamps-new p (s ∷ stamps) = ground (arith, others_stamps-new p stamps)

aupdate_passport-others :
    (p : ℕ) (stamps : List PassportStamp) (table : Stamps)
    → others_stamps p (aupdate_passport p stamps table) ≡ others_stamps p table
unfolding aupdate_passport
aupdate_passport-others p stamps table =
    others_stamps-delete p table (map (λ s. (p, s)) stamps)
    ∙ (ap (λ x. others_stamps p table ++ x) (others_stamps-new p stamps)
        ∙ append-nil (others_stamps p table))

pub award_points-stamps :
    (settings : Settings) (address : Text) (community : ℕ) (stamps : List PassportStamp) (w : World)
    → (award_points settings address community stamps w).1.stamps ≡ w.stamps
unfolding award_points
award_points-stamps settings address community stamps w = ground arith

settle-world : (s : Score) (r : Result Problem (Unit {0}) × World) → (settle s r).1 ≡ r.1
unfolding settle
settle-world s (ok _, w) = refl
settle-world s (err e, w) = refl

score_stored-stamps :
    (settings : Settings) (now : ℕ) (community : Community) (passport : Passport) (address : Text)
    (stamps : List PassportStamp) (clashing : Dict PassportStamp) (s : Score) (w : World)
    → (score_stored settings now community passport address stamps clashing s w).1.stamps ≡ w.stamps
unfolding score_stored
score_stored-stamps settings now community passport address stamps clashing s w =
    elim (Result-cases
      (acalculate_score settings.is_deleted now passport community w.stamps s (some clashing))) [
        | inl (e, h) ↦
            rw (h, score_stored) (ap (λ (x : World). x.stamps) (settle-world s (err e, w)))
        | inr (scored, h) ↦ elim (Bool-cases (earns_points settings now community scored)) [
          | inl b ↦
              rw (h, score_stored, b, settle-world)
                (award_points-stamps settings address community.pk stamps w)
          | inr b ↦
              rw (h, score_stored, b)
                (ap (λ (x : World). x.stamps) (settle-world scored (ok tt, w)))
        ]
      ]

store_and_score-others :
    (settings : Settings) (now : ℕ) (community : Community) (passport : Passport) (address : Text)
    (s : Score) (w : World) (r : Result Problem (List PassportStamp × Dict PassportStamp) × Links)
    → others_stamps passport.id
        (store_and_score settings now community passport address s w r).1.stamps
      ≡ others_stamps passport.id w.stamps
unfolding store_and_score
store_and_score-others settings now community passport address s w (err e, links) =
    ap (λ (x : World). others_stamps passport.id x.stamps)
      (settle-world s (err e, record w { links = links }))
store_and_score-others settings now community passport address s w (ok (kept, clashing), links) =
    rw
      (score_stored-stamps settings now community passport address kept clashing s
        (record w { links = links; stamps = aupdate_passport passport.id kept w.stamps }))
      (aupdate_passport-others passport.id kept w.stamps)

-- A submission never touches the stored stamps of the other passports, however it ends.
pub ascore_passport-others :
    (verify_credential : Credential → Option (List Text)) (credential_of : StampDoc → Credential)
    (settings : Settings) (now : ℕ) (clock : ℕ → ℕ) (cache : Store) (community : Community)
    (passport : Passport) (address : Text) (s : Score) (w : World)
    → others_stamps passport.id
        (ascore_passport verify_credential credential_of settings now clock cache community passport
          address s w).1.stamps
      ≡ others_stamps passport.id w.stamps
unfolding ascore_passport
ascore_passport-others verify_credential credential_of settings now clock cache community passport
      address s w =
    store_and_score-others settings now community passport address s w (
      aprocess_deduplication settings.multi_nullifier clock passport.address community
        (avalidate_credentials verify_credential settings.trusted_iam_issuers now passport.address
          (aload_passport_data credential_of address cache))
        w.links)

filter-All :
    (p : PassportStamp → Bool) (xs : List PassportStamp) → All (λ s. p s ≡ true) (filter p xs)
filter-All p [] = tt
filter-All p (x ∷ xs) = ground (arith, filter-All p xs)

module _ (P : PassportStamp → Type 0) where
  abbrev Kept : Result Problem (List PassportStamp × Dict PassportStamp) × Links → Type 0
  Kept (ok (kept, clashing), links) = All P kept
  Kept (err e, links) = Unit

  aprocess_deduplication-Kept :
      (multi : Bool) (clock : ℕ → ℕ) (address : Text) (community : Community)
      (stamps : List PassportStamp) (links : Links)
      → All P stamps
      → Kept (aprocess_deduplication multi clock address community stamps links)
  unfolding aprocess_deduplication
  aprocess_deduplication-Kept multi clock address community stamps links h =
      go community.rule refl (alifo multi clock community.pk address (some stamps) links) refl
        (alifo-KeptAll P multi community.pk address clock stamps links h)
    where
      go :
          (rule : Rule)
          → community.rule ≡ rule
          → (r : _) → alifo multi clock community.pk address (some stamps) links ≡ r
          → KeptAll P r
          → Kept (aprocess_deduplication multi clock address community stamps links)
      go other_rule p r q k = rw (p, aprocess_deduplication) tt
      go lifo p (ok (kept, clashing), links') q k = rw (p, aprocess_deduplication, q) k
      go lifo p (err e, links') q k = rw (p, aprocess_deduplication, q) tt

  -- The stored stamps are those kept, or the tables of stamps and scores say that it failed.
  store_and_score-own :
      (settings : Settings) (now : ℕ) (community : Community) (passport : Passport) (address : Text)
      (s : Score) (w : World) (r : Result Problem (List PassportStamp × Dict PassportStamp) × Links)
      → Kept r
      → All P (
          own_stamps passport.id
            (store_and_score settings now community passport address s w r).1.stamps)
        ⊎ ((store_and_score settings now community passport address s w r).1.stamps ≡ w.stamps)
          × ((store_and_score settings now community passport address s w r).0.status ≡ some error)
  unfolding store_and_score
  store_and_score-own settings now community passport address s w (err e, links) k =
      inr (unfold settle clear_on_error in (refl, refl))
  store_and_score-own settings now community passport address s w (ok (kept, clashing), links) k =
      inl (
        rw
          (
            score_stored-stamps settings now community passport address kept clashing s
                (record w { links = links; stamps = aupdate_passport passport.id kept w.stamps }),
            aupdate_passport-own passport.id kept w.stamps,
          )
          k)

-- Afterwards every stored stamp of the passport has an unexpired credential of a trusted issuer that
-- passed the validation for the passport's address; or the stamps are as they were, and the score
-- is in error.
pub ascore_passport-own :
    (verify_credential : Credential → Option (List Text)) (credential_of : StampDoc → Credential)
    (settings : Settings) (now : ℕ) (clock : ℕ → ℕ) (cache : Store) (community : Community)
    (passport : Passport) (address : Text) (s : Score) (w : World)
    → All
        (λ t. is_valid verify_credential settings.trusted_iam_issuers now passport.address t ≡ true)
        (own_stamps passport.id
          (ascore_passport verify_credential credential_of settings now clock cache community
            passport address s w).1.stamps)
      ⊎ ((ascore_passport verify_credential credential_of settings now clock cache community
            passport address s w).1.stamps
          ≡ w.stamps)
        × ((ascore_passport verify_credential credential_of settings now clock cache community
              passport address s w).0.status
            ≡ some error)
unfolding ascore_passport avalidate_credentials
ascore_passport-own verify_credential credential_of settings now clock cache community passport
      address s w =
    let loaded = aload_passport_data credential_of address cache in
    let valid = is_valid verify_credential settings.trusted_iam_issuers now passport.address in
    store_and_score-own (λ t. valid t ≡ true) settings now community passport address s w
      (aprocess_deduplication settings.multi_nullifier clock passport.address community
        (filter valid loaded) w.links)
      (aprocess_deduplication-Kept (λ t. valid t ≡ true) settings.multi_nullifier clock
        passport.address community (filter valid loaded) w.links (filter-All valid loaded))
