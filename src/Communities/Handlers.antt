-- ===== src/Communities/Handlers.antt =====
-- The steps of the handlers (api/account/api.py, api/registry/api/v1.py) keep the tables well-formed.
use passport_scorer.Common.{
  leb, ◌==◌, if◌then◌else◌, ==_iff, Bool-cases, Option-cases, length, filter, find, any-append,
  find-All, ℤ, Text, codes, text_eq, Result-cases, ok, ℕ, suc, ◌≤◌, ◌<◌, ◌≡◌, refl, inl, inr, Bool,
  true, false, Option, none, some, List, [], ◌∷◌, ◌++◌, arith,
}
use passport_scorer.V1.{ScorerType, weighted, weighted_binary}
use passport_scorer.Communities.{
  Reply, create_checks, scorer_for, CommunitiesPayload, new_community, create_community_for_account,
  create_community, generic_payload, create_generic_scorer, with_community, Community, Scorer,
  Defaults, Db, Failure, same_scorer_type, live_of, is_found, fits_threshold, save_community,
  save_new_scorer,
}
use passport_scorer.Communities.Rows.{find-Free}
use passport_scorer.Communities.Creation.{
  IsNew, save_new_scorer-WellFormed, create_row-WellFormed, fresh-unused,
}
use passport_scorer.Communities.WellFormed.{
  has_scorer, WellFormed, Free-Unshared, save_community-WellFormed,
}

pub has_new : (db : Db) (s : Scorer) → has_scorer (db.scorers ++ s ∷ []) s.id ≡ true
has_new db s = ground (arith, any-append (λ q. q.id == s.id) db.scorers (s ∷ []), ==_iff s.id s.id)

checked-room :
    (limit account : ℕ) (name : Text) (external : Option Text) (rows : List Community)
    → create_checks limit account name external rows ≡ ok tt
    → length (filter (live_of account) rows) < limit
unfolding create_checks
checked-room limit account name external rows e =
    elim (Bool-cases (leb limit (length (filter (live_of account) rows)))) [
      | inl full ↦ ground arith
      | inr room ↦ ground arith
    ]

pub same_scorer_type_refl : (t : ScorerType) → same_scorer_type t t ≡ true
same_scorer_type_refl weighted = refl
same_scorer_type_refl weighted_binary = refl

scorer_for-same_type :
    (defaults : Defaults) (id : ℕ) (scorer : Text) (threshold : Option ℤ)
    → same_scorer_type
        (scorer_for defaults id scorer threshold).type
        (scorer_for defaults id scorer threshold).child
      ≡ true
unfolding scorer_for
scorer_for-same_type defaults id scorer threshold =
    same_refl (if text_eq scorer (codes "WEIGHTED_BINARY") then weighted_binary else weighted)
  where
    same_refl : (t : ScorerType) → same_scorer_type t t ≡ true
    same_refl weighted = refl
    same_refl weighted_binary = refl

-- The tables once the scorer of a new community is saved.
abbrev pub with_scorer : Scorer → Db → Db
with_scorer s db = record db { scorers = db.scorers ++ s ∷ []; next_scorer = suc db.next_scorer }

pub with_scorer-WellFormed :
    (limit : ℕ) (s : Scorer) (db : Db)
    → IsNew db s
    → fits_threshold s.threshold ≡ true
    → WellFormed limit db
    → WellFormed limit (with_scorer s db)
unfolding save_new_scorer
with_scorer-WellFormed limit s db new fit w =
    save_new_scorer-WellFormed limit db s new (rw fit refl) w

create_for_account-WellFormed :
    (defaults : Defaults) (limit own now account : ℕ) (p : CommunitiesPayload)
    (external : Option Text) (db : Db)
    → own ≤ limit
    → WellFormed limit db
    → WellFormed limit (create_community_for_account defaults own now account p external db).1
unfolding create_community_for_account
create_for_account-WellFormed defaults limit own now account p external db le w =
    elim (Result-cases (create_checks own account p.name external db.communities)) [
      | inl (f, e) ↦ rw (e, create_community_for_account) w
      | inr (checked, e) ↦
          let s = scorer_for defaults db.next_scorer p.scorer p.threshold in
          let same = scorer_for-same_type defaults db.next_scorer p.scorer p.threshold in
          elim (Bool-cases (fits_threshold s.threshold)) [
            | inr wide ↦ rw (e, create_community_for_account, save_new_scorer, wide) w
            | inl fit ↦
                rw (e, create_community_for_account, save_new_scorer, fit)
                  (create_row-WellFormed limit (new_community now account p external db)
                    (with_scorer s db) refl (unfold scorer_for in has_new db s)
                    (fresh-unused db.next_scorer db.scorers db.communities w.fresh_scorers w.linked)
                    (omega (arith, le, checked-room own account p.name external db.communities e))
                    (with_scorer-WellFormed limit s db (unfold scorer_for in refl, same) fit w))
          ]
    ]

pub create-WellFormed :
    (defaults : Defaults) (limit own now : ℕ) (account : Option ℕ) (p : Option CommunitiesPayload)
    (db : Db)
    → own ≤ limit
    → WellFormed limit db
    → WellFormed limit (create_community defaults own now account p db).1
unfolding create_community
create-WellFormed defaults limit own now none p db le w = w
create-WellFormed defaults limit own now (some account) none db le w = w
create-WellFormed defaults limit own now (some account) (some p) db le w =
    elim (Bool-cases (length p.description == 0)) [
      | inl empty ↦ rw empty w
      | inr full ↦
          rw full (create_for_account-WellFormed defaults limit own now account p none db le w)
    ]

pub create_generic-WellFormed :
    (defaults : Defaults) (limit own now account : ℕ) (may_create : Bool) (name description : Text)
    (external : Option Text) (db : Db)
    → own ≤ limit
    → WellFormed limit db
    → WellFormed limit
        (create_generic_scorer defaults own now account may_create name description external db).1
unfolding create_generic_scorer
create_generic-WellFormed defaults limit own now account true name description external db le w =
    create_for_account-WellFormed defaults limit own now account (generic_payload name description)
      external db le w
create_generic-WellFormed defaults limit own now account false name description external db le w = w

-- A handler of one community keeps what it keeps of a community that is found.
pub with_community-WellFormed :
    (limit : ℕ) (refused : Failure) (account : Option ℕ) (id : ℕ)
    (handle : ℕ → Community → Db → Reply) (db : Db)
    → ((a : ℕ) (c : Community)
        → find (is_found a id) db.communities ≡ some c
        → WellFormed limit (handle a c db).1)
    → WellFormed limit db
    → WellFormed limit (with_community refused account id handle db).1
unfolding with_community
with_community-WellFormed limit refused none id handle db h w = w
with_community-WellFormed limit refused (some a) id handle db h w =
    elim (Option-cases (find (is_found a id) db.communities)) [
      | inl missing ↦ rw (missing, with_community) w
      | inr (c, e) ↦ rw (e, with_community) (h a c e)
    ]

-- Saving a found community with other texts or as deleted.
pub save_found-WellFormed :
    (limit : ℕ) (db : Db) (p : Community → Bool) (old c : Community)
    → find p db.communities ≡ some old
    → c.id ≡ old.id
    → c.scorer ≡ old.scorer
    → ((account : ℕ) → live_of account c ≡ true → live_of account old ≡ true)
    → WellFormed limit db
    → WellFormed limit (save_community c db).1
save_found-WellFormed limit db p old c e i s live w =
    save_community-WellFormed limit db c p e i live
      (rw (i, s) (Free-Unshared old db.communities (find-Free p db.communities e w.apart)))
      (rw s (find-All (λ x. has_scorer db.scorers x.scorer ≡ true) p db.communities e w.linked)) w
