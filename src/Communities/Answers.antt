-- ===== src/Communities/Answers.antt =====
-- Which answers the handlers of communities (api/account/api.py, api/registry/api/v1.py) give on
-- well-formed tables.
use passport_scorer.Common.{
  leb, ◌==◌, ==_iff, Bool-cases, Option-cases, get_or, length, filter, any, find, ℤ, Text,
  text_eq_iff, truthy, Result-cases, Result, err, ok, ℕ, ◌≡◌, refl, sym, ap, ◌∙◌, ◌⊎◌, inl, inr,
  Bool, true, false, ◌&&◌, ◌||◌, Option, none, some, List, [], ◌∷◌, arith,
}
use passport_scorer.V1.{ScorerType}
use passport_scorer.Communities.{
  Reply, is_taken, create_checks, scorer_for, CommunitiesPayload, new_community,
  create_community_for_account, create_community, with_community, UpdatePayload, put_found,
  PatchPayload, patch_threshold, patched, patch_found, Community, Scorer, Defaults, Db, Failure,
  live_of, named, is_found, same_external, clashes, fits_threshold, create_row, save_community,
  save_new_scorer, write_threshold, save_threshold, integrity_error, data_error,
  related_object_does_not_exist,
}
use passport_scorer.Communities.Scorers.{
  scorer_type_of, delete_after, new_scorer, replace_scorer, scorer_found,
}
use passport_scorer.Communities.Rows.{find-Free}
use passport_scorer.Communities.WellFormed.{WellFormed}
use passport_scorer.Communities.Handlers.{with_scorer}
use passport_scorer.Communities.Changes.{patch_threshold-kept}
use passport_scorer.Communities.Clear.{
  Clear, Free-Clear, untaken-Clear, found-live, found-scorer, patched-Clear,
}

-- The errors of the server that come from a constraint, or from a scorer that a row does not have.
unfoldable pub is_broken : Result Failure (Unit {0}) → Bool
is_broken (ok done) = false
is_broken (err integrity_error) = true
is_broken (err related_object_does_not_exist) = true
is_broken (err other) = false

save_community-answers :
    (c : Community) (db : Db) → Clear c db.communities → is_broken (save_community c db).0 ≡ false
unfolding save_community is_broken
save_community-answers c db h = ground (arith, h)

pub put-answers :
    (p : UpdatePayload) (account id : ℕ) (c : Community) (db : Db)
    → find (is_found account id) db.communities ≡ some c
    → is_broken (put_found p account c db).0 ≡ false
unfolding is_broken
put-answers p account id c db e =
    let (a, d) = found-live account id db.communities e in
    elim (Bool-cases (is_taken account c.id p.name db.communities)) [
      | inl taken ↦ rw (taken, put_found) refl
      | inr free ↦
          let c' = record c {
            name = p.name;
            description = p.description;
            use_case = some p.use_case;
          } in
          rw (free, put_found)
            (save_community-answers c' db (untaken-Clear account c' db.communities a d free))
    ]

save_threshold-answers :
    (id : ℕ) (t : ℤ) (db : Db)
    → (save_threshold id t db ≡ err data_error) ⊎ ((db' : Db) × (save_threshold id t db ≡ ok db'))
unfolding save_threshold write_threshold
save_threshold-answers id t db = elim (Bool-cases (fits_threshold t)) [
  | inl fit ↦ inr (record db { scorers = write_threshold id t db.scorers }, rw fit refl)
  | inr wide ↦ inl (rw wide refl)
]

-- What saving the threshold of a patch comes to: too many digits, or the same communities.
patch_threshold-answers :
    (limit : ℕ) (t : Option ℤ) (p : Community → Bool) (c : Community) (db : Db)
    → find p db.communities ≡ some c
    → WellFormed limit db
    → (patch_threshold t c db ≡ err data_error) ⊎ ((db' : Db) × (patch_threshold t c db ≡ ok db'))
unfolding patch_threshold
patch_threshold-answers limit none p c db e w = inr (db, refl)
patch_threshold-answers limit (some t) p c db e w =
    let (s, f, got) = found-scorer limit db p e w in rw got (save_threshold-answers s.id t db)

pub patch-answers :
    (limit : ℕ) (p : PatchPayload) (account id : ℕ) (c : Community) (db : Db)
    → find (is_found account id) db.communities ≡ some c
    → WellFormed limit db
    → is_broken (patch_found p account c db).0 ≡ false
unfolding is_broken
patch-answers limit p account id c db e w =
    let taken =
      truthy (get_or p.name []) && is_taken account c.id (get_or p.name []) db.communities in
    elim (Bool-cases taken) [
      | inl dup ↦ rw (dup, patch_found) refl
      | inr free ↦ elim (patch_threshold-answers limit p.threshold (is_found account id) c db e w) [
        | inl bad ↦ rw (free, patch_found, bad) refl
        | inr (db', saved) ↦
            let same = (patch_threshold-kept limit p.threshold c db saved w).1 in
            rw (free, patch_found, saved)
              (save_community-answers (patched p c) db'
                (rw same (patched-Clear limit p account id c db e free w)))
      ]
    ]

delete_after-answers :
    (id : ℕ) (r : Reply) → is_broken r.0 ≡ false → is_broken (delete_after id r).0 ≡ false
unfolding delete_after is_broken
delete_after-answers id (err f, db) h = h
delete_after-answers id (ok done, db) h = refl

replace_scorer-answers :
    (defaults : Defaults) (t : ScorerType) (c : Community) (old : Scorer) (db : Db)
    → Clear c db.communities
    → is_broken (replace_scorer defaults t c old db).0 ≡ false
unfolding is_broken clashes replace_scorer
replace_scorer-answers defaults t c old db h =
    let saved = with_scorer (new_scorer defaults t old db) db in
    let c' = record c { scorer = db.next_scorer } in
    elim (Bool-cases (fits_threshold defaults.threshold)) [
      | inr wide ↦ rw (wide, replace_scorer, save_new_scorer, new_scorer) refl
      | inl fit ↦
          rw (fit, replace_scorer, save_new_scorer, new_scorer)
            (delete_after-answers old.id (save_community c' saved)
              (save_community-answers c' saved h))
    ]

pub scorer-answers :
    (defaults : Defaults) (limit : ℕ) (type : Text) (account id : ℕ) (c : Community) (db : Db)
    → find (is_found account id) db.communities ≡ some c
    → WellFormed limit db
    → is_broken (scorer_found defaults type account c db).0 ≡ false
unfolding is_broken
scorer-answers defaults limit type account id c db e w =
    let (old, f, got) = found-scorer limit db (is_found account id) e w in
    let free = find-Free (is_found account id) db.communities e w.apart in
    elim (Option-cases (scorer_type_of type)) [
      | inl unknown ↦ rw (f, scorer_found, unknown) refl
      | inr (t, known) ↦
          rw (f, scorer_found, known)
            (replace_scorer-answers defaults t c old db (Free-Clear c db.communities free))
    ]

unnamed-clear :
    (c : Community) (rows : List Community)
    → c.deleted_at ≡ none
    → any (named c.account c.name) rows ≡ false
    → any (λ q. clashes c q || same_external none q) rows ≡ false
unfolding clashes
unnamed-clear c [] d h = refl
unnamed-clear c (q ∷ qs) d h = elim (Option-cases q.deleted_at) [
  | inl live ↦ ground (
    arith,
    live,
    text_eq_iff c.name q.name,
    text_eq_iff q.name c.name,
    ==_iff c.account q.account,
    ==_iff q.account c.account,
    unnamed-clear c qs d,
  )
  | inr (t, dead) ↦ ground (arith, dead, unnamed-clear c qs d)
]

create_checks-answers :
    (limit account : ℕ) (name : Text) (rows : List Community)
    → (is_broken (create_checks limit account name none rows) ≡ false)
      × (create_checks limit account name none rows ≡ ok tt → any (named account name) rows ≡ false)
unfolding create_checks is_broken
create_checks-answers limit account name rows =
    elim (Bool-cases (leb limit (length (filter (live_of account) rows)))) [
      | inl full ↦ (rw full refl, ground arith)
      | inr room ↦ elim (Bool-cases (any (named account name) rows)) [
        | inl dup ↦ (rw (room, dup) refl, ground arith)
        | inr free ↦ elim (Bool-cases (length name == 0)) [
          | inl empty ↦ (rw (room, free, empty) refl, λ e. free)
          | inr full ↦ (rw (room, free, full) refl, λ e. free)
        ]
      ]
    ]

create_row-answers :
    (c : Community) (db : Db)
    → any (λ q. clashes c q || same_external c.external_scorer_id q) db.communities ≡ false
    → is_broken (create_row c db).0 ≡ false
unfolding create_row is_broken
create_row-answers c db h = ground (arith, h)

pub create_for_account-answers :
    (defaults : Defaults) (limit now account : ℕ) (p : CommunitiesPayload) (db : Db)
    → is_broken (create_community_for_account defaults limit now account p none db).0 ≡ false
unfolding create_community_for_account is_broken
create_for_account-answers defaults limit now account p db =
    let (sound, free) = create_checks-answers limit account p.name db.communities in
    let s = scorer_for defaults db.next_scorer p.scorer p.threshold in
    elim (Result-cases (create_checks limit account p.name none db.communities)) [
      | inl (f, e) ↦ rw (e, create_community_for_account) (sym (ap is_broken e) ∙ sound)
      | inr (checked, e) ↦ elim (Bool-cases (fits_threshold s.threshold)) [
        | inr wide ↦ rw (e, create_community_for_account, save_new_scorer, wide) refl
        | inl fit ↦
            let c = new_community now account p none db in
            rw (e, create_community_for_account, save_new_scorer, fit)
              (create_row-answers c (with_scorer s db)
                (unnamed-clear c db.communities refl (free e)))
      ]
    ]

pub create-answers :
    (defaults : Defaults) (limit now : ℕ) (account : Option ℕ) (p : Option CommunitiesPayload)
    (db : Db)
    → is_broken (create_community defaults limit now account p db).0 ≡ false
unfolding create_community is_broken
create-answers defaults limit now none p db = refl
create-answers defaults limit now (some account) none db = refl
create-answers defaults limit now (some account) (some p) db =
    elim (Bool-cases (length p.description == 0)) [
      | inl empty ↦ rw empty refl
      | inr full ↦ rw full (create_for_account-answers defaults limit now account p db)
    ]

pub with_community-answers :
    (refused : Failure) (account : Option ℕ) (id : ℕ) (handle : ℕ → Community → Db → Reply)
    (db : Db)
    → is_broken (err refused) ≡ false
    → ((a : ℕ) (c : Community)
        → find (is_found a id) db.communities ≡ some c
        → is_broken (handle a c db).0 ≡ false)
    → is_broken (with_community refused account id handle db).0 ≡ false
unfolding with_community is_broken
with_community-answers refused none id handle db r h = r
with_community-answers refused (some a) id handle db r h =
    elim (Option-cases (find (is_found a id) db.communities)) [
      | inl missing ↦ rw (missing, with_community) refl
      | inr (c, e) ↦ rw (e, with_community) (h a c e)
    ]
