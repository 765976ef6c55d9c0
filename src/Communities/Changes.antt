-- ===== src/Communities/Changes.antt =====
-- Updates, patches, deletions and new scorers of communities (api/account/api.py) keep the tables
-- well-formed.
use passport_scorer.Common.{
  ◌==◌, ==_iff, Bool-cases, Option-cases, get_or, any, find, find-holds, find-any, ℤ, Text, truthy,
  Result-cases, >>=-ok, err, ok, ℕ, ◌≡◌, refl, ap, ◌∙◌, subst, inl, inr, Bool, false, not, ◌&&◌,
  Option, none, some, List, [], ◌∷◌, arith,
}
use passport_scorer.V1.{ScorerType}
use passport_scorer.Communities.{
  Reply, is_taken, UpdatePayload, put_found, PatchPayload, patch_threshold, patch_found,
  delete_found, Community, Scorer, Defaults, Db, is_found, clashes, fits, fits_threshold, write_row,
  save_community, save_new_scorer, get_scorer,
}
use passport_scorer.Communities.Scorers.{
  scorer_type_of, delete_after, new_scorer, replace_scorer, scorer_found,
}
use passport_scorer.Communities.Rows.{find-Free}
use passport_scorer.Communities.WellFormed.{
  WellFormed, Unshared, Free-Unshared, save_community-WellFormed,
}
use passport_scorer.Communities.Creation.{
  fresh-unused, delete_scorer-WellFormed, save_threshold-WellFormed, save_threshold-communities,
}
use passport_scorer.Communities.Handlers.{
  has_new, same_scorer_type_refl, with_scorer, with_scorer-WellFormed, save_found-WellFormed,
}

pub put_found-WellFormed :
    (limit : ℕ) (p : UpdatePayload) (db : Db) (account id : ℕ) (c : Community)
    → find (is_found account id) db.communities ≡ some c
    → WellFormed limit db
    → WellFormed limit (put_found p account c db).1
put_found-WellFormed limit p db account id c e w =
    elim (Bool-cases (is_taken account c.id p.name db.communities)) [
      | inl taken ↦ rw taken w
      | inr free ↦
          rw free
            (save_found-WellFormed limit db (is_found account id) c _ e refl refl (λ a h. h) w)
    ]

pub patch_threshold-kept :
    (limit : ℕ) (t : Option ℤ) (c : Community) (db : Db) {db' : Db}
    → patch_threshold t c db ≡ ok db'
    → WellFormed limit db
    → WellFormed limit db' × (db'.communities ≡ db.communities)
unfolding patch_threshold
patch_threshold-kept limit none c db {db'} e w =
    let same : db ≡ db' = cc in (subst (WellFormed limit) same w, cc)
patch_threshold-kept limit (some t) c db {db'} e w =
    let (s, found, saved) = >>=-ok (get_scorer c.scorer db.scorers) _ e in
    (save_threshold-WellFormed limit s.id t db saved w, save_threshold-communities s.id t db saved)

pub patch_found-WellFormed :
    (limit : ℕ) (p : PatchPayload) (db : Db) (account id : ℕ) (c : Community)
    → find (is_found account id) db.communities ≡ some c
    → WellFormed limit db
    → WellFormed limit (patch_found p account c db).1
patch_found-WellFormed limit p db account id c e w =
    elim (Bool-cases
      (truthy (get_or p.name []) && is_taken account c.id (get_or p.name []) db.communities)) [
        | inl taken ↦ rw taken w
        | inr free ↦ elim (Result-cases (patch_threshold p.threshold c db)) [
          | inl (f, bad) ↦ rw (free, bad) w
          | inr (db', saved) ↦
              let (w', same) = patch_threshold-kept limit p.threshold c db saved w in
              let e' : find (is_found account id) db'.communities ≡ some c = rw same e in
              rw (free, saved)
                (save_found-WellFormed limit db' (is_found account id) c _ e' refl refl (λ a h. h)
                  w')
        ]
      ]

pub delete_found-WellFormed :
    (limit now : ℕ) (db : Db) (account id : ℕ) (c : Community)
    → find (is_found account id) db.communities ≡ some c
    → WellFormed limit db
    → WellFormed limit (delete_found now account c db).1
delete_found-WellFormed limit now db account id c e w =
    save_found-WellFormed limit db (is_found account id) c _ e refl refl (λ a h. ground (arith, h))
      w

any-and :
    (f g : Community → Bool) (xs : List Community)
    → any g xs ≡ false
    → any (λ x. f x && g x) xs ≡ false
any-and f g [] h = refl
any-and f g (x ∷ xs) h = ground (arith, any-and f g xs)

-- Once the row of `c` has another scorer, no row has that of `c`.
no_scorer-write :
    (c c' : Community) (rows : List Community)
    → c'.id ≡ c.id
    → (c'.scorer == c.scorer) ≡ false
    → Unshared c rows
    → any (λ q. q.scorer == c.scorer) (write_row c' rows) ≡ false
unfolding write_row
no_scorer-write c c' [] i d u = refl
no_scorer-write c c' (q ∷ qs) i d u =
    ground (arith, ==_iff q.scorer c.scorer, ==_iff c.scorer q.scorer, no_scorer-write c c' qs)

delete_after-WellFormed :
    (limit id : ℕ) (r : Reply)
    → (r.0 ≡ ok tt → any (λ c. c.scorer == id) r.1.communities ≡ false)
    → WellFormed limit r.1
    → WellFormed limit (delete_after id r).1
unfolding delete_after
delete_after-WellFormed limit id (err f, db) h w = w
delete_after-WellFormed limit id (ok done, db) h w = delete_scorer-WellFormed limit id db (h refl) w

save_community-writes :
    (c : Community) (db : Db)
    → (save_community c db).0 ≡ ok tt
    → (save_community c db).1.communities ≡ write_row c db.communities
unfolding save_community
save_community-writes c db e = elim (Bool-cases (fits c)) [
  | inr long ↦ ground arith
  | inl short ↦ elim (Bool-cases (any (λ q. not (q.id == c.id) && clashes c q) db.communities)) [
    | inl clash ↦ ground arith
    | inr free ↦ ground arith
  ]
]

replace_scorer-WellFormed :
    (defaults : Defaults) (limit : ℕ) (type : ScorerType) (db : Db) (p : Community → Bool)
    (c : Community) (old : Scorer)
    → find p db.communities ≡ some c
    → old.id ≡ c.scorer
    → WellFormed limit db
    → WellFormed limit (replace_scorer defaults type c old db).1
unfolding replace_scorer new_scorer
replace_scorer-WellFormed defaults limit type db p c old e o w =
    let s = new_scorer defaults type old db in
    let c' = record c { scorer = db.next_scorer } in
    let unused = fresh-unused db.next_scorer db.scorers db.communities w.fresh_scorers w.linked in
    let other : (db.next_scorer == c.scorer) ≡ false =
      find-any p (λ q. db.next_scorer == q.scorer) db.communities e unused in
    let gone =
      no_scorer-write c c' db.communities refl other
        (Free-Unshared c db.communities (find-Free p db.communities e w.apart)) in
    elim (Bool-cases (fits_threshold defaults.threshold)) [
      | inr wide ↦ rw (wide, replace_scorer, save_new_scorer) w
      | inl fit ↦
          let saved = with_scorer-WellFormed limit s db (refl, same_scorer_type_refl type) fit w in
          let moved =
            save_community-WellFormed limit (with_scorer s db) c' p e refl (λ a h. h)
              (any-and (λ q. not (q.id == c.id)) (λ q. db.next_scorer == q.scorer) db.communities
                unused)
              (has_new db s) saved in
          rw (fit, replace_scorer, save_new_scorer, o)
            (delete_after-WellFormed limit c.scorer (save_community c' (with_scorer s db))
              (λ done.
                ap (any (λ q. q.scorer == c.scorer))
                  (save_community-writes c' (with_scorer s db) done)
                ∙ gone)
              moved)
    ]

pub scorer_found-WellFormed :
    (defaults : Defaults) (limit : ℕ) (type : Text) (db : Db) (account id : ℕ) (c : Community)
    → find (is_found account id) db.communities ≡ some c
    → WellFormed limit db
    → WellFormed limit (scorer_found defaults type account c db).1
scorer_found-WellFormed defaults limit type db account id c e w =
    elim (Option-cases (find (λ s. s.id == c.scorer) db.scorers)) [
      | inl missing ↦ rw (missing, scorer_found) w
      | inr (old, f) ↦ elim (Option-cases (scorer_type_of type)) [
        | inl unknown ↦ rw (f, scorer_found, unknown) w
        | inr (t, known) ↦
            let same : old.id ≡ c.scorer =
              (==_iff old.id c.scorer).0 (find-holds (λ s. s.id == c.scorer) db.scorers f) in
            rw (f, scorer_found, known)
              (replace_scorer-WellFormed defaults limit t db (is_found account id) c old e same w)
      ]
    ]
