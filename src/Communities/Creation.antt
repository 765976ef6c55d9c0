-- ===== src/Communities/Creation.antt =====
-- Creating communities and scorers, and deleting scorers, keeps the tables well-formed
-- (api/account/models.py, api/scorer_weighted/models.py).
use passport_scorer.Common.{
  ◌==◌, ==_iff, Bool-cases, length, filter, any, All, length-append, filter-append, any-append,
  All-map, All-append, filter_none, ℤ, ok, ℕ, suc, ◌≤◌, ◌<◌, ◌≡◌, refl, ◌∙◌, subst, inl, inr, Bool,
  true, false, not, ◌||◌, List, [], ◌∷◌, ◌++◌, arith,
}
use passport_scorer.Communities.{
  Community, Scorer, Db, same_scorer_type, live_of, same_external, clashes, fits, fits_threshold,
  create_row, save_new_scorer, write_threshold, save_threshold, delete_scorer,
}
use passport_scorer.Communities.Rows.{conflict, conflict_of, append-Apart}
use passport_scorer.Communities.WellFormed.{has_scorer, WellFormed}

-- A new scorer of a type.
abbrev pub IsNew : Db → Scorer → Type 0
IsNew db s = (s.id ≡ db.next_scorer) × (same_scorer_type s.type s.child ≡ true)

pub save_new_scorer-WellFormed :
    (limit : ℕ) (db : Db) (s : Scorer) {saved : Db}
    → IsNew db s
    → save_new_scorer s db ≡ ok saved
    → WellFormed limit db
    → WellFormed limit saved
unfolding save_new_scorer
save_new_scorer-WellFormed limit db s {saved} (i, t) e w =
    let done : (record db { scorers = db.scorers ++ s ∷ []; next_scorer = suc db.next_scorer })
        ≡ saved =
      ground arith in
    subst (WellFormed limit) done (record {
      apart = w.apart;
      fresh_rows = w.fresh_rows;
      fresh_scorers =
          All-append (λ x. x.id < suc db.next_scorer) db.scorers (s ∷ [])
            (All-map (λ x h. omega (arith, h)) db.scorers w.fresh_scorers) (omega (arith, i), tt);
      linked =
          All-map
            (λ x h. any-append (λ q. q.id == x.scorer) db.scorers (s ∷ []) ∙ ground (arith, h))
            db.communities w.linked;
      agree =
          All-append (λ x. same_scorer_type x.type x.child ≡ true) db.scorers (s ∷ []) w.agree
            (t, tt);
      limited = w.limited;
    })

-- A row with a fresh id and a scorer of its own conflicts with no other if the constraints allow it.
fresh-apart :
    (c : Community) (next : ℕ) (rows : List Community)
    → c.id ≡ next
    → any (λ q. clashes c q || same_external c.external_scorer_id q) rows ≡ false
    → any (λ q. c.scorer == q.scorer) rows ≡ false
    → All (λ q. q.id < next) rows
    → any (conflict c) rows ≡ false
fresh-apart c next [] i h u f = refl
fresh-apart c next (q ∷ qs) i h u f = ground (arith, f.0, fresh-apart c next qs, conflict_of c q)

limited-append :
    (limit : ℕ) (c : Community) (rows : List Community)
    → ((a : ℕ) → length (filter (live_of a) rows) ≤ limit)
    → length (filter (live_of c.account) rows) < limit
    → (a : ℕ) → length (filter (live_of a) (rows ++ c ∷ [])) ≤ limit
limited-append limit c rows l h a = ground (
  arith,
  l a,
  h,
  filter-append (live_of a) rows (c ∷ []),
  length-append (filter (live_of a) rows) (filter (live_of a) (c ∷ [])),
  ==_iff c.account a,
)

pub create_row-WellFormed :
    (limit : ℕ) (c : Community) (db : Db)
    → c.id ≡ db.next_community
    → has_scorer db.scorers c.scorer ≡ true
    → any (λ q. c.scorer == q.scorer) db.communities ≡ false
    → length (filter (live_of c.account) db.communities) < limit
    → WellFormed limit db
    → WellFormed limit (create_row c db).1
unfolding create_row
create_row-WellFormed limit c db i l u m w = elim (Bool-cases (fits c)) [
  | inr long ↦ rw long w
  | inl short ↦
      elim (Bool-cases
        (any (λ q. clashes c q || same_external c.external_scorer_id q) db.communities)) [
          | inl clash ↦ rw (short, clash) w
          | inr free ↦
              rw (short, free)
                (record {
                  apart =
                      append-Apart db.communities c w.apart
                        (fresh-apart c db.next_community db.communities i free u w.fresh_rows);
                  fresh_rows =
                      All-append (λ x. x.id < suc db.next_community) db.communities (c ∷ [])
                        (All-map (λ x h. omega (arith, h)) db.communities w.fresh_rows)
                        (omega (arith, i), tt);
                  fresh_scorers = w.fresh_scorers;
                  linked =
                      All-append (λ x. has_scorer db.scorers x.scorer ≡ true) db.communities
                        (c ∷ []) w.linked (l, tt);
                  agree = w.agree;
                  limited = limited-append limit c db.communities w.limited m;
                })
        ]
]

-- A scorer's id that is fresh is that of no community's scorer.
pub fresh-unused :
    (id : ℕ) (scorers : List Scorer) (rows : List Community)
    → All (λ s. s.id < id) scorers
    → All (λ c. has_scorer scorers c.scorer ≡ true) rows
    → any (λ q. id == q.scorer) rows ≡ false
fresh-unused id scorers [] f l = refl
fresh-unused id scorers (q ∷ qs) f l =
    ground (arith, below scorers q.scorer f l.0, fresh-unused id scorers qs f l.1)
  where
    below : (ss : List Scorer) (n : ℕ) → All (λ s. s.id < id) ss → has_scorer ss n ≡ true → n < id
    below [] n f h = cc
    below (s ∷ ss) n f h = ground (arith, below ss n f.1, f.0)

-- A scorer that no community has may be deleted.
pub delete_scorer-WellFormed :
    (limit id : ℕ) (db : Db)
    → any (λ c. c.scorer == id) db.communities ≡ false
    → WellFormed limit db
    → WellFormed limit (delete_scorer id db)
unfolding delete_scorer
delete_scorer-WellFormed limit id db u w =
    rw (filter_none (λ c. c.scorer == id) db.communities u) (record {
      apart = w.apart;
      fresh_rows = w.fresh_rows;
      fresh_scorers = filter-All (λ s. s.id < db.next_scorer) _ db.scorers w.fresh_scorers;
      linked = still_linked db.communities u w.linked;
      agree = filter-All (λ s. same_scorer_type s.type s.child ≡ true) _ db.scorers w.agree;
      limited = w.limited;
    })
  where
    filter-All :
        (P : Scorer → Type 0) (p : Scorer → Bool) (ss : List Scorer)
        → All P ss
        → All P (filter p ss)
    filter-All P p [] h = tt
    filter-All P p (s ∷ ss) h = elim (Bool-cases (p s)) [
      | inl e ↦ rw e (h.0, filter-All P p ss h.1)
      | inr e ↦ rw e (filter-All P p ss h.1)
    ]

    kept :
        (ss : List Scorer) (n : ℕ)
        → (n == id) ≡ false
        → has_scorer ss n ≡ true
        → has_scorer (filter (λ s. not (s.id == id)) ss) n ≡ true
    kept [] n h k = k
    kept (s ∷ ss) n h k = ground (arith, kept ss n)

    still_linked :
        (cs : List Community)
        → any (λ c. c.scorer == id) cs ≡ false
        → All (λ c. has_scorer db.scorers c.scorer ≡ true) cs
        → All (λ c. has_scorer (filter (λ s. not (s.id == id)) db.scorers) c.scorer ≡ true) cs
    still_linked [] h k = tt
    still_linked (c ∷ cs) h k =
        (kept db.scorers c.scorer (ground arith) k.0, still_linked cs (ground arith) k.1)

pub save_threshold-WellFormed :
    (limit id : ℕ) (t : ℤ) (db : Db) {db' : Db}
    → save_threshold id t db ≡ ok db'
    → WellFormed limit db
    → WellFormed limit db'
unfolding save_threshold write_threshold
save_threshold-WellFormed limit id t db {db'} e w =
    let done : (record db { scorers = write_threshold id t db.scorers }) ≡ db' = ground arith in
    subst (WellFormed limit) done (record {
      apart = w.apart;
      fresh_rows = w.fresh_rows;
      fresh_scorers = fresh db.scorers w.fresh_scorers;
      linked = All-map (λ x h. has-write db.scorers x.scorer ∙ h) db.communities w.linked;
      agree = agrees db.scorers w.agree;
      limited = w.limited;
    })
  where
    fresh :
        (ss : List Scorer)
        → All (λ s. s.id < db.next_scorer) ss
        → All (λ s. s.id < db.next_scorer) (write_threshold id t ss)
    fresh [] h = tt
    fresh (s ∷ ss) h = (ground (arith, h.0), fresh ss h.1)

    agrees :
        (ss : List Scorer)
        → All (λ s. same_scorer_type s.type s.child ≡ true) ss
        → All (λ s. same_scorer_type s.type s.child ≡ true) (write_threshold id t ss)
    agrees [] h = tt
    agrees (s ∷ ss) h = (ground (arith, h.0), agrees ss h.1)

    has-write :
        (ss : List Scorer) (n : ℕ) → has_scorer (write_threshold id t ss) n ≡ has_scorer ss n
    has-write [] n = refl
    has-write (s ∷ ss) n = ground (arith, has-write ss n)

pub save_threshold-communities :
    (id : ℕ) (t : ℤ) (db : Db) {db' : Db}
    → save_threshold id t db ≡ ok db'
    → db'.communities ≡ db.communities
unfolding save_threshold
save_threshold-communities id t db {db'} e = elim (Bool-cases (fits_threshold t)) [
  | inl fit ↦ ground arith
  | inr wide ↦ ground arith
]
