-- ===== src/Communities/WellFormed.antt =====
-- The invariant of the tables of communities and scorers, and that saving a community keeps it
-- (api/account/models.py, api/account/api.py).
use passport_scorer.Common.{
  ◌==◌, Bool-cases, length, filter, any, find, All, find-any, find-All, ℕ, ◌≤◌, ◌<◌, ◌≡◌, refl, sym,
  ap, ◌∙◌, subst, inl, inr, Bool, true, false, not, ◌&&◌, some, List, [], ◌∷◌, arith,
}
use passport_scorer.Communities.{
  Community, Scorer, Db, same_scorer_type, live_of, clashes, fits, write_row, save_community,
}
use passport_scorer.Communities.Rows.{
  conflict, Apart, conflict_parts, Free, no_id, write_absent, write-Apart, All-write,
}

abbrev pub has_scorer : List Scorer → ℕ → Bool
has_scorer scorers id = any (λ s. s.id == id) scorers

-- The communities do not conflict, new ids are fresh, every community has a scorer, every scorer is
-- a row of the class that its type names, and no account has more live communities than `limit`.
pub record WellFormed (limit : ℕ) (db : Db) : Type 0 where
  pub apart : Apart db.communities
  pub fresh_rows : All (λ c. c.id < db.next_community) db.communities
  pub fresh_scorers : All (λ s. s.id < db.next_scorer) db.scorers
  pub linked : All (λ c. has_scorer db.scorers c.scorer ≡ true) db.communities
  pub agree : All (λ s. same_scorer_type s.type s.child ≡ true) db.scorers
  pub limited : (account : ℕ) → length (filter (live_of account) db.communities) ≤ limit

-- No other row has the scorer of `c`.
abbrev pub Unshared : Community → List Community → Type 0
Unshared c rows = any (λ q. not (q.id == c.id) && c.scorer == q.scorer) rows ≡ false

parts-Free :
    (c : Community) (rows : List Community)
    → any (λ q. not (q.id == c.id) && clashes c q) rows ≡ false
    → Unshared c rows
    → Free c rows
unfolding conflict
parts-Free c [] h u = refl
parts-Free c (q ∷ qs) h u = ground (arith, parts-Free c qs)

pub Free-Unshared : (c : Community) (rows : List Community) → Free c rows → Unshared c rows
Free-Unshared c [] h = refl
Free-Unshared c (q ∷ qs) h = ground (arith, Free-Unshared c qs, conflict_parts c q)

length-write-le :
    (f p : Community → Bool) (c : Community) (rows : List Community) {old : Community}
    → Apart rows
    → find p rows ≡ some old
    → c.id ≡ old.id
    → (f c ≡ true → f old ≡ true)
    → length (filter f (write_row c rows)) ≤ length (filter f rows)
unfolding write_row
length-write-le f p c [] a e i h = cc
length-write-le f p c (q ∷ qs) {old} a e i h = elim (Bool-cases (p q)) [
  | inl k ↦
      let is_old : q ≡ old = ground arith in
      let same : q.id ≡ c.id = ap (λ x. x.id) is_old ∙ sym i in
      let gone : any (λ x. x.id == c.id) qs ≡ false =
        subst (λ n. any (λ x. x.id == n) qs ≡ false) same (no_id q qs a.0) in
      let keeps : f c ≡ true → f q ≡ true = λ y. ap f is_old ∙ h y in
      rw (write_absent c qs gone) (ground (arith, keeps))
  | inr k ↦
      let e' : find p qs ≡ some old = ground arith in
      let apart = conflict_parts q old (find-any p (conflict q) qs e' a.0) in
      ground (arith, apart, length-write-le f p c qs {old = old} a.1 e' i h)
]

-- Saving a community that was found keeps the tables well-formed, if its new scorer is there and
-- is no other's, and if it is live for an account only if the old row was.
pub save_community-WellFormed :
    (limit : ℕ) (db : Db) (c : Community) (p : Community → Bool) {old : Community}
    → find p db.communities ≡ some old
    → c.id ≡ old.id
    → ((account : ℕ) → live_of account c ≡ true → live_of account old ≡ true)
    → Unshared c db.communities
    → has_scorer db.scorers c.scorer ≡ true
    → WellFormed limit db
    → WellFormed limit (save_community c db).1
unfolding save_community
save_community-WellFormed limit db c p {old} e i live u l w = elim (Bool-cases (fits c)) [
  | inr long ↦ rw long w
  | inl short ↦ elim (Bool-cases (any (λ q. not (q.id == c.id) && clashes c q) db.communities)) [
    | inl clash ↦ rw (short, clash) w
    | inr free ↦
        rw (short, free)
          (record {
            apart = write-Apart c db.communities w.apart (parts-Free c db.communities free u);
            fresh_rows =
                All-write (λ x. x.id < db.next_community) c db.communities
                  (subst (λ n. n < db.next_community) (sym i)
                    (find-All (λ x. x.id < db.next_community) p db.communities e w.fresh_rows))
                  w.fresh_rows;
            fresh_scorers = w.fresh_scorers;
            linked =
                All-write (λ x. has_scorer db.scorers x.scorer ≡ true) c db.communities l w.linked;
            agree = w.agree;
            limited = λ a. omega (
              arith,
              w.limited a,
              length-write-le (live_of a) p c db.communities {old = old} w.apart e i (live a),
            );
          })
  ]
]
