-- ===== src/Communities/Clear.antt =====
-- Rows of `Community` that clash with no other, and the scorers of rows that are found.
use passport_scorer.Common.{
  ◌==◌, Bool-cases, Option-cases, get_or, any, find, find-holds, find-All, text_eq_iff, truthy, ok,
  ℕ, ◌≡◌, refl, sym, subst, inl, inr, Bool, true, false, not, ◌&&◌, none, some, List, [], ◌∷◌,
  arith,
}
use passport_scorer.Communities.{
  is_taken, PatchPayload, patched, Community, Scorer, Db, same_scorer_type, is_found, clashes,
  get_scorer,
}
use passport_scorer.Communities.Rows.{conflict_parts, Free, find-Free}
use passport_scorer.Communities.WellFormed.{has_scorer, WellFormed}

-- No other row clashes with `c`.
abbrev pub Clear : Community → List Community → Type 0
Clear c rows = any (λ q. not (q.id == c.id) && clashes c q) rows ≡ false

pub Free-Clear : (c : Community) (rows : List Community) → Free c rows → Clear c rows
Free-Clear c [] h = refl
Free-Clear c (q ∷ qs) h = ground (arith, Free-Clear c qs, conflict_parts c q)

-- A live row of the account whose name is not taken.
pub untaken-Clear :
    (account : ℕ) (c : Community) (rows : List Community)
    → c.account ≡ account
    → c.deleted_at ≡ none
    → is_taken account c.id c.name rows ≡ false
    → Clear c rows
unfolding clashes
untaken-Clear account c [] a d h = refl
untaken-Clear account c (q ∷ qs) a d h = elim (Option-cases q.deleted_at) [
  | inl live ↦ ground (
    arith,
    live,
    text_eq_iff c.name q.name,
    text_eq_iff q.name c.name,
    untaken-Clear account c qs a d,
  )
  | inr (t, dead) ↦ ground (arith, dead, untaken-Clear account c qs a d)
]

pub found-live :
    (account id : ℕ) (rows : List Community) {c : Community}
    → find (is_found account id) rows ≡ some c
    → (c.account ≡ account) × (c.deleted_at ≡ none)
found-live account id rows {c} e =
    let h = find-holds (is_found account id) rows e in
    elim (Option-cases c.deleted_at) [
      | inl live ↦ (ground (arith, h), live)
      | inr (t, dead) ↦ ground (arith, h, dead)
    ]

any-find :
    {A : Type 0} (p : A → Bool) (xs : List A) → any p xs ≡ true → (x : A) × (find p xs ≡ some x)
any-find p [] h = cc
any-find p (x ∷ xs) h = elim (Bool-cases (p x)) [
  | inl e ↦ (x, rw e refl)
  | inr e ↦ let (y, f) = any-find p xs (ground arith) in (y, rw e f)
]

get_scorer-ok :
    (id : ℕ) (scorers : List Scorer) (s : Scorer)
    → find (λ x. x.id == id) scorers ≡ some s
    → same_scorer_type s.type s.child ≡ true
    → get_scorer id scorers ≡ ok s
unfolding get_scorer
get_scorer-ok id scorers s f a = rw (f, get_scorer, a) refl

-- The scorer of a community that is found.
pub found-scorer :
    (limit : ℕ) (db : Db) (p : Community → Bool) {c : Community}
    → find p db.communities ≡ some c
    → WellFormed limit db
    → (s : Scorer) × (find (λ x. x.id == c.scorer) db.scorers ≡ some s)
      × (get_scorer c.scorer db.scorers ≡ ok s)
found-scorer limit db p {c} e w =
    let there = find-All (λ x. has_scorer db.scorers x.scorer ≡ true) p db.communities e w.linked in
    let (s, f) = any-find (λ x. x.id == c.scorer) db.scorers there in
    let agrees =
      find-All (λ x. same_scorer_type x.type x.child ≡ true) (λ x. x.id == c.scorer) db.scorers f
        w.agree in
    (s, f, get_scorer-ok c.scorer db.scorers s f agrees)

-- A name that is given and not taken, or the old one, clashes with no other.
pub patched-Clear :
    (limit : ℕ) (p : PatchPayload) (account id : ℕ) (c : Community) (db : Db)
    → find (is_found account id) db.communities ≡ some c
    → (truthy (get_or p.name []) && is_taken account c.id (get_or p.name []) db.communities) ≡ false
    → WellFormed limit db
    → Clear (patched p c) db.communities
unfolding clashes
patched-Clear limit p account id c db e free w =
    let (a, d) = found-live account id db.communities e in
    elim (Bool-cases (truthy (get_or p.name []))) [
      | inl given ↦
          let name : (patched p c).name ≡ get_or p.name [] = rw given refl in
          untaken-Clear account (patched p c) db.communities a d (rw name (ground (arith, free)))
      | inr absent ↦
          let name : (patched p c).name ≡ c.name = rw absent refl in
          subst (λ n. Clear (record c { name = n }) db.communities) (sym name)
            (Free-Clear c db.communities (find-Free (is_found account id) db.communities e w.apart))
    ]
