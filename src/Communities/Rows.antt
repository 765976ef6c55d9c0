-- ===== src/Communities/Rows.antt =====
-- Finding, writing and creating rows of `Community` in a table whose rows stand apart.
use passport_scorer.Common.{
  ◌==◌, ==_iff, Bool-cases, filter, any, find, All, any-append, find-any, text_eq_iff, ℕ, ◌≡◌, refl,
  sym, ◌∙◌, subst, inl, inr, Bool, false, not, ◌&&◌, ◌||◌, Option, none, some, List, [], ◌∷◌, ◌++◌,
  arith,
}
use passport_scorer.Communities.{Community, same_deletion, clashes, write_row}

-- Two rows that cannot both be in the table: for their names, their ids or a shared scorer.
unfoldable pub conflict : Community → Community → Bool
unfolding clashes
conflict c q = clashes c q || c.id == q.id || c.scorer == q.scorer

-- No row conflicts with one behind it.
abbrev pub Apart : List Community → Type 0
Apart [] = Unit
Apart (c ∷ cs) = (any (conflict c) cs ≡ false) × Apart cs

same_deletion-sym : (t u : Option ℕ) → same_deletion t u ≡ same_deletion u t
same_deletion-sym none none = refl
same_deletion-sym none (some u) = refl
same_deletion-sym (some t) none = refl
same_deletion-sym (some t) (some u) = ground arith

clashes-sym : (c q : Community) → clashes c q ≡ clashes q c
unfolding clashes
clashes-sym c q = ground (
  arith,
  text_eq_iff c.name q.name,
  text_eq_iff q.name c.name,
  same_deletion-sym c.deleted_at q.deleted_at,
)

pub conflict-sym : (c q : Community) → conflict c q ≡ conflict q c
unfolding conflict
conflict-sym c q = ground (arith, clashes-sym c q)

pub conflict_parts :
    (c q : Community)
    → conflict c q ≡ false
    → (clashes c q ≡ false) × ((c.id == q.id) ≡ false) × ((c.scorer == q.scorer) ≡ false)
unfolding conflict
conflict_parts c q h = (ground arith, ground arith, ground arith)

pub conflict_of :
    (c q : Community)
    → clashes c q ≡ false
    → (c.id == q.id) ≡ false
    → (c.scorer == q.scorer) ≡ false
    → conflict c q ≡ false
unfolding conflict
conflict_of c q h i j = ground arith

-- No other row than that of `c` clashes with it or has its scorer.
abbrev pub others_conflict : Community → Community → Bool
others_conflict c q = not (q.id == c.id) && conflict c q

-- A row that conflicts with none but those of its id.
abbrev pub Free : Community → List Community → Type 0
Free c rows = any (others_conflict c) rows ≡ false

apart-Free : (c : Community) (qs : List Community) → any (conflict c) qs ≡ false → Free c qs
apart-Free c [] h = refl
apart-Free c (x ∷ xs) h = ground (arith, apart-Free c xs)

Free-itself :
    (c q : Community) (qs : List Community) → q ≡ c → any (conflict q) qs ≡ false → Free c (q ∷ qs)
Free-itself c q qs e h =
    subst (λ x. Free x (q ∷ qs)) e (ground (arith, ==_iff q.id q.id, apart-Free q qs h))

-- A row that is found conflicts with no other.
pub find-Free :
    (p : Community → Bool) (rows : List Community) {c : Community}
    → find p rows ≡ some c
    → Apart rows
    → Free c rows
find-Free p [] e a = cc
find-Free p (q ∷ qs) {c} e a = elim (Bool-cases (p q)) [
  | inl h ↦ Free-itself c q qs (ground arith) a.0
  | inr h ↦
      let e' : find p qs ≡ some c = ground arith in
      let turned : conflict c q ≡ false = conflict-sym c q ∙ find-any p (conflict q) qs e' a.0 in
      ground (arith, find-Free p qs {c = c} e' a.1)
]

any-write :
    (f : Community → Bool) (c : Community) (qs : List Community)
    → any f qs ≡ false
    → f c ≡ false
    → any f (write_row c qs) ≡ false
unfolding write_row
any-write f c [] h k = refl
any-write f c (q ∷ qs) h k = ground (arith, any-write f c qs)

-- Behind the row of an id there is none of that id.
pub no_id :
    (q : Community) (qs : List Community)
    → any (conflict q) qs ≡ false
    → any (λ x. x.id == q.id) qs ≡ false
no_id q [] h = refl
no_id q (x ∷ xs) h = ground (arith, conflict_parts q x, no_id q xs)

pub write_absent :
    (c : Community) (qs : List Community) → any (λ x. x.id == c.id) qs ≡ false → write_row c qs ≡ qs
unfolding write_row
write_absent c [] h = refl
write_absent c (q ∷ qs) h = ground (arith, write_absent c qs)

absent-Free :
    (c : Community) (qs : List Community)
    → any (λ x. x.id == c.id) qs ≡ false
    → Free c qs
    → any (conflict c) qs ≡ false
absent-Free c [] h k = refl
absent-Free c (q ∷ qs) h k = ground (arith, absent-Free c qs)

pub write-Apart :
    (c : Community) (rows : List Community) → Apart rows → Free c rows → Apart (write_row c rows)
unfolding write_row
write-Apart c [] a f = tt
write-Apart c (q ∷ qs) a f = elim (Bool-cases (q.id == c.id)) [
  | inl h ↦
      let same : q.id ≡ c.id = ground arith in
      let gone : any (λ x. x.id == c.id) qs ≡ false = rw (sym same) (no_id q qs a.0) in
      let stays = write_absent c qs gone in
      let free = absent-Free c qs gone (ground arith) in rw (h, stays) (free, a.1)
  | inr h ↦
      let turned : conflict q c ≡ false = conflict-sym q c ∙ ground arith in
      rw h (any-write (conflict q) c qs a.0 turned, write-Apart c qs a.1 (ground arith))
]

pub append-Apart :
    (rows : List Community) (c : Community)
    → Apart rows
    → any (conflict c) rows ≡ false
    → Apart (rows ++ c ∷ [])
append-Apart [] c a h = ground arith
append-Apart (q ∷ qs) c a h =
    ground (arith, append-Apart qs c a.1, conflict-sym c q, any-append (conflict q) qs (c ∷ []))

pub filter-Apart :
    (p : Community → Bool) (rows : List Community) → Apart rows → Apart (filter p rows)
filter-Apart p [] a = tt
filter-Apart p (q ∷ qs) a = elim (Bool-cases (p q)) [
  | inl h ↦ rw h (any-filtered (conflict q) p qs a.0, filter-Apart p qs a.1)
  | inr h ↦ rw h (filter-Apart p qs a.1)
]
  where
    any-filtered :
        (f p : Community → Bool) (xs : List Community)
        → any f xs ≡ false
        → any f (filter p xs) ≡ false
    any-filtered f p [] h = refl
    any-filtered f p (x ∷ xs) h = ground (arith, any-filtered f p xs)

pub All-write {ℓ} :
    (P : Community → Type ℓ) (c : Community) (rows : List Community)
    → P c
    → All P rows
    → All P (write_row c rows)
unfolding write_row
All-write P c [] h k = tt
All-write P c (q ∷ qs) h k = elim (Bool-cases (q.id == c.id)) [
  | inl e ↦ rw e (h, All-write P c qs h k.1)
  | inr e ↦ rw e (k.0, All-write P c qs h k.1)
]
