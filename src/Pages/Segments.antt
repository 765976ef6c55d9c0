-- ===== src/Pages/Segments.antt =====
-- The order of the stamps of an account, and what lies before and after one of them
-- (`get_passport_stamps` in api/v2/api/api_stamps.py).
use passport_scorer.Common.{
  ◌==◌, if◌then◌else◌, Bool-cases, filter, All, All-map, All-append, All-append-left, Text, ℕ, ◌<◌,
  ◌≡◌, refl, ap, ◌∙◌, inl, inr, Bool, false, List, [], ◌∷◌, ◌++◌, arith,
}
use passport_scorer.Cache.{Row}
use passport_scorer.Pages.{
  insert_row, order_by, by_id, by_minus_id, is_listed, stamps_query, reverse, older, newer,
}

abbrev pub IsDistinct : List Row → Type 0
IsDistinct [] = Unit
IsDistinct (r ∷ rows) = All (λ x. (x.pk == r.pk) ≡ false) rows × IsDistinct rows

abbrev pub IsDescending : List Row → Type 0
IsDescending [] = Unit
IsDescending (r ∷ rows) = All (λ x. x.pk < r.pk) rows × IsDescending rows

abbrev pub has_pk : ℕ → Row → Bool
has_pk id r = r.pk == id

All-insert_row {ℓ} :
    (P : Row → Type ℓ) (is_first : Row → Row → Bool) (r : Row) (rows : List Row)
    → P r
    → All P rows
    → All P (insert_row is_first r rows)
unfolding insert_row
All-insert_row P is_first r [] p h = (p, tt)
All-insert_row P is_first r (x ∷ rows) p h =
    let later = All-insert_row P is_first r rows p h.1 in
    elim (Bool-cases (is_first r x)) [ inl e ↦ rw e (p, h) | inr e ↦ rw e (h.0, later) ]

All-filter {ℓ} :
    (P : Row → Type ℓ) (p : Row → Bool) (rows : List Row) → All P rows → All P (filter p rows)
All-filter P p [] h = tt
All-filter P p (r ∷ rows) h = elim (Bool-cases (p r)) [
  | inl e ↦ rw e (h.0, All-filter P p rows h.1)
  | inr e ↦ rw e (All-filter P p rows h.1)
]

filter-IsDistinct :
    (p : Row → Bool) (rows : List Row) → IsDistinct rows → IsDistinct (filter p rows)
filter-IsDistinct p [] h = tt
filter-IsDistinct p (r ∷ rows) h = elim (Bool-cases (p r)) [
  | inl e ↦ rw e (All-filter (λ x. (x.pk == r.pk) ≡ false) p rows h.0, filter-IsDistinct p rows h.1)
  | inr e ↦ rw e (filter-IsDistinct p rows h.1)
]

All-order_by {ℓ} :
    (P : Row → Type ℓ) (is_first : Row → Row → Bool) (rows : List Row)
    → All P rows
    → All P (order_by is_first rows)
unfolding order_by
All-order_by P is_first [] h = tt
All-order_by P is_first (r ∷ rows) h =
    All-insert_row P is_first r (order_by is_first rows) h.0 (All-order_by P is_first rows h.1)

insert_row-IsDescending :
    (r : Row) (rows : List Row)
    → All (λ x. (x.pk == r.pk) ≡ false) rows
    → IsDescending rows
    → IsDescending (insert_row by_minus_id r rows)
unfolding insert_row
insert_row-IsDescending r [] h d = (tt, tt)
insert_row-IsDescending r (x ∷ rows) h d = elim (Bool-cases (by_minus_id r x)) [
  | inl e ↦
      let below : x.pk < r.pk = ground arith in
      rw e ((below, All-map (λ y (lt : y.pk < x.pk). omega arith) rows d.0), d)
  | inr e ↦
      let below : r.pk < x.pk = ground (arith, h.0) in
      rw e (
        All-insert_row (λ y. y.pk < x.pk) by_minus_id r rows below d.0,
        insert_row-IsDescending r rows h.1 d.1,
      )
]

order_by-IsDescending :
    (rows : List Row) → IsDistinct rows → IsDescending (order_by by_minus_id rows)
unfolding order_by
order_by-IsDescending [] h = tt
order_by-IsDescending (r ∷ rows) h =
    insert_row-IsDescending r (order_by by_minus_id rows)
      (All-order_by (λ x. (x.pk == r.pk) ≡ false) by_minus_id rows h.0)
      (order_by-IsDescending rows h.1)

pub stamps_query-IsDescending :
    (address : Text) (table : List Row)
    → IsDistinct table
    → IsDescending (stamps_query address table)
unfolding stamps_query
stamps_query-IsDescending address table h =
    order_by-IsDescending (filter (is_listed address) table)
      (filter-IsDistinct (is_listed address) table h)

insert_row-has_pk :
    (id : ℕ) (r : Row) (rows : List Row)
    → filter (has_pk id) (insert_row by_minus_id r rows) ≡ filter (has_pk id) (r ∷ rows)
unfolding insert_row
insert_row-has_pk id r [] = refl
insert_row-has_pk id r (x ∷ rows) = ground (arith, insert_row-has_pk id r rows)

order_by-has_pk :
    (id : ℕ) (rows : List Row)
    → filter (has_pk id) (order_by by_minus_id rows) ≡ filter (has_pk id) rows
unfolding order_by
order_by-has_pk id [] = refl
order_by-has_pk id (r ∷ rows) =
    insert_row-has_pk id r (order_by by_minus_id rows)
    ∙ ap (λ (k : List Row). if has_pk id r then r ∷ k else k) (order_by-has_pk id rows)

-- A query has the rows of an id that the table lists.
pub stamps_query-has_pk :
    (id : ℕ) (address : Text) (table : List Row)
    → filter (has_pk id) (stamps_query address table)
      ≡ filter (has_pk id) (filter (is_listed address) table)
unfolding stamps_query
stamps_query-has_pk id address table = order_by-has_pk id (filter (is_listed address) table)

older-below : (y : Row) (rows : List Row) → All (λ x. x.pk < y.pk) rows → older y.pk rows ≡ rows
older-below y [] h = refl
older-below y (r ∷ rows) h = ground (arith, older-below y rows h.1, h.0)

newer-below : (y : Row) (rows : List Row) → All (λ x. x.pk < y.pk) rows → newer y.pk rows ≡ []
newer-below y [] h = refl
newer-below y (r ∷ rows) h = ground (arith, newer-below y rows h.1, h.0)

pub above_middle :
    (x : Row) (xs : List Row) (y : Row) (zs : List Row)
    → All (λ r. r.pk < x.pk) (xs ++ y ∷ zs)
    → y.pk < x.pk
above_middle x [] y zs h = h.0
above_middle x (w ∷ xs) y zs h = above_middle x xs y zs h.1

-- The rows older than one of a descending list are those after it, and the newer ones those before.
pub older-middle :
    (xs : List Row) (y : Row) (zs : List Row)
    → IsDescending (xs ++ y ∷ zs)
    → older y.pk (xs ++ y ∷ zs) ≡ zs
older-middle [] y zs h = ground (arith, older-below y zs h.0)
older-middle (x ∷ xs) y zs h = ground (arith, older-middle xs y zs h.1, above_middle x xs y zs h.0)

pub newer-middle :
    (xs : List Row) (y : Row) (zs : List Row)
    → IsDescending (xs ++ y ∷ zs)
    → newer y.pk (xs ++ y ∷ zs) ≡ xs
newer-middle [] y zs h = ground (arith, newer-below y zs h.0)
newer-middle (x ∷ xs) y zs h = ground (arith, newer-middle xs y zs h.1, above_middle x xs y zs h.0)

insert_row-last :
    (r : Row) (rows : List Row)
    → All (λ x. x.pk < r.pk) rows
    → insert_row by_id r rows ≡ rows ++ r ∷ []
unfolding insert_row
insert_row-last r [] h = refl
insert_row-last r (x ∷ rows) h = ground (arith, insert_row-last r rows h.1, h.0)

All-reverse {ℓ} : (P : Row → Type ℓ) (rows : List Row) → All P rows → All P (reverse rows)
All-reverse P [] h = tt
All-reverse P (r ∷ rows) h = All-append P (reverse rows) (r ∷ []) (All-reverse P rows h.1) (h.0, tt)

-- The other order of a descending list is the reverse.
pub order_by-reverse : (rows : List Row) → IsDescending rows → order_by by_id rows ≡ reverse rows
unfolding order_by
order_by-reverse [] h = refl
order_by-reverse (r ∷ rows) h =
    rw (order_by-reverse rows h.1)
      (insert_row-last r (reverse rows) (All-reverse (λ x. x.pk < r.pk) rows h.0))

pub IsDescending-left : (xs ys : List Row) → IsDescending (xs ++ ys) → IsDescending xs
IsDescending-left [] ys h = tt
IsDescending-left (x ∷ xs) ys h =
    (All-append-left (λ r. r.pk < x.pk) xs ys h.0, IsDescending-left xs ys h.1)
