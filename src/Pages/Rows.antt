-- ===== src/Pages/Rows.antt =====
-- Lists of rows: their lengths, their first rows and the rest, and their reverse.
use passport_scorer.Common.{
  length, filter, null, take, last?, length-append, length-filter-le, Text, ℕ, zero, suc, ◌≤◌, ◌≡◌,
  refl, sym, ap, ◌∙◌, Bool, false, some, List, [], ◌∷◌, ◌++◌, append-nil, append_assoc, arith,
}
use passport_scorer.Cache.{Row}
use passport_scorer.Pages.{insert_row, order_by, by_minus_id, is_listed, stamps_query, reverse}

abbrev pub drop : ℕ → List Row → List Row
drop zero rows = rows
drop (suc n) [] = []
drop (suc n) (r ∷ rows) = drop n rows

pub take-drop : (n : ℕ) (rows : List Row) → take n rows ++ drop n rows ≡ rows
take-drop zero rows = refl
take-drop (suc n) [] = refl
take-drop (suc n) (r ∷ rows) = ap (λ k. r ∷ k) (take-drop n rows)

pub length-drop : (n : ℕ) (rows : List Row) → length (drop n rows) ≤ length rows
length-drop zero rows = omega arith
length-drop (suc n) [] = omega arith
length-drop (suc n) (r ∷ rows) = omega (arith, length-drop n rows)

length-insert_row :
    (is_first : Row → Row → Bool) (r : Row) (rows : List Row)
    → length (insert_row is_first r rows) ≡ suc (length rows)
unfolding insert_row
length-insert_row is_first r [] = refl
length-insert_row is_first r (x ∷ rows) = ground (arith, length-insert_row is_first r rows)

length-order_by :
    (is_first : Row → Row → Bool) (rows : List Row) → length (order_by is_first rows) ≡ length rows
unfolding order_by
length-order_by is_first [] = refl
length-order_by is_first (r ∷ rows) =
    length-insert_row is_first r (order_by is_first rows) ∙ ap suc (length-order_by is_first rows)

pub length-stamps_query :
    (address : Text) (table : List Row) → length (stamps_query address table) ≤ length table
unfolding stamps_query
length-stamps_query address table =
    rw (length-order_by by_minus_id (filter (is_listed address) table))
      (length-filter-le (is_listed address) table)

-- A list that is not empty ends in some item.
pub last_split : (y : Row) (ys : List Row) → (ws : List Row) × (w : Row) × (y ∷ ys ≡ ws ++ w ∷ [])
last_split y [] = ([], y, refl)
last_split y (x ∷ ys) = let (ws, w, e) = last_split x ys in (y ∷ ws, w, ap (λ k. y ∷ k) e)

pub last?-append : (ws : List Row) (w : Row) → last? (ws ++ w ∷ []) ≡ some w
last?-append [] w = refl
last?-append (x ∷ []) w = refl
last?-append (x ∷ y ∷ ws) w = last?-append (y ∷ ws) w

pub reverse-append : (xs ys : List Row) → reverse (xs ++ ys) ≡ reverse ys ++ reverse xs
reverse-append [] ys = sym (append-nil (reverse ys))
reverse-append (x ∷ xs) ys =
    ap (λ k. k ++ x ∷ []) (reverse-append xs ys) ∙ append_assoc (reverse ys) (reverse xs) (x ∷ [])

pub reverse-reverse : (xs : List Row) → reverse (reverse xs) ≡ xs
reverse-reverse [] = refl
reverse-reverse (x ∷ xs) =
    reverse-append (reverse xs) (x ∷ []) ∙ ap (λ k. x ∷ k) (reverse-reverse xs)

pub length-reverse : (xs : List Row) → length (reverse xs) ≡ length xs
length-reverse [] = refl
length-reverse (x ∷ xs) = omega (arith, length-append (reverse xs) (x ∷ []), length-reverse xs)

pub take-append : (n : ℕ) (xs ys : List Row) → length xs ≡ n → take n (xs ++ ys) ≡ xs
take-append zero [] ys h = refl
take-append zero (x ∷ xs) ys h = absurd (omega arith)
take-append (suc n) [] ys h = absurd (omega arith)
take-append (suc n) (x ∷ xs) ys h = ap (λ k. x ∷ k) (take-append n xs ys (omega arith))

pub length-take_full :
    (n : ℕ) (rows : List Row) → null (drop n rows) ≡ false → length (take n rows) ≡ n
length-take_full zero rows h = refl
length-take_full (suc n) [] h = absurd (ground arith)
length-take_full (suc n) (r ∷ rows) h = ap suc (length-take_full n rows h)

pub null-snoc : (xs : List Row) (w : Row) → null (xs ++ w ∷ []) ≡ false
null-snoc [] w = refl
null-snoc (x ∷ xs) w = refl
