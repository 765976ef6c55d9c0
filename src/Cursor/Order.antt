-- ===== src/Cursor/Order.antt =====
-- The condition of a cursor is the lexicographic order (`get_cursor_query_condition` in
-- api/registry/utils.py).
use passport_scorer.Common.{
  ltb, leb, ◌==◌, if◌then◌else◌, All, null, All-append, Text, Dict, lookup, keys, keys-append, ok,
  ℕ, ◌+◌, ◌≡◌, refl, sym, ◌∙◌, subst, Bool, true, false, not, ◌&&◌, ◌||◌, some, [], ◌∷◌, ◌++◌, map,
  arith,
}
use passport_scorer.Cursor.{
  Query, Cursor, q_empty, and_query, or_query, selects, strict, weak, earlier_fields,
  condition_for_or, filter_condition, get_cursor_query_condition,
}

-- The row comes after the cursor's row, in the direction of the pages: at the first field where
-- they differ, its value is smaller for the next pages and larger for the previous.
unfoldable pub is_beyond : Bool → (Text → ℕ) → Dict ℕ → Bool
is_beyond is_next row [] = false
is_beyond is_next row ((field, v) ∷ fields) =
    (if is_next then ltb (row field) v else ltb v (row field))
    || (row field == v && is_beyond is_next row fields)

-- No value of the row is on the wrong side of the cursor's.
within : Bool → (Text → ℕ) → Dict ℕ → Bool
within is_next row [] = true
within is_next row ((field, v) ∷ fields) =
    (if is_next then leb (row field) v else leb v (row field)) && within is_next row fields

-- The cursor has the values of the fields.
abbrev pub Reads : Cursor → Dict ℕ → Type 0
Reads cursor = All (λ e. lookup e.0 cursor.fields ≡ some e.1)

selects-and_query :
    (p q : Query) (row : Text → ℕ) → selects (and_query p q) row ≡ (selects p row && selects q row)
unfolding and_query selects
selects-and_query q_empty q row = refl
selects-and_query p q_empty row = ground arith
selects-and_query p q row = refl

-- An empty condition counts for nothing among alternatives.
value : Query → (Text → ℕ) → Bool
value q_empty row = false
value q row = selects q row

is_filled : Query → Bool
is_filled q_empty = false
is_filled q = true

value-filled : (q : Query) (row : Text → ℕ) → is_filled q ≡ true → value q row ≡ selects q row
unfolding value is_filled
value-filled q_empty row h = cc
value-filled q row h = refl

value-or_query :
    (p q : Query) (row : Text → ℕ)
    → (value (or_query p q) row ≡ (value p row || value q row))
      × (is_filled (or_query p q) ≡ (is_filled p || is_filled q))
unfolding or_query value is_filled selects
value-or_query q_empty q row = (refl, refl)
value-or_query p q_empty row = ground arith
value-or_query p q row = ground arith

strict-filled :
    (is_next : Bool) (field : Text) (v : ℕ) (q : Query)
    → is_filled (and_query q (strict is_next field v)) ≡ true
unfolding and_query is_filled
strict-filled true field v q_empty = refl
strict-filled false field v q_empty = refl
strict-filled true field v q = refl
strict-filled false field v q = refl

abbrev test : Bool → ℕ → ℕ → Bool
test is_next x v = if is_next then ltb x v else ltb v x

abbrev weak_test : Bool → ℕ → ℕ → Bool
weak_test is_next x v = if is_next then leb x v else leb v x

selects-strict :
    (is_next : Bool) (field : Text) (v : ℕ) (row : Text → ℕ)
    → selects (strict is_next field v) row ≡ test is_next (row field) v
unfolding selects
selects-strict true field v row = refl
selects-strict false field v row = refl

selects-weak :
    (is_next : Bool) (field : Text) (v : ℕ) (row : Text → ℕ)
    → selects (weak is_next field v) row ≡ weak_test is_next (row field) v
unfolding selects
selects-weak true field v row = refl
selects-weak false field v row = refl

within-snoc :
    (is_next : Bool) (row : Text → ℕ) (es : Dict ℕ) (field : Text) (v : ℕ)
    → within is_next row (es ++ (field, v) ∷ [])
      ≡ (within is_next row es && weak_test is_next (row field) v)
unfolding within
within-snoc is_next row [] field v = ground arith
within-snoc is_next row ((f, x) ∷ es) field v = ground (arith, within-snoc is_next row es field v)

module _ (cursor : Cursor) (row : Text → ℕ) where
  abbrev next : Bool
  next = cursor.is_next

  earlier_fields_lem :
      (es : Dict ℕ) (q : Query)
      → Reads cursor es
      → (q' : Query) × (earlier_fields cursor (keys es) q ≡ ok q')
        × (selects q' row ≡ (selects q row && within next row es))
  unfolding earlier_fields within
  earlier_fields_lem [] q h = (q, refl, ground arith)
  earlier_fields_lem ((field, v) ∷ es) q h =
      let (q', run, value') = earlier_fields_lem es (and_query q (weak next field v)) h.1 in
      (
        q',
        rw (h.0, earlier_fields) run,
        ground (
          arith,
          value',
          selects-and_query q (weak next field v) row,
          selects-weak next field v row,
        ),
      )

  condition_for_or_lem :
      (es : Dict ℕ) (field : Text) (v : ℕ)
      → Reads cursor es
      → lookup field cursor.fields ≡ some v
      → (q : Query) × (condition_for_or cursor (keys es) field ≡ ok q)
        × (value q row ≡ (within next row es && test next (row field) v))
        × (is_filled q ≡ true)
  unfolding condition_for_or selects
  condition_for_or_lem es field v h e =
      let (q, run, value') = earlier_fields_lem es q_empty h in
      let c = and_query q (strict next field v) in
      (
        c,
        rw (run, e) refl,
        value-filled c row (strict-filled next field v q)
            ∙ (selects-and_query q (strict next field v) row
                ∙ ground (arith, value', selects-strict next field v row)),
        strict-filled next field v q,
      )

  filter_condition_lem :
      (bs es : Dict ℕ) (q : Query)
      → Reads cursor bs
      → Reads cursor es
      → (q' : Query) × (filter_condition cursor (keys bs) (keys es) q ≡ ok q')
        × (value q' row ≡ (value q row || (within next row bs && is_beyond next row es)))
        × (is_filled q' ≡ (is_filled q || not (null es)))
  unfolding filter_condition is_beyond
  filter_condition_lem bs [] q g h = (q, refl, ground arith, ground arith)
  filter_condition_lem bs ((field, v) ∷ es) q g h =
      let (c, made, value_c, filled_c) = condition_for_or_lem bs field v g h.0 in
      let bs' = bs ++ (field, v) ∷ [] in
      let g' : Reads cursor bs' =
        All-append (λ e. lookup e.0 cursor.fields ≡ some e.1) bs ((field, v) ∷ []) g (h.0, tt) in
      let (q', run, value', filled') = filter_condition_lem bs' es (or_query q c) g' h.1 in
      let (value_or, filled_or) = value-or_query q c row in
      (
        q',
        rw (made, filter_condition)
            (subst (λ ks. filter_condition cursor ks (keys es) (or_query q c) ≡ ok q')
              (keys-append bs ((field, v) ∷ [])) run),
        ground (arith, value', value_or, value_c, within-snoc next row bs field v),
        ground (arith, filled', filled_or, filled_c),
      )

-- For a cursor with the values of one or more sort fields, the condition is there, and it selects
-- the rows that come after the cursor's in the lexicographic order of these fields, descending for
-- the next pages and ascending for the previous; the rows are sorted in that same direction.
pub get_cursor_query_condition_lem :
    (cursor : Cursor) (e : Text × ℕ) (es : Dict ℕ) (row : Text → ℕ)
    → Reads cursor (e ∷ es)
    → (q : Query) × (get_cursor_query_condition (some cursor) (keys (e ∷ es))
        ≡ ok (q, map (λ f. (cursor.is_next, f)) (keys (e ∷ es))))
      × (selects q row ≡ is_beyond cursor.is_next row (e ∷ es))
unfolding get_cursor_query_condition is_filled is_beyond value within
get_cursor_query_condition_lem cursor e es row h =
    let (q, run, value', filled) = filter_condition_lem cursor row [] (e ∷ es) q_empty tt h in
    (q, rw run refl, sym (value-filled q row filled) ∙ value')

-- The row has the cursor's values.
unfoldable pub is_at : (Text → ℕ) → Dict ℕ → Bool
is_at row [] = true
is_at row ((field, v) ∷ fields) = row field == v && is_at row fields

abbrev pub one_if : Bool → ℕ
one_if b = if b then 1 else 0

is_beyond-one :
    (row : Text → ℕ) (es : Dict ℕ)
    → one_if (is_beyond true row es) + one_if (is_beyond false row es) + one_if (is_at row es) ≡ 1
unfolding is_beyond is_at
is_beyond-one row [] = refl
is_beyond-one row ((field, v) ∷ es) = ground (arith, is_beyond-one row es)

abbrev RunsTo : Cursor → Text × ℕ → Dict ℕ → Query → Bool → Type 0
RunsTo cursor e es q is_next =
    get_cursor_query_condition (some cursor) (keys (e ∷ es))
    ≡ ok (q, map (λ f. (is_next, f)) (keys (e ∷ es)))

-- For a cursor for the next pages and one for the previous with the same values, every row is
-- selected by exactly one of the two conditions, or has just the cursor's values.
pub get_cursor_query_condition-one :
    (onward back : Cursor) (e : Text × ℕ) (es : Dict ℕ) (row : Text → ℕ)
    → onward.is_next ≡ true
    → back.is_next ≡ false
    → Reads onward (e ∷ es)
    → Reads back (e ∷ es)
    → (q p : Query) × (get_cursor_query_condition (some onward) (keys (e ∷ es))
        ≡ ok (q, map (λ f. (true, f)) (keys (e ∷ es))))
      × (get_cursor_query_condition (some back) (keys (e ∷ es))
          ≡ ok (p, map (λ f. (false, f)) (keys (e ∷ es))))
      × (one_if (selects q row) + one_if (selects p row) + one_if (is_at row (e ∷ es)) ≡ 1)
get_cursor_query_condition-one onward back e es row hn hp gn gp =
    let (q, run, sel) = get_cursor_query_condition_lem onward e es row gn in
    let (p, run', sel') = get_cursor_query_condition_lem back e es row gp in
    (
      q,
      p,
      subst (RunsTo onward e es q) hn run,
      subst (RunsTo back e es p) hp run',
      rw (sel, sel', hn, hp) (is_beyond-one row (e ∷ es)),
    )
