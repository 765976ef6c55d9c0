-- ===== src/Cursor.antt =====
-- Pagination by cursors (api/registry/utils.py): the condition that a cursor stands for, and the
-- order of the rows.
pub mod Order
mod Tests
use passport_scorer.Common.{
  ltb, leb, if◌then◌else◌, Text, Dict, lookup, ok_or, ◌>>=◌, ◌>>◌, Result, ok, ℕ, Bool, true, ◌&&◌,
  ◌||◌, Option, none, some, List, [], ◌∷◌, ◌++◌, map,
}

-- A condition of Django's: `q_empty` is `Q()`.
pub data Query : Type 0 where
  q_empty : Query
  q_gt : Text → ℕ → Query
  q_gte : Text → ℕ → Query
  q_lt : Text → ℕ → Query
  q_lte : Text → ℕ → Query
  q_and : Query → Query → Query
  q_or : Query → Query → Query

-- `p & q` and `p | q`: an empty condition gives way to the other.
unfoldable pub and_query : Query → Query → Query
and_query q_empty q = q
and_query p q_empty = p
and_query p q = q_and p q

unfoldable pub or_query : Query → Query → Query
or_query q_empty q = q
or_query p q_empty = p
or_query p q = q_or p q

-- Whether a row, its fields' values by name, is selected.
unfoldable pub selects : Query → (Text → ℕ) → Bool
selects q_empty row = true
selects (q_gt field v) row = ltb v (row field)
selects (q_gte field v) row = leb v (row field)
selects (q_lt field v) row = ltb (row field) v
selects (q_lte field v) row = leb (row field) v
selects (q_and p q) row = selects p row && selects q row
selects (q_or p q) row = selects p row || selects q row

-- A decoded cursor: whether `d` is "next", and the values of the fields that it has.
pub record Cursor : Type 0 where
  pub is_next : Bool
  pub fields : Dict ℕ

pub data Failure : Type 0 where
  key_error : Failure

abbrev strict : Bool → Text → ℕ → Query
strict is_next field v = if is_next then q_lt field v else q_gt field v

abbrev weak : Bool → Text → ℕ → Query
weak is_next field v = if is_next then q_lte field v else q_gte field v

-- The fields before the i-th, in `condition_for_or`.
unfoldable pub earlier_fields : Cursor → List Text → Query → Result Failure Query
unfolding and_query
earlier_fields cursor [] q = ok q
earlier_fields cursor (field ∷ fields) q = do
  v ← ok_or (lookup field cursor.fields) key_error
  earlier_fields cursor fields (and_query q (weak cursor.is_next field v))

-- `condition_for_or`, for a field with those before it
unfoldable pub condition_for_or : Cursor → List Text → Text → Result Failure Query
unfolding earlier_fields and_query
condition_for_or cursor before field = do
  q ← earlier_fields cursor before q_empty
  ok (elim (lookup field cursor.fields) [
    | none ↦ q
    | some v ↦ and_query q (strict cursor.is_next field v)
  ])

-- The loop over the fields.
unfoldable pub filter_condition : Cursor → List Text → List Text → Query → Result Failure Query
unfolding condition_for_or or_query
filter_condition cursor before [] q = ok q
filter_condition cursor before (field ∷ fields) q = do
  c ← condition_for_or cursor before field
  filter_condition cursor (before ++ field ∷ []) fields (or_query q c)

-- The order of a field: descending or not.
abbrev pub Ordering : Type 0
Ordering = List (Bool × Text)

-- `get_cursor_query_condition`
unfoldable pub get_cursor_query_condition :
    Option Cursor → List Text → Result Failure (Query × Ordering)
unfolding filter_condition
get_cursor_query_condition none sort_fields = ok (q_empty, map (λ f. (true, f)) sort_fields)
get_cursor_query_condition (some cursor) sort_fields = do
  q ← filter_condition cursor [] sort_fields q_empty
  ok (q, map (λ f. (cursor.is_next, f)) sort_fields)
