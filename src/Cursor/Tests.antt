-- ===== src/Cursor/Tests.antt =====
-- Runs of the cursors' condition.
use passport_scorer.Common.{
  if◌then◌else◌, Text, codes, text_eq, err, ok, ℕ, ◌≡◌, refl, Bool, true, some, [], ◌∷◌,
}
use passport_scorer.Cursor.{Query, Cursor, selects, key_error, get_cursor_query_condition}
use passport_scorer.Cursor.Order.{is_beyond, get_cursor_query_condition_lem}

abbrev at : Bool → Cursor
at is_next = record { is_next = is_next; fields = (codes "id", 5) ∷ (codes "time", 9) ∷ [] }

abbrev row : Text → ℕ
row field = if text_eq field (codes "id") then 5 else 8

-- A cursor that lacks the first field of two fails.
lacks_field :
    get_cursor_query_condition
      (some (record { is_next = true; fields = (codes "id", 5) ∷ [] }))
      (codes "time" ∷ codes "id" ∷ [])
    ≡ err key_error
unfolding get_cursor_query_condition text_eq
lacks_field = refl

get_cursor_query_condition_example :
    (q : Query) × (get_cursor_query_condition (some (at true)) (codes "time" ∷ codes "id" ∷ [])
      ≡ ok (q, (true, codes "time") ∷ (true, codes "id") ∷ []))
    × (selects q row ≡ is_beyond true row ((codes "time", 9) ∷ (codes "id", 5) ∷ []))
unfolding text_eq
get_cursor_query_condition_example =
    get_cursor_query_condition_lem (at true) (codes "time", 9) ((codes "id", 5) ∷ []) row
      (refl, (refl, tt))
