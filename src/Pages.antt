-- ===== src/Pages.antt =====
-- The pages of an account's stamps (`get_passport_stamps` in api/v2/api/api_stamps.py, and its twin
-- in api/registry/api/v1.py).
pub mod Segments
pub mod Rows
pub mod Requests
pub mod Follow
pub mod Forward
pub mod Back
mod Tests
use passport_scorer.Common.{
  ltb, leb, if◌then◌else◌, is_some, get_or, filter, null, take, head?, last?, pos_part, ℤ, pos,
  negsuc, Text, codes, text_eq, lower, truthy, ok_or, ◌>>=◌, ◌>>◌, raise_if, Result, err, ok, ℕ,
  Bool, not, ◌&&◌, Option, none, some, List, [], ◌∷◌, ◌++◌, map,
}
use passport_scorer.Cache.{Row, StampDoc, is_live}
use passport_scorer.Token.{Fields, Failure, CursorCodec}

pub data Problem : Type 0 where
  rate_limited : Problem
  invalid_limit : Problem
  invalid_address : Problem
  token_refused : Failure → Problem
  -- `filter(id__lt=None)`
  missing_id : Problem
  -- Django refuses a slice to a negative index.
  negative_slice : Problem

-- A request; an empty token is the one of the first page.
pub record Request : Type 0 where
  pub address : Text
  pub token : Text
  pub limit : ℤ
  pub include_metadata : Bool

-- The query of a link to another page.
pub record Link : Type 0 where
  pub address : Text
  pub token : Text
  pub limit : ℤ

pub record Item : Type 0 where
  pub credential : StampDoc
  pub metadata : Option Text

pub record Page : Type 0 where
  pub next : Option Link
  pub prev : Option Link
  pub items : List Item

-- `order_by`, where the test says which of two rows goes first
unfoldable pub insert_row : (Row → Row → Bool) → Row → List Row → List Row
insert_row is_first r [] = r ∷ []
insert_row is_first r (x ∷ xs) =
    let rest = insert_row is_first r xs in if is_first r x then r ∷ x ∷ xs else x ∷ rest

unfoldable pub order_by : (Row → Row → Bool) → List Row → List Row
unfolding insert_row
order_by is_first [] = []
order_by is_first (r ∷ rows) = insert_row is_first r (order_by is_first rows)

abbrev pub by_id : Row → Row → Bool
by_id r x = leb r.pk x.pk

abbrev pub by_minus_id : Row → Row → Bool
by_minus_id r x = leb x.pk r.pk

abbrev pub is_listed : Text → Row → Bool
is_listed address r = text_eq r.address address && is_live r

-- The rows of an account that are not deleted, the latest first.
unfoldable pub stamps_query : Text → List Row → List Row
unfolding order_by
stamps_query address table = order_by by_minus_id (filter (is_listed address) table)

abbrev pub reverse : List Row → List Row
reverse [] = []
reverse (r ∷ rows) = reverse rows ++ r ∷ []

abbrev pub older : ℕ → List Row → List Row
older id = filter (λ r. ltb r.pk id)

abbrev pub newer : ℕ → List Row → List Row
newer id = filter (λ r. ltb id r.pk)

-- `query[:limit]`
abbrev pub slice : ℤ → List Row → Result Problem (List Row)
slice (pos n) rows = ok (take n rows)
slice (negsuc n) rows = err negative_slice

abbrev pub points : Text → Fields → Bool
points direction cursor = is_some cursor.d && text_eq (get_or cursor.d []) direction

-- The rows of the page at a cursor.
unfoldable pub next_stamps : ℤ → List Row → Fields → Result Problem (List Row)
next_stamps limit query cursor = do id ← ok_or cursor.id missing_id; slice limit (older id query)

unfoldable pub prev_stamps : ℤ → List Row → Fields → Result Problem (List Row)
unfolding order_by
prev_stamps limit query cursor = do
  id ← ok_or cursor.id missing_id
  rows ← slice limit (order_by by_id (newer id query))
  ok (reverse rows)

unfoldable pub cache_stamps : ℤ → List Row → Fields → Result Problem (List Row)
unfolding next_stamps prev_stamps
cache_stamps limit query cursor =
    if points (codes "next") cursor
    then next_stamps limit query cursor
    else if points (codes "prev") cursor
    then prev_stamps limit query cursor
    else slice limit query

-- `metadata_for` is `fetch_stamp_metadata_for_provider`; `is_valid_address` rests on eth_utils.
module _ (codec : CursorCodec) (is_valid_address : Text → Bool)
    (metadata_for : Text → Option Text) where
  abbrev pub stamp_item : Bool → Row → Item
  stamp_item include_metadata r = record {
    credential = r.stamp;
    metadata = if include_metadata then metadata_for r.provider else none;
  }

  abbrev link_to : Text → ℤ → Text → ℕ → Link
  link_to address limit direction id = record {
    address = address;
    token = codec.encode (record { d = some direction; id = some id });
    limit = limit;
  }

  -- The link to a further page, if the query has rows beyond the given one.
  unfoldable pub next_link : Request → List Row → Option Row → Option Link
  next_link request query none = none
  next_link request query (some r) =
      if null (older r.pk query)
      then none
      else some (link_to (lower request.address) request.limit (codes "next") r.pk)

  unfoldable pub prev_link : Request → List Row → Option Row → Option Link
  prev_link request query none = none
  prev_link request query (some r) =
      if null (newer r.pk query)
      then none
      else some (link_to (lower request.address) request.limit (codes "prev") r.pk)

  unfoldable pub page_of : Request → List Row → List Row → Page
  unfolding next_link prev_link
  page_of request query rows = record {
    next = next_link request query (last? rows);
    prev = prev_link request query (head? rows);
    items = map (stamp_item request.include_metadata) rows;
  }

  -- `decode_cursor(token) if token else {}`
  unfoldable pub cursor_of : Text → Result Problem Fields
  cursor_of token =
      if truthy token
      then elim (codec.decode token) [ err e ↦ err (token_refused e) | ok cursor ↦ ok cursor ]
      else ok (record { d = none; id = none })

  -- The flag says whether `check_rate_limit` raises.
  unfoldable pub get_passport_stamps : Bool → Request → List Row → Result Problem Page
  unfolding cursor_of cache_stamps page_of stamps_query
  get_passport_stamps is_limited request table = do
    raise_if is_limited rate_limited
    raise_if (ltb 1000 (pos_part request.limit)) invalid_limit
    raise_if (not (is_valid_address (lower request.address))) invalid_address
    let query = stamps_query (lower request.address) table
    cursor ← cursor_of request.token
    rows ← cache_stamps request.limit query cursor
    ok (page_of request query rows)
