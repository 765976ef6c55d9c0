-- ===== src/Pages/Requests.antt =====
-- Requests for pages, and what they are answered with (`get_passport_stamps` in
-- api/v2/api/api_stamps.py).
use passport_scorer.Common.{
  ltb, if◌then◌else◌, null, take, pos, Text, codes, text_eq, lower, lower-lower, Result, ok, ℕ, suc,
  ◌≤◌, ◌≡◌, refl, Bool, true, false, Option, none, some, List, [], ◌∷◌, ◌++◌, arith,
}
use passport_scorer.Cache.{Row}
use passport_scorer.Token.{Fields, CursorCodec}
use passport_scorer.Pages.{
  Problem, Request, Link, Page, stamps_query, older, cache_stamps, link_to, next_link, page_of,
  cursor_of, get_passport_stamps,
}
use passport_scorer.Pages.Segments.{IsDescending, older-middle}

-- Requests for pages of at most a thousand rows that are valid and not limited.
pub record Setting : Type 0 where
  pub codec : CursorCodec
  pub is_valid_address : Text → Bool
  pub metadata_for : Text → Option Text
  pub address : Text
  pub size : ℕ
  pub is_valid : is_valid_address (lower address) ≡ true
  pub is_allowed : suc size ≤ 1000

-- A client's request for a link.
abbrev pub request_of : Link → Request
request_of link = record {
  address = link.address;
  token = link.token;
  limit = link.limit;
  include_metadata = false;
}

module _ (s : Setting) where
  abbrev pub ask : Request → List Row → Result Problem Page
  ask request table =
      get_passport_stamps s.codec s.is_valid_address s.metadata_for false request table

  abbrev pub first_request : Bool → Request
  first_request include_metadata = record {
    address = s.address;
    token = [];
    limit = pos (suc s.size);
    include_metadata = include_metadata;
  }

  -- The link from a page to the one beyond an id.
  abbrev pub link_beyond : Text → ℕ → Link
  link_beyond direction id =
      link_to s.codec s.is_valid_address s.metadata_for (lower s.address) (pos (suc s.size))
        direction id

  abbrev pub as_page : Request → List Row → List Row → Page
  as_page request query rows = page_of s.codec s.is_valid_address s.metadata_for request query rows

  size-allowed : ltb 1000 (suc s.size) ≡ false
  size-allowed = let h = s.is_allowed in ground (arith, h)

  cursor_of-encode :
      (fields : Fields)
      → cursor_of s.codec s.is_valid_address s.metadata_for (s.codec.encode fields) ≡ ok fields
  unfolding cursor_of
  cursor_of-encode fields = rw (s.codec.encode-truthy fields, s.codec.decode-encode fields) refl

  pub first_request-page :
      (m : Bool) (table : List Row)
      → ask (first_request m) table
        ≡ ok (
            as_page
              (first_request m)
              (stamps_query (lower s.address) table)
              (take (suc s.size) (stamps_query (lower s.address) table)))
  unfolding get_passport_stamps
  first_request-page m table = rw (size-allowed, s.is_valid) refl

  -- The answer to a link is the page of the rows that its cursor finds.
  pub link_beyond-page :
      (direction : Text) (id : ℕ) (table : List Row) {rows : List Row}
      → (cache_stamps
            (pos (suc s.size))
            (stamps_query (lower s.address) table)
            (record { d = some direction; id = some id })
          ≡ ok rows)
      → ask (request_of (link_beyond direction id)) table
        ≡ ok (
            as_page
              (request_of (link_beyond direction id))
              (stamps_query (lower s.address) table)
              rows)
  unfolding get_passport_stamps
  link_beyond-page direction id table found =
      rw
        (
          size-allowed,
          lower-lower s.address,
          s.is_valid,
          cursor_of-encode (record { d = some direction; id = some id }),
          found,
        )
        refl

  pub next_request-page :
      (id : ℕ) (table : List Row)
      → ask (request_of (link_beyond (codes "next") id)) table
        ≡ ok (
            as_page
              (request_of (link_beyond (codes "next") id))
              (stamps_query (lower s.address) table)
              (take (suc s.size) (older id (stamps_query (lower s.address) table))))
  unfolding cache_stamps text_eq
  next_request-page id table = link_beyond-page (codes "next") id table refl

  -- The link beyond a row of the query.
  pub next_link-middle :
      (request : Request) (us : List Row) (w : Row) (zs : List Row)
      → IsDescending (us ++ w ∷ zs)
      → lower request.address ≡ lower s.address
      → request.limit ≡ pos (suc s.size)
      → (next_link s.codec s.is_valid_address s.metadata_for request (us ++ w ∷ zs) (some w)
          ≡ (if null zs then none else some (link_beyond (codes "next") w.pk)))
  unfolding next_link
  next_link-middle request us w zs down same limit =
      rw (older-middle us w zs down, same, limit) refl
