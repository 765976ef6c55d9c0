-- ===== src/Pages/Forward.antt =====
-- The requests for the first page and for next pages, and the links back
-- (`get_passport_stamps` in api/v2/api/api_stamps.py).
use passport_scorer.Common.{
  ltb, ltb→lt, Bool-cases, length, All, take, head?, last?, pos, codes, text_eq, lower, lower-lower,
  ok, ℕ, suc, ◌<◌, ◌≡◌, refl, ap, ◌∙◌, inl, inr, false, Option, none, some, List, [], ◌∷◌, ◌++◌,
  arith,
}
use passport_scorer.Cache.{Row}
use passport_scorer.Pages.{
  Request, stamps_query, reverse, older, next_link, prev_link, page_of, cache_stamps,
}
use passport_scorer.Pages.Segments.{
  IsDistinct, IsDescending, IsDescending-left, newer-middle, order_by-reverse,
  stamps_query-IsDescending,
}
use passport_scorer.Pages.Rows.{
  reverse-append, reverse-reverse, length-reverse, take-append, null-snoc,
}
use passport_scorer.Pages.Requests.{
  Setting, request_of, ask, first_request, link_beyond, as_page, first_request-page,
  next_request-page,
}

older-whole :
    (id pk : ℕ) (rows : List Row) → pk < id → All (λ x. x.pk < pk) rows → older id rows ≡ rows
older-whole id pk [] h down = refl
older-whole id pk (r ∷ rows) h down = ground (arith, older-whole id pk rows h down.1, down.0)

-- What is older than an id is the rest of a descending list.
pub older-split :
    (id : ℕ) (rows : List Row) → IsDescending rows → (xs : List Row) × (rows ≡ xs ++ older id rows)
older-split id [] down = ([], refl)
older-split id (r ∷ rows) down =
    let (xs, e) = older-split id rows down.1 in
    elim (Bool-cases (ltb r.pk id)) [
      | inl h ↦ ([], rw (h, older-whole id r.pk rows (ltb→lt r.pk id h) down.0) refl)
      | inr h ↦ (r ∷ xs, rw h (ap (λ k. r ∷ k) e))
    ]

-- The page before a row that as many rows precede as a page has
pub prev_stamps-page :
    (n : ℕ) (xs rows : List Row) (z : Row) (zs : List Row)
    → IsDescending ((xs ++ rows) ++ z ∷ zs)
    → length rows ≡ n
    → cache_stamps
        (pos n)
        ((xs ++ rows) ++ z ∷ zs)
        (record { d = some (codes "prev"); id = some z.pk })
      ≡ ok rows
unfolding cache_stamps text_eq
prev_stamps-page n xs rows z zs down full =
    rw
      (
        newer-middle (xs ++ rows) z zs down,
        order_by-reverse (xs ++ rows) (IsDescending-left (xs ++ rows) (z ∷ zs) down),
        reverse-append xs rows,
        take-append n (reverse rows) (reverse xs) (length-reverse rows ∙ full),
      )
      (ap ok (reverse-reverse rows))

module _ (s : Setting) where
  -- The requests for the first page and for links to next pages.
  pub data IsForward : Request → Type 0 where
    is_first : IsForward (first_request s false)
    is_next : (id : ℕ) → IsForward (request_of (link_beyond s (codes "next") id))

  -- What such a request is answered with.
  abbrev pub Forward : Request → List Row → Type 0
  Forward request table =
      (xs : List Row) × (ys : List Row) × (stamps_query (lower s.address) table ≡ xs ++ ys)
      × (ask s request table
          ≡ ok (as_page s request (stamps_query (lower s.address) table) (take (suc s.size) ys)))
      × (lower request.address ≡ lower s.address)
      × (request.limit ≡ pos (suc s.size))
      × (request.include_metadata ≡ false)

  pub IsForward-Forward :
      {request : Request} (table : List Row)
      → IsDistinct table
      → IsForward request
      → Forward request table
  IsForward-Forward table distinct is_first = (
    [],
    stamps_query (lower s.address) table,
    refl,
    first_request-page s false table,
    refl,
    refl,
    refl,
  )
  IsForward-Forward table distinct (is_next id) =
      let q = stamps_query (lower s.address) table in
      let (xs, e) = older-split id q (stamps_query-IsDescending (lower s.address) table distinct) in
      (xs, older id q, e, next_request-page s id table, lower-lower s.address, refl, refl)

  -- The link from a page back to the one before it.
  pub prev_link-middle :
      (request : Request) (us : List Row) (w z : Row) (zs : List Row)
      → IsDescending ((us ++ w ∷ []) ++ z ∷ zs)
      → lower request.address ≡ lower s.address
      → request.limit ≡ pos (suc s.size)
      → (prev_link s.codec s.is_valid_address s.metadata_for request
            ((us ++ w ∷ []) ++ z ∷ zs)
            (some z)
          ≡ some (link_beyond s (codes "prev") z.pk))
  unfolding prev_link
  prev_link-middle request us w z zs down same limit =
      rw (newer-middle (us ++ w ∷ []) z zs down, null-snoc us w, same, limit) refl

  next_link-same :
      (request request' : Request) (query : List Row) (o : Option Row)
      → lower request.address ≡ lower request'.address
      → request.limit ≡ request'.limit
      → next_link s.codec s.is_valid_address s.metadata_for request query o
        ≡ next_link s.codec s.is_valid_address s.metadata_for request' query o
  unfolding next_link
  next_link-same request request' query none a b = refl
  next_link-same request request' query (some r) a b = rw (a, b) refl

  prev_link-same :
      (request request' : Request) (query : List Row) (o : Option Row)
      → lower request.address ≡ lower request'.address
      → request.limit ≡ request'.limit
      → prev_link s.codec s.is_valid_address s.metadata_for request query o
        ≡ prev_link s.codec s.is_valid_address s.metadata_for request' query o
  unfolding prev_link
  prev_link-same request request' query none a b = refl
  prev_link-same request request' query (some r) a b = rw (a, b) refl

  -- A page depends on its request only by the address in lower case, the limit and the flag.
  pub as_page-same :
      (request request' : Request) (query rows : List Row)
      → lower request.address ≡ lower request'.address
      → request.limit ≡ request'.limit
      → request.include_metadata ≡ request'.include_metadata
      → as_page s request query rows ≡ as_page s request' query rows
  unfolding page_of
  as_page-same request request' query rows a b c =
      rw
        (
          next_link-same request request' query (last? rows) a b,
          prev_link-same request request' query (head? rows) a b,
          c,
        )
        refl
