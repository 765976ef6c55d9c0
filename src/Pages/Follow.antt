-- ===== src/Pages/Follow.antt =====
-- Following the links of the pages from the first (`get_passport_stamps` in
-- api/v2/api/api_stamps.py).
use passport_scorer.Common.{
  length, filter, null, take, pos, codes, lower, lower-lower, Result, err, ok, ℕ, zero, suc, ◌<◌,
  ◌≡◌, refl, sym, ap, ◌∙◌, subst, Bool, false, Option, none, some, List, [], ◌∷◌, ◌++◌, map,
  map-append, append-nil, append_assoc, arith,
}
use passport_scorer.Cache.{Row, StampDoc}
use passport_scorer.Pages.{
  Problem, stamp_item, Request, Link, Page, is_listed, stamps_query, older, page_of,
}
use passport_scorer.Pages.Segments.{
  IsDistinct, IsDescending, has_pk, older-middle, stamps_query-IsDescending, stamps_query-has_pk,
}
use passport_scorer.Pages.Rows.{
  drop, take-drop, length-drop, length-stamps_query, last_split, last?-append,
}
use passport_scorer.Pages.Requests.{
  Setting, request_of, ask, first_request, link_beyond, as_page, first_request-page,
  next_request-page, next_link-middle,
}

module _ (s : Setting) where
  -- What the client has after a page, if it goes on to the page of its link.
  abbrev go_on : (Link → Option (List StampDoc)) → Result Problem Page → Option (List StampDoc)
  go_on next (err e) = none
  go_on next (ok page) = elim page.next [
    | none ↦ some (map (λ i. i.credential) page.items)
    | some link ↦ elim (next link) [
      | none ↦ none
      | some rest ↦ some (map (λ i. i.credential) page.items ++ rest)
    ]
  ]

  -- The stamps of a page and of all pages after it; none if a request fails or the number of
  -- requests is not enough.
  unfoldable pub follow : ℕ → Request → List Row → Option (List StampDoc)
  follow zero request table = none
  follow (suc n) request table =
      go_on (λ link. follow n (request_of link) table) (ask s request table)

  credentials :
      (m : Bool) (rows : List Row)
      → map (λ i. i.credential) (map (stamp_item s.codec s.is_valid_address s.metadata_for m) rows)
        ≡ map (λ r. r.stamp) rows
  credentials m [] = refl
  credentials m (r ∷ rows) = ap (λ k. r.stamp ∷ k) (credentials m rows)

  -- A page that ends in a row, and what the client has of the rows after it.
  follow-page :
      (n : ℕ) (request : Request) (table us ws : List Row) (w : Row) (zs : List Row)
      → (stamps_query (lower s.address) table ≡ us ++ w ∷ zs)
      → IsDescending (us ++ w ∷ zs)
      → lower request.address ≡ lower s.address
      → request.limit ≡ pos (suc s.size)
      → (ask s request table
          ≡ ok (as_page s request (stamps_query (lower s.address) table) (ws ++ w ∷ [])))
      → (null zs ≡ false
          → follow n (request_of (link_beyond s (codes "next") w.pk)) table
            ≡ some (map (λ r. r.stamp) zs))
      → follow (suc n) request table ≡ some (map (λ r. r.stamp) ((ws ++ w ∷ []) ++ zs))
  unfolding follow page_of
  follow-page n request table us ws w [] is_query down same limit page later =
      let link = next_link-middle s request us w [] down same limit in
      rw (page, is_query, last?-append ws w, link, append-nil (ws ++ w ∷ []))
        (ap some (credentials request.include_metadata (ws ++ w ∷ [])))
  follow-page n request table us ws w (z ∷ zs) is_query down same limit page later =
      let link = next_link-middle s request us w (z ∷ zs) down same limit in
      rw (page, is_query, last?-append ws w, link, later refl)
        (ap some (
          ap (λ k. k ++ map (λ r. r.stamp) (z ∷ zs))
            (credentials request.include_metadata (ws ++ w ∷ []))
          ∙ sym (map-append (λ r. r.stamp) (ws ++ w ∷ []) (z ∷ zs))))

  -- A request for the page that starts after some of the rows.
  follow-after :
      (fuel : ℕ) (request : Request) (table xs ys : List Row)
      → stamps_query (lower s.address) table ≡ xs ++ ys
      → IsDescending (xs ++ ys)
      → lower request.address ≡ lower s.address
      → request.limit ≡ pos (suc s.size)
      → (ask s request table
          ≡ ok (as_page s request (stamps_query (lower s.address) table) (take (suc s.size) ys)))
      → length ys < fuel
      → follow fuel request table ≡ some (map (λ r. r.stamp) ys)
  unfolding follow page_of
  follow-after zero request table xs ys is_query down same limit page enough = absurd (omega arith)
  follow-after (suc n) request table xs [] is_query down same limit page enough = rw page refl
  follow-after (suc n) request table xs (y ∷ ys) is_query down same limit page enough =
      let (ws, w, is_page) = last_split y (take s.size ys) in
      let zs = drop s.size ys in
      let whole : y ∷ ys ≡ (ws ++ w ∷ []) ++ zs =
        sym (ap (λ k. y ∷ k) (take-drop s.size ys)) ∙ ap (λ k. k ++ zs) is_page in
      let cut : y ∷ ys ≡ ws ++ w ∷ zs = whole ∙ append_assoc ws (w ∷ []) zs in
      let middle : xs ++ y ∷ ys ≡ (xs ++ ws) ++ w ∷ zs =
        ap (λ k. xs ++ k) cut ∙ sym (append_assoc xs ws (w ∷ zs)) in
      let after : xs ++ y ∷ ys ≡ ((xs ++ ws) ++ w ∷ []) ++ zs =
        middle ∙ sym (append_assoc (xs ++ ws) (w ∷ []) zs) in
      let older_rows : older w.pk (stamps_query (lower s.address) table) ≡ zs =
        ap (older w.pk) (is_query ∙ middle)
        ∙ older-middle (xs ++ ws) w zs (subst IsDescending middle down) in
      let short = length-drop s.size ys in
      subst (λ k. follow (suc n) request table ≡ some (map (λ r. r.stamp) k)) (sym whole)
        (follow-page n request table (xs ++ ws) ws w zs (is_query ∙ middle)
          (subst IsDescending middle down) same limit
          (page ∙ ap (λ k. ok (as_page s request (stamps_query (lower s.address) table) k)) is_page)
          (λ _.
            follow-after n (request_of (link_beyond s (codes "next") w.pk)) table
              ((xs ++ ws) ++ w ∷ []) zs (is_query ∙ after) (subst IsDescending after down)
              (lower-lower s.address) refl
              (next_request-page s w.pk table
                ∙ ap
                    (λ k. ok (
                      as_page s (request_of (link_beyond s (codes "next") w.pk))
                        (stamps_query (lower s.address) table) (take (suc s.size) k)))
                    older_rows)
              (omega (arith, short, enough))))

  -- Where the ids of the table are distinct, the address is valid and the limit is from 1 to 1000:
  -- a client that asks for the first page and follows the links to the next page comes to the last
  -- page after no more requests than the table has rows, and one; what it then has is the stamps of
  -- all rows of the account that are not deleted, each row just once, in descending order of ids.
  pub follow_complete :
      (table : List Row) (include_metadata : Bool) (fuel : ℕ)
      → IsDistinct table
      → length table < fuel
      → (rows : List Row) × (follow fuel (first_request s include_metadata) table
          ≡ some (map (λ r. r.stamp) rows))
        × IsDescending rows
        × ((id : ℕ)
            → filter (has_pk id) rows
              ≡ filter (has_pk id) (filter (is_listed (lower s.address)) table))
  follow_complete table m fuel distinct enough =
      let q = stamps_query (lower s.address) table in
      let down = stamps_query-IsDescending (lower s.address) table distinct in
      let short = length-stamps_query (lower s.address) table in
      (
        q,
        follow-after fuel (first_request s m) table [] q refl down refl refl
            (first_request-page s m table) (omega (arith, short, enough)),
        down,
        λ id. stamps_query-has_pk id (lower s.address) table,
      )
