-- ===== src/Pages/Back.antt =====
-- Going to the next page and back (`get_passport_stamps` in api/v2/api/api_stamps.py).
use passport_scorer.Common.{
  if◌then◌else◌, length, null, take, pos, codes, lower, lower-lower, ok, suc, ◌≡◌, refl, sym, ap,
  ◌∙◌, subst, false, none, some, List, [], ◌∷◌, ◌++◌, append-nil, append_assoc,
}
use passport_scorer.Cache.{Row}
use passport_scorer.Pages.{Request, Link, Page, stamps_query, older, page_of, cache_stamps}
use passport_scorer.Pages.Segments.{
  IsDistinct, IsDescending, older-middle, stamps_query-IsDescending,
}
use passport_scorer.Pages.Rows.{drop, take-drop, last_split, last?-append, length-take_full}
use passport_scorer.Pages.Requests.{
  Setting, request_of, ask, link_beyond, as_page, next_request-page, link_beyond-page,
  next_link-middle,
}
use passport_scorer.Pages.Forward.{
  IsForward, IsForward-Forward, prev_link-middle, prev_stamps-page, as_page-same,
}

module _ (s : Setting) where
  abbrev pub GoesBack : List Row → Page → Link → Type 0
  GoesBack table page link =
      (next_page : Page) × (back : Link) × (ask s (request_of link) table ≡ ok next_page)
      × (next_page.prev ≡ some back)
      × (ask s (request_of back) table ≡ ok page)

  -- The link of a page of rows in the middle of the query.
  page-next :
      (request : Request) (q us ws : List Row) (w : Row) (zs : List Row)
      → (q ≡ us ++ w ∷ zs)
      → IsDescending (us ++ w ∷ zs)
      → lower request.address ≡ lower s.address
      → request.limit ≡ pos (suc s.size)
      → ((as_page s request q (ws ++ w ∷ [])).next
          ≡ (if null zs then none else some (link_beyond s (codes "next") w.pk)))
  unfolding page_of
  page-next request q us ws w zs is_query down same limit =
      rw (is_query, last?-append ws w) (next_link-middle s request us w zs down same limit)

  -- The page after such a page, which is full, leads back.
  full_page-GoesBack :
      (request : Request) (table us ws : List Row) (w z : Row) (zs : List Row)
      → (stamps_query (lower s.address) table ≡ (us ++ (ws ++ w ∷ [])) ++ z ∷ zs)
      → IsDescending ((us ++ (ws ++ w ∷ [])) ++ z ∷ zs)
      → lower request.address ≡ lower s.address
      → request.limit ≡ pos (suc s.size)
      → request.include_metadata ≡ false
      → length (ws ++ w ∷ []) ≡ suc s.size
      → GoesBack table
          (as_page s request (stamps_query (lower s.address) table) (ws ++ w ∷ []))
          (link_beyond s (codes "next") w.pk)
  unfolding page_of
  full_page-GoesBack request table us ws w z zs is_query down same limit plain full =
      let q = stamps_query (lower s.address) table in
      let r1 = request_of (link_beyond s (codes "next") w.pk) in
      let r2 = request_of (link_beyond s (codes "prev") z.pk) in
      let by_w : (us ++ (ws ++ w ∷ [])) ++ z ∷ zs ≡ (us ++ ws) ++ w ∷ z ∷ zs =
        ap (λ k. k ++ z ∷ zs) (sym (append_assoc us ws (w ∷ [])))
        ∙ append_assoc (us ++ ws) (w ∷ []) (z ∷ zs) in
      let by_z : (us ++ (ws ++ w ∷ [])) ++ z ∷ zs ≡ ((us ++ ws) ++ w ∷ []) ++ z ∷ zs =
        ap (λ k. k ++ z ∷ zs) (sym (append_assoc us ws (w ∷ []))) in
      let older_rows : older w.pk q ≡ z ∷ zs =
        ap (older w.pk) (is_query ∙ by_w)
        ∙ older-middle (us ++ ws) w (z ∷ zs) (subst IsDescending by_w down) in
      (
        as_page s r1 q (take (suc s.size) (z ∷ zs)),
        link_beyond s (codes "prev") z.pk,
        next_request-page s w.pk table
            ∙ ap (λ k. ok (as_page s r1 q (take (suc s.size) k))) older_rows,
        rw (is_query, by_z)
            (prev_link-middle s r1 (us ++ ws) w z zs (subst IsDescending by_z down)
              (lower-lower s.address) refl),
        link_beyond-page s (codes "prev") z.pk table (
              ap
                (λ k.
                  cache_stamps (pos (suc s.size)) k
                    (record { d = some (codes "prev"); id = some z.pk }))
                is_query
              ∙ prev_stamps-page (suc s.size) us (ws ++ w ∷ []) z zs down full)
            ∙ ap ok (
                as_page-same s r2 request q (ws ++ w ∷ []) (lower-lower s.address ∙ sym same)
                  (sym limit) (sym plain)),
      )

  -- A page of rows in the middle of the query, which are as many as a page has if rows follow.
  page-GoesBack :
      (request : Request) (table us ws : List Row) (w : Row) (zs : List Row)
      → (stamps_query (lower s.address) table ≡ us ++ ((ws ++ w ∷ []) ++ zs))
      → lower request.address ≡ lower s.address
      → request.limit ≡ pos (suc s.size)
      → request.include_metadata ≡ false
      → IsDescending (stamps_query (lower s.address) table)
      → (null zs ≡ false → length (ws ++ w ∷ []) ≡ suc s.size)
      → {link : Link}
      → ((as_page s request (stamps_query (lower s.address) table) (ws ++ w ∷ [])).next ≡ some link)
      → GoesBack table
          (as_page s request (stamps_query (lower s.address) table) (ws ++ w ∷ []))
          link
  page-GoesBack request table us ws w [] is_query same limit plain down full has_next =
      let q = stamps_query (lower s.address) table in
      let by_w : q ≡ (us ++ ws) ++ w ∷ [] =
        is_query
        ∙ ap (λ k. us ++ k) (append-nil (ws ++ w ∷ []))
        ∙ sym (append_assoc us ws (w ∷ [])) in
      let no_next =
        page-next request q (us ++ ws) ws w [] by_w (subst IsDescending by_w down) same limit in
      absurd (cc (no_next, has_next))
  page-GoesBack request table us ws w (z ∷ zs) is_query same limit plain down full {link} has_next =
      let q = stamps_query (lower s.address) table in
      let by_z : q ≡ (us ++ (ws ++ w ∷ [])) ++ z ∷ zs =
        is_query ∙ sym (append_assoc us (ws ++ w ∷ []) (z ∷ zs)) in
      let by_w : q ≡ (us ++ ws) ++ w ∷ z ∷ zs =
        by_z
        ∙ ap (λ k. k ++ z ∷ zs) (sym (append_assoc us ws (w ∷ [])))
        ∙ append_assoc (us ++ ws) (w ∷ []) (z ∷ zs) in
      let next =
        page-next request q (us ++ ws) ws w (z ∷ zs) by_w (subst IsDescending by_w down) same
          limit in
      let is_link : link_beyond s (codes "next") w.pk ≡ link = cc (next, has_next) in
      subst (GoesBack table (as_page s request q (ws ++ w ∷ []))) is_link (
        full_page-GoesBack request table us ws w z zs by_z (subst IsDescending by_z down) same limit
          plain (full refl))

  -- The page of the rows that follow some of the query.
  following-GoesBack :
      (request : Request) (table xs ys : List Row)
      → (stamps_query (lower s.address) table ≡ xs ++ ys)
      → lower request.address ≡ lower s.address
      → request.limit ≡ pos (suc s.size)
      → request.include_metadata ≡ false
      → IsDescending (stamps_query (lower s.address) table)
      → {link : Link}
      → ((as_page s request (stamps_query (lower s.address) table) (take (suc s.size) ys)).next
          ≡ some link)
      → GoesBack table
          (as_page s request (stamps_query (lower s.address) table) (take (suc s.size) ys))
          link
  unfolding page_of
  following-GoesBack request table xs [] is_query same limit plain down has_next =
      absurd (cc has_next)
  following-GoesBack request table xs (y ∷ ys) is_query same limit plain down {link} has_next =
      let q = stamps_query (lower s.address) table in
      let (ws, w, is_page) = last_split y (take s.size ys) in
      let zs = drop s.size ys in
      let whole : y ∷ ys ≡ (ws ++ w ∷ []) ++ zs =
        sym (ap (λ k. y ∷ k) (take-drop s.size ys)) ∙ ap (λ k. k ++ zs) is_page in
      subst (λ k. GoesBack table (as_page s request q k) link) (sym is_page)
        (page-GoesBack request table xs ws w zs (is_query ∙ ap (λ k. xs ++ k) whole) same limit
          plain down
          (λ follow. ap length (sym is_page) ∙ ap suc (length-take_full s.size ys follow))
          (subst (λ k. (as_page s request q k).next ≡ some link) is_page has_next))

  -- Where the ids of the table are distinct, the address is valid and the limit is from 1 to 1000: a
  -- page that answers a request without metadata for the first page, or one for a link to a next
  -- page from whatever id, and that has a link to a next page: the request for the link is answered
  -- with a page whose link to the previous page is answered with the page itself, its items and both
  -- its links.
  pub next-prev :
      {request : Request} (table : List Row) {page : Page} {link : Link}
      → IsDistinct table
      → IsForward s request
      → ask s request table ≡ ok page
      → page.next ≡ some link
      → GoesBack table page link
  next-prev {request} table {page} {link} distinct forward answer has_next =
      let (xs, ys, is_query, is_answer, same, limit, plain) =
        IsForward-Forward s table distinct forward in
      let q = stamps_query (lower s.address) table in
      let is_page : as_page s request q (take (suc s.size) ys) ≡ page = cc (is_answer, answer) in
      subst (λ k. GoesBack table k link) is_page
        (following-GoesBack request table xs ys is_query same limit plain
          (stamps_query-IsDescending (lower s.address) table distinct)
          (ap (λ (k : Page). k.next) is_page ∙ has_next))
