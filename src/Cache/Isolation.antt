-- ===== src/Cache/Isolation.antt =====
-- The handlers of api/ceramic_cache/api/v1.py touch the rows of the caller's address only.
use passport_scorer.Common.{
  ltb, Bool-cases, Option-cases, length, filter, All, filter-append, Text, text_eq_refl, lower,
  ok_or, >>=-ok, Result, err, ok, ℕ, suc, ◌≡◌, refl, subst, inl, inr, Bool, true, not, Option, none,
  some, List, [], ◌∷◌, ◌++◌, append-nil, arith,
}
use passport_scorer.Cache.{
  create_and_reply, replaced, withdrawn, with_stamp, StatusUpdate, update_ids, take_update,
  awaits_update, update_statuses, SourceApp, Row, Store, Failure, CacheStampPayload, has_address,
  payload_providers, soft_delete, new_row, new_rows, bulk_create, malformed_stamp,
}
use passport_scorer.Cache.Calls.{Call, serve, add, patch, remove, set_status}

-- The rows of other addresses.
abbrev pub others : Text → List Row → List Row
others address = filter (λ r. not (has_address address r))

soft_delete-others :
    (now : ℕ) (address : Text) (sel : Row → Bool) (rs : List Row)
    → ((r : Row) → sel r ≡ true → has_address address r ≡ true)
    → others address (soft_delete now sel rs) ≡ others address rs
unfolding soft_delete
soft_delete-others now address sel [] h = refl
soft_delete-others now address sel (r ∷ rs) h =
    ground (arith, h r, soft_delete-others now address sel rs h)

-- All rows are the address's own.
abbrev AllOwn : Text → List Row → Type 0
AllOwn address = All (λ r. has_address address r ≡ true)

bulk_create-others :
    (address : Text) (news rs : List Row) {rs' : List Row}
    → AllOwn address news
    → bulk_create news rs ≡ some rs'
    → others address rs' ≡ others address rs
unfolding bulk_create
bulk_create-others address [] rs own e = ground arith
bulk_create-others address (r ∷ news) rs {rs'} own e = ground (
  arith,
  bulk_create-others address news (rs ++ r ∷ []) {rs' = rs'} own.1,
  filter-append (λ q. not (has_address address q)) rs (r ∷ []),
  append-nil (others address rs),
)

new_rows-AllOwn :
    (now : ℕ) (address : Text) (app : Option SourceApp) (scorer : Option ℕ) (pk : ℕ)
    (ps : List CacheStampPayload) {news : List Row}
    → new_rows now address app scorer pk ps ≡ ok news
    → AllOwn address news
unfolding new_rows
new_rows-AllOwn now address app scorer pk [] {news} e =
    let done : [] ≡ news = cc in subst (AllOwn address) done tt
new_rows-AllOwn now address app scorer pk (p ∷ ps) {news} e =
    let (doc, d, e') = >>=-ok (ok_or p.stamp malformed_stamp) _ e in
    let (proof, q, e'') = >>=-ok (ok_or doc.proof_value malformed_stamp) _ e' in
    let (rest, r, e3) = >>=-ok (new_rows now address app scorer (suc pk) ps) _ e'' in
    let done : new_row now address pk app scorer p doc proof ∷ rest ≡ news = cc in
    subst (AllOwn address) done
      (text_eq_refl (lower address), new_rows-AllOwn now address app scorer (suc pk) ps r)

create_and_reply-others :
    (address : Text) (r : Result Failure (List Row)) (s : Store)
    → ((news : List Row) → r ≡ ok news → AllOwn address news)
    → others address (create_and_reply address r s).1.rows ≡ others address s.rows
unfolding create_and_reply
create_and_reply-others address (err e) s own = refl
create_and_reply-others address (ok news) s own = elim (Option-cases (bulk_create news s.rows)) [
  | inl refused ↦ ground arith
  | inr (rows, e) ↦ ground (arith, bulk_create-others address news s.rows (own news refl) e)
]

update_statuses-others :
    (now : ℕ) (address : Text) (sel : Row → Bool) (us : List StatusUpdate) (rs : List Row)
    → ((r : Row) → sel r ≡ true → has_address address r ≡ true)
    → others address (update_statuses now sel us rs) ≡ others address rs
unfolding update_statuses
update_statuses-others now address sel us [] h = refl
update_statuses-others now address sel us (r ∷ rs) h = ground (
  arith,
  h r,
  update_statuses-others now address sel us rs h,
  update_statuses-others now address sel (take_update r.pk us).1 rs h,
)

abbrev pub caller : Call → Text
caller (add address payload app scorer) = address
caller (patch address payload) = address
caller (remove address providers) = address
caller (set_status address us) = address

-- No call changes, adds or removes a row of another address than the caller's, whether it succeeds
-- or fails.
pub serve-others :
    (limit now : ℕ) (call : Call) (s : Store)
    → others (caller call) (serve limit now call s).rows ≡ others (caller call) s.rows
unfolding serve
serve-others limit now (add a payload app scorer) s = ground (
  arith,
  create_and_reply-others a (new_rows now a (some app) scorer s.next_pk payload)
      (record s { rows = soft_delete now (replaced a (payload_providers payload)) s.rows })
      (λ (news : List Row) e. new_rows-AllOwn now a (some app) scorer s.next_pk payload e),
  soft_delete-others now a (replaced a (payload_providers payload)) s.rows
      (λ (r : Row) e. ground arith),
)
serve-others limit now (patch a payload) s = ground (
  arith,
  create_and_reply-others a (new_rows now a none none s.next_pk (with_stamp payload))
      (record s { rows = soft_delete now (withdrawn a (payload_providers payload)) s.rows })
      (λ (news : List Row) e. new_rows-AllOwn now a none none s.next_pk (with_stamp payload) e),
  soft_delete-others now a (withdrawn a (payload_providers payload)) s.rows
      (λ (r : Row) e. ground arith),
)
serve-others limit now (remove a providers) s =
    ground
      (arith, soft_delete-others now a (withdrawn a providers) s.rows (λ (r : Row) e. ground arith))
serve-others limit now (set_status a us) s = elim (Bool-cases (ltb limit (length us))) [
  | inl over ↦ rw (over, serve)
  | inr fits ↦
      rw (fits, serve)
        (update_statuses-others now a (awaits_update a (update_ids us)) us s.rows
          (λ r e. ground arith))
]
