-- ===== src/Cache/Effects.antt =====
-- What the handlers of api/ceramic_cache/api/v1.py do to the live stamps of an address, and that they
-- leave other addresses alone.
use passport_scorer.Common.{
  Option-cases, filter, All, filter-append, Text, text_eq_refl, text_in, lower, ok_or, >>=-ok,
  Result, err, ok, ℕ, suc, ◌≡◌, refl, subst, inl, inr, Bool, true, false, Option, none, some, List,
  [], ◌∷◌, ◌++◌, append-nil, append_assoc, arith,
}
use passport_scorer.Cache.{
  create_and_reply, replaced, handle_add_stamps_only, withdrawn, with_stamp, handle_patch_stamps,
  same_type, SourceApp, StampDoc, Row, Store, Failure, CacheStampPayload, payload_providers,
  soft_delete, new_row, new_rows, bulk_create, passport_state, malformed_stamp,
}

-- The live rows of an address for one of the providers.
abbrev pub live_for : Text → List Text → List Row → List Row
live_for address providers = filter (withdrawn address providers)

bulk_create-append :
    (news rs : List Row) {rs' : List Row} → bulk_create news rs ≡ some rs' → rs' ≡ rs ++ news
unfolding bulk_create
bulk_create-append [] rs e = ground (arith, append-nil rs)
bulk_create-append (r ∷ news) rs {rs'} e =
    ground
      (arith, bulk_create-append news (rs ++ r ∷ []) {rs' = rs'}, append_assoc rs (r ∷ []) news)

-- A provider with the stamp that it holds.
abbrev pub Claimed : Type 0
Claimed = Text × Option StampDoc

abbrev pub claimed : List Row → List Claimed
claimed [] = []
claimed (r ∷ rs) = (r.provider, some r.stamp) ∷ claimed rs

abbrev pub asked : List CacheStampPayload → List Claimed
asked [] = []
asked (p ∷ ps) = (p.provider, p.stamp) ∷ asked ps

module _ (now : ℕ) (address : Text) (app : Option SourceApp) (scorer : Option ℕ)
    (P : List Text) where
  abbrev pub Within : List CacheStampPayload → Type 0
  Within = All (λ p. text_in p.provider P ≡ true)

  abbrev pub AreNew : List CacheStampPayload → List Row → Type 0
  AreNew ps news =
      (claimed news ≡ asked ps)
      × All (λ r. replaced address P r ≡ true) news
      × All (λ r. withdrawn address P r ≡ true) news

  pub new_rows_lem :
      (pk : ℕ) (ps : List CacheStampPayload) {news : List Row}
      → Within ps
      → new_rows now address app scorer pk ps ≡ ok news
      → AreNew ps news
  unfolding new_rows same_type
  new_rows_lem pk [] {news} w e = let done : [] ≡ news = cc in subst (AreNew []) done (refl, tt, tt)
  new_rows_lem pk (p ∷ ps) {news} w e =
      let (doc, d, e') = >>=-ok (ok_or p.stamp malformed_stamp) _ e in
      let (proof, q, e'') = >>=-ok (ok_or doc.proof_value malformed_stamp) _ e' in
      let (rest, r, e3) = >>=-ok (new_rows now address app scorer (suc pk) ps) _ e'' in
      let done : new_row now address pk app scorer p doc proof ∷ rest ≡ news = cc in
      let (same, repl, wdr) = new_rows_lem (suc pk) ps w.1 r in
      subst (AreNew (p ∷ ps)) done (
        ground (arith, same),
        (ground (arith, text_eq_refl (lower address)), repl),
        (ground (arith, text_eq_refl (lower address)), wdr),
      )

filter_everything : (p : Row → Bool) (rs : List Row) → All (λ r. p r ≡ true) rs → filter p rs ≡ rs
filter_everything p [] h = refl
filter_everything p (r ∷ rs) h = ground (arith, filter_everything p rs h.1)

soft_delete-none :
    (now : ℕ) (sel : Row → Bool) (rs : List Row)
    → ((r : Row) → sel (record r { updated_at = now; deleted_at = some now }) ≡ false)
    → filter sel (soft_delete now sel rs) ≡ []
unfolding soft_delete
soft_delete-none now sel [] h = refl
soft_delete-none now sel (r ∷ rs) h = ground (arith, h r, soft_delete-none now sel rs h)

pub Within_self :
    (ps : List CacheStampPayload) → All (λ p. text_in p.provider (payload_providers ps) ≡ true) ps
Within_self ps = go ps (payload_providers ps) (λ t h. h)
  where
    go :
        (qs : List CacheStampPayload) (P : List Text)
        → ((t : Text) → text_in t (payload_providers qs) ≡ true → text_in t P ≡ true)
        → All (λ p. text_in p.provider P ≡ true) qs
    go [] P h = tt
    go (q ∷ qs) P h = (
      h q.provider (ground (arith, text_eq_refl q.provider)),
      go qs P (λ t e. h t (ground arith)),
    )

-- A successful creation adds the rows behind those that are there.
create_and_reply-rows :
    (address : Text) (r : Result Failure (List Row)) (s : Store) {shown : List Row} {s' : Store}
    → create_and_reply address r s ≡ (ok shown, s')
    → (news : List Row) × (r ≡ ok news)
      × (s'.rows ≡ s.rows ++ news)
      × (shown ≡ passport_state address s')
unfolding create_and_reply
create_and_reply-rows address (err e) s h = absurd (ground arith)
create_and_reply-rows address (ok news) s {shown} {s'} h =
    elim (Option-cases (bulk_create news s.rows)) [
      | inl refused ↦ absurd (ground arith)
      | inr (rows, e) ↦ (news, refl, ground (arith, bulk_create-append news s.rows e), ground arith)
    ]

-- What follows the deletion of the old rows, for a payload or a part of it.
replace_lem :
    (now : ℕ) (address : Text) (app : Option SourceApp) (scorer : Option ℕ) (P : List Text)
    (sel : Row → Bool) (ps : List CacheStampPayload) (s : Store) {shown : List Row} {s' : Store}
    → ((r : Row) → sel (record r { updated_at = now; deleted_at = some now }) ≡ false)
    → ((news : List Row) → AreNew now address app scorer P ps news → All (λ r. sel r ≡ true) news)
    → All (λ p. text_in p.provider P ≡ true) ps
    → create_and_reply address
        (new_rows now address app scorer s.next_pk ps)
        (record s { rows = soft_delete now sel s.rows })
      ≡ (ok shown, s')
    → (claimed (filter sel s'.rows) ≡ asked ps) × (shown ≡ passport_state address s')
replace_lem now address app scorer P sel ps s {shown} {s'} gone new within h =
    let (news, made, rows, seen) =
      create_and_reply-rows address (new_rows now address app scorer s.next_pk ps)
        (record s { rows = soft_delete now sel s.rows }) h in
    let are_new = new_rows_lem now address app scorer P s.next_pk ps within made in
    (
      rw
          (
            rows,
            filter-append sel (soft_delete now sel s.rows) news,
            soft_delete-none now sel s.rows gone,
            filter_everything sel news (new news are_new),
          )
          are_new.0,
      seen,
    )

-- A successful add leaves, as the live V1 rows of the address for the providers of the payload,
-- the stamps of the payload and no other, in its order; the response is the passport's new state.
pub add_stamps_lem :
    (limit now : ℕ) (address : Text) (payload : List CacheStampPayload) (app : SourceApp)
    (scorer : Option ℕ) (s : Store) {shown : List Row} {s' : Store}
    → handle_add_stamps_only limit now address payload app scorer s ≡ (ok shown, s')
    → (claimed (filter (replaced address (payload_providers payload)) s'.rows) ≡ asked payload)
      × (shown ≡ passport_state address s')
unfolding handle_add_stamps_only
add_stamps_lem limit now address payload app scorer s {shown} {s'} h =
    replace_lem now address (some app) scorer (payload_providers payload)
      (replaced address (payload_providers payload)) payload s {shown = shown} {s' = s'}
      (λ r. ground arith) (λ news new. new.1) (Within_self payload) (ground arith)

Within-with_stamp :
    (P : List Text) (ps : List CacheStampPayload)
    → All (λ p. text_in p.provider P ≡ true) ps
    → All (λ p. text_in p.provider P ≡ true) (with_stamp ps)
unfolding with_stamp
Within-with_stamp P [] h = tt
Within-with_stamp P (p ∷ ps) h = ground (arith, Within-with_stamp P ps h.1)

-- A successful patch leaves, as the live rows of the address for the providers of the payload, the
-- stamps of those entries that have one: an entry without a stamp deletes. Rows of both types are
-- replaced.
pub patch_stamps_lem :
    (limit now : ℕ) (address : Text) (payload : List CacheStampPayload) (s : Store)
    {shown : List Row} {s' : Store}
    → handle_patch_stamps limit now address payload s ≡ (ok shown, s')
    → (claimed (live_for address (payload_providers payload) s'.rows) ≡ asked (with_stamp payload))
      × (shown ≡ passport_state address s')
unfolding handle_patch_stamps
patch_stamps_lem limit now address payload s {shown} {s'} h =
    replace_lem now address none none (payload_providers payload)
      (withdrawn address (payload_providers payload)) (with_stamp payload) s {shown = shown}
      {s' = s'} (λ r. ground arith) (λ news new. new.2)
      (Within-with_stamp (payload_providers payload) payload (Within_self payload)) (ground arith)
