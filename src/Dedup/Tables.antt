-- ===== src/Dedup/Tables.antt =====
-- The writes (`save_hash_links` of api/account/deduplication/lifo.py): a row that is not written to
-- stays, and the table's unique key is kept.
use passport_scorer.Common.{
  ==_iff, Option-cases, All, Text, text_eq, text_eq_iff, text_in, update, ℕ, ◌≡◌, refl, ◌∙◌, inl,
  inr, false, none, some, List, [], ◌∷◌, ◌++◌, arith,
}
use passport_scorer.Dedup.{
  HashLink, Work, hashes_of, find_hash, stored, find_link, bulk_create, write_back, bulk_update,
  objects, save_hash_links,
}
use passport_scorer.Dedup.Holders.{Unique}

-- No object of the list has the hash.
abbrev pub Spares : Text → List HashLink → Type 0
Spares h = All (λ o. text_eq o.hash h ≡ false)

module _ (c : ℕ) (h : Text) where
  find_link-append :
      {l : HashLink} (xs ys : List HashLink)
      → find_link c h xs ≡ some l
      → find_link c h (xs ++ ys) ≡ some l
  find_link-append [] ys e = cc
  find_link-append {l} (x ∷ xs) ys e = ground (arith, find_link-append {l = l} xs ys)

  find_link-append_none :
      (xs ys : List HashLink)
      → find_link c h xs ≡ none
      → find_link c h (xs ++ ys) ≡ find_link c h ys
  find_link-append_none [] ys e = refl
  find_link-append_none (x ∷ xs) ys e = ground (arith, find_link-append_none xs ys)

  pub bulk_create-keeps :
      {l : HashLink} (os table : List HashLink) {after : List HashLink}
      → bulk_create os table ≡ some after
      → find_link c h table ≡ some l
      → find_link c h after ≡ some l
  unfolding bulk_create
  bulk_create-keeps [] table e f = ground arith
  bulk_create-keeps {l} (o ∷ os) table {after} e f = ground (
    arith,
    bulk_create-keeps {l = l} os (table ++ stored o ∷ []) {after = after},
    find_link-append {l = l} table (stored o ∷ []),
  )

  write_back-keeps :
      (o : HashLink) (table : List HashLink)
      → text_eq o.hash h ≡ false
      → find_link c h (write_back o table) ≡ find_link c h table
  write_back-keeps o [] e = refl
  write_back-keeps o (x ∷ table) e = ground (
    arith,
    text_eq_iff x.hash h,
    text_eq_iff x.hash o.hash,
    text_eq_iff o.hash h,
    write_back-keeps o table,
  )

  pub bulk_update-keeps :
      (os table : List HashLink)
      → Spares h os
      → find_link c h (bulk_update os table) ≡ find_link c h table
  unfolding bulk_update
  bulk_update-keeps [] table s = refl
  bulk_update-keeps (o ∷ os) table s =
      bulk_update-keeps os (write_back o table) s.1 ∙ write_back-keeps o table s.0

  -- The writes leave the row of a hash that is not among the updates.
  pub save_hash_links-keeps :
      {l : HashLink} (a : Text) (create update table : List HashLink)
      → Spares h update
      → find_link c h table ≡ some l
      → find_link c h (save_hash_links c a create update table).1 ≡ some l
  unfolding save_hash_links
  save_hash_links-keeps a create update table s f = elim (Option-cases (bulk_create create table)) [
    | inl refused ↦ ground arith
    | inr (after, e) ↦
        ground (arith, bulk_create-keeps create table e f, bulk_update-keeps update after s)
  ]

find_hash-Spares :
    (h k : Text) {o : HashLink} (ls : List HashLink)
    → text_in h (hashes_of ls) ≡ false
    → find_hash k ls ≡ some o
    → text_eq o.hash h ≡ false
find_hash-Spares h k [] f e = cc
find_hash-Spares h k {o} (l ∷ ls) f e =
    ground (arith, text_eq_iff l.hash h, text_eq_iff h l.hash, find_hash-Spares h k {o = o} ls)

pub objects-Spares :
    (h : Text) (w : Work) (hs : List Text)
    → text_in h (hashes_of w.own) ≡ false
    → text_in h (hashes_of w.forfeited) ≡ false
    → Spares h (objects w hs)
objects-Spares h w [] p q = tt
objects-Spares h w (k ∷ hs) p q = elim (Option-cases (find_hash k w.own)) [
  | inl out ↦ elim (Option-cases (find_hash k w.forfeited)) [
    | inl out' ↦ ground (arith, objects-Spares h w hs p q)
    | inr (o, e) ↦ ground (arith, find_hash-Spares h k w.forfeited q e, objects-Spares h w hs p q)
  ]
  | inr (o, e) ↦ ground (arith, find_hash-Spares h k w.own p e, objects-Spares h w hs p q)
]

-- The unique key.
find_link-write_back_absent :
    (c : ℕ) (h : Text) (o : HashLink) (table : List HashLink)
    → find_link c h table ≡ none
    → find_link c h (write_back o table) ≡ none
find_link-write_back_absent c h o [] e = refl
find_link-write_back_absent c h o (x ∷ table) e =
    ground (arith, find_link-write_back_absent c h o table)

write_back-Unique :
    (o : HashLink) (table : List HashLink) → Unique table → Unique (write_back o table)
write_back-Unique o [] u = tt
write_back-Unique o (x ∷ table) u = ground (
  arith,
  write_back-Unique o table u.1,
  find_link-write_back_absent x.community x.hash o table u.0,
)

bulk_update-Unique : (os table : List HashLink) → Unique table → Unique (bulk_update os table)
unfolding bulk_update
bulk_update-Unique [] table u = u
bulk_update-Unique (o ∷ os) table u =
    bulk_update-Unique os (write_back o table) (write_back-Unique o table u)

append-Unique :
    (table : List HashLink) (x : HashLink)
    → find_link x.community x.hash table ≡ none
    → Unique table
    → Unique (table ++ x ∷ [])
append-Unique [] x e u = (refl, tt)
append-Unique (y ∷ table) x e u = ground (
  arith,
  append-Unique table x,
  find_link-append_none y.community y.hash table (x ∷ []),
  text_eq_iff x.hash y.hash,
  text_eq_iff y.hash x.hash,
  ==_iff x.community y.community,
  ==_iff y.community x.community,
)

bulk_create-Unique :
    (os table : List HashLink) {after : List HashLink}
    → bulk_create os table ≡ some after
    → Unique table
    → Unique after
unfolding bulk_create stored
bulk_create-Unique [] table e u = ground arith
bulk_create-Unique (o ∷ os) table {after} e u = ground (
  arith,
  bulk_create-Unique os (table ++ stored o ∷ []) {after = after},
  append-Unique table (stored o),
)

pub save_hash_links-Unique :
    (c : ℕ) (a : Text) (create update table : List HashLink)
    → Unique table
    → Unique (save_hash_links c a create update table).1
unfolding save_hash_links
save_hash_links-Unique c a create update table u = elim (Option-cases (bulk_create create table)) [
  | inl refused ↦ ground arith
  | inr (after, e) ↦
      ground (arith, bulk_update-Unique update after (bulk_create-Unique create table e u))
]
