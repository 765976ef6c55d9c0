-- ===== src/Reader/Latest.antt =====
-- A passport has the latest readable stamp of each provider (`aget_passport` in
-- api/reader/passport_reader.py).
use passport_scorer.Common.{
  ltb, leb, if◌then◌else◌, Bool-cases, get_or, length, filter, any, all, All, null, All-append,
  Text, text_eq, text_eq_refl, text_eq_iff, text_in, Dict, lookup, insert, keys, lookup-insert, ◌≤◌,
  ◌≡◌, refl, sym, ap, ◌∙◌, subst, inl, inr, Bool, true, false, not, ◌||◌, Option, none, some, List,
  [], ◌∷◌, ◌++◌, append-nil, append_assoc, arith,
}
use passport_scorer.Cache.{Row, Store}
use passport_scorer.Reader.{
  is_readable, group_by_provider, latest_stamp, latest_stamps, aget_passport,
}

abbrev pub is_of : Text → Row → Bool
is_of p r = text_eq p r.provider

group_by_provider-lookup :
    (p : Text) (rs : List Row) (d : Dict (List Row))
    → get_or (lookup p (group_by_provider rs d)) [] ≡ get_or (lookup p d) [] ++ filter (is_of p) rs
unfolding group_by_provider
group_by_provider-lookup p [] d = sym (append-nil (get_or (lookup p d) []))
group_by_provider-lookup p (r ∷ rs) d =
    let old = get_or (lookup r.provider d) [] in
    ground (
      arith,
      text_eq_iff p r.provider,
      lookup-insert p r.provider (old ++ r ∷ []) d,
      append_assoc old (r ∷ []) (filter (is_of p) rs),
      group_by_provider-lookup p rs (insert r.provider (old ++ r ∷ []) d),
    )

-- The rows of an entry are of its key.
abbrev Sorted : Dict (List Row) → Type 0
Sorted = All (λ e. All (λ r. is_of e.0 r ≡ true) e.1)

abbrev DistinctKeys : Dict (List Row) → Type 0
DistinctKeys [] = Unit
DistinctKeys ((k, rs) ∷ d) = (text_in k (keys d) ≡ false) × DistinctKeys d

keys-insert :
    (j k : Text) (v : List Row) (d : Dict (List Row))
    → text_in j (keys (insert k v d)) ≡ (text_eq j k || text_in j (keys d))
keys-insert j k v [] = refl
keys-insert j k v (e ∷ d) =
    ground (arith, text_eq_iff k e.0, text_eq_iff j k, text_eq_iff j e.0, keys-insert j k v d)

insert-DistinctKeys :
    (k : Text) (v : List Row) (d : Dict (List Row)) → DistinctKeys d → DistinctKeys (insert k v d)
insert-DistinctKeys k v [] h = (refl, tt)
insert-DistinctKeys k v (e ∷ d) h = elim (Bool-cases (text_eq k e.0)) [
  | inl same ↦ rw (same, (text_eq_iff k e.0).0 same) h
  | inr other ↦ rw other (
    ground (arith, keys-insert e.0 k v d, text_eq_iff k e.0, text_eq_iff e.0 k),
    insert-DistinctKeys k v d h.1,
  )
]

insert-Sorted :
    (k : Text) (v : List Row) (d : Dict (List Row))
    → All (λ r. is_of k r ≡ true) v
    → Sorted d
    → Sorted (insert k v d)
insert-Sorted k v [] g h = (g, tt)
insert-Sorted k v (e ∷ d) g h = elim (Bool-cases (text_eq k e.0)) [
  | inl same ↦ rw same (g, h.1)
  | inr other ↦ rw other (h.0, insert-Sorted k v d g h.1)
]

Sorted-lookup :
    (k : Text) (d : Dict (List Row))
    → Sorted d
    → All (λ r. is_of k r ≡ true) (get_or (lookup k d) [])
Sorted-lookup k [] h = tt
Sorted-lookup k (e ∷ d) h = elim (Bool-cases (text_eq k e.0)) [
  | inl same ↦ rw (same, (text_eq_iff k e.0).0 same) h.0
  | inr other ↦ rw other (Sorted-lookup k d h.1)
]

group_by_provider-Sorted :
    (rs : List Row) (d : Dict (List Row))
    → Sorted d
    → DistinctKeys d
    → Sorted (group_by_provider rs d) × DistinctKeys (group_by_provider rs d)
unfolding group_by_provider
group_by_provider-Sorted [] d h g = (h, g)
group_by_provider-Sorted (r ∷ rs) d h g =
    let v = get_or (lookup r.provider d) [] ++ r ∷ [] in
    group_by_provider-Sorted rs (insert r.provider v d)
      (insert-Sorted r.provider v d
        (All-append (λ x. is_of r.provider x ≡ true) (get_or (lookup r.provider d) []) (r ∷ [])
          (Sorted-lookup r.provider d h) (text_eq_refl r.provider, tt))
        h)
      (insert-DistinctKeys r.provider v d g)

-- The latest stamp of a list, with the one found before.
latest_stamp-some :
    (q : Row → Bool) (l : Row) (rs : List Row)
    → q l ≡ true
    → All (λ r. q r ≡ true) rs
    → (r : Row) × (latest_stamp (some l) rs ≡ some r) × (q r ≡ true)
unfolding latest_stamp
latest_stamp-some q l [] h g = (l, refl, h)
latest_stamp-some q l (r ∷ rs) h g = elim (Bool-cases (ltb l.updated_at r.updated_at)) [
  | inl later ↦ rw later (latest_stamp-some q r rs g.0 g.1)
  | inr not_later ↦ rw not_later (latest_stamp-some q l rs h g.1)
]

abbrev pub list_of : Option Row → List Row
list_of none = []
list_of (some r) = r ∷ []

latest_stamps-cons :
    (k : Text) (rs : List Row) (d : Dict (List Row)) {l : Row}
    → latest_stamp none rs ≡ some l
    → latest_stamps ((k, rs) ∷ d) ≡ l ∷ latest_stamps d
unfolding latest_stamps
latest_stamps-cons k rs d h = rw (h, latest_stamps) refl

filter-of :
    (p : Text) (l : Row) (rs : List Row)
    → filter (is_of p) (l ∷ rs)
      ≡ (if is_of p l then l ∷ filter (is_of p) rs else filter (is_of p) rs)
filter-of p l rs = refl

latest_stamps-absent :
    (p : Text) (d : Dict (List Row))
    → Sorted d
    → text_in p (keys d) ≡ false
    → filter (is_of p) (latest_stamps d) ≡ []
unfolding latest_stamps
latest_stamps-absent p [] h g = refl
latest_stamps-absent p ((k, []) ∷ d) h g =
    unfold latest_stamp in latest_stamps-absent p d h.1 (ground arith)
latest_stamps-absent p ((k, r ∷ rs) ∷ d) h g =
    let (l, run, of_k) = latest_stamp-some (is_of k) r rs h.0.0 h.0.1 in
    let missing : text_in p (keys d) ≡ false = ground arith in
    let rest = latest_stamps-absent p d h.1 missing in
    let elsewhere : is_of p l ≡ false =
      ground (arith, text_eq_iff p k, text_eq_iff k l.provider, text_eq_iff p l.provider) in
    ap (filter (is_of p)) (latest_stamps-cons k (r ∷ rs) d (unfold latest_stamp in run))
    ∙ (filter-of p l (latest_stamps d) ∙ rw (elsewhere, rest) refl)

latest_stamps-of :
    (p : Text) (d : Dict (List Row))
    → Sorted d
    → DistinctKeys d
    → filter (is_of p) (latest_stamps d) ≡ list_of (latest_stamp none (get_or (lookup p d) []))
unfolding latest_stamps latest_stamp
latest_stamps-of p [] h g = refl
latest_stamps-of p ((k, []) ∷ d) h g = elim (Bool-cases (text_eq p k)) [
  | inl same ↦ rw same (latest_stamps-absent p d h.1 (rw ((text_eq_iff p k).0 same) g.0))
  | inr other ↦ rw other (latest_stamps-of p d h.1 g.1)
]
latest_stamps-of p ((k, r ∷ rs) ∷ d) h g =
    let (l, run, of_k) = latest_stamp-some (is_of k) r rs h.0.0 h.0.1 in
    elim (Bool-cases (text_eq p k)) [
      | inl same ↦
          let here : is_of p l ≡ true = rw ((text_eq_iff p k).0 same) of_k in
          let rest = latest_stamps-absent p d h.1 (rw ((text_eq_iff p k).0 same) g.0) in
          ap (filter (is_of p)) (latest_stamps-cons k (r ∷ rs) d run)
          ∙ (filter-of p l (latest_stamps d) ∙ rw (same, run, here, rest) refl)
      | inr other ↦
          let elsewhere : is_of p l ≡ false =
            ground (arith, text_eq_iff p k, text_eq_iff k l.provider, text_eq_iff p l.provider) in
          ap (filter (is_of p)) (latest_stamps-cons k (r ∷ rs) d run)
          ∙ (filter-of p l (latest_stamps d) ∙ rw (other, elsewhere) (latest_stamps-of p d h.1 g.1))
    ]

-- No row of the list has a later date than the row found.
latest_stamp-max :
    (l : Row) (rs : List Row)
    → (r : Row) × (latest_stamp (some l) rs ≡ some r)
      × (l.updated_at ≤ r.updated_at)
      × (all (λ q. leb q.updated_at r.updated_at) rs ≡ true)
unfolding latest_stamp
latest_stamp-max l [] = (l, refl, omega arith, refl)
latest_stamp-max l (x ∷ rs) = elim (Bool-cases (ltb l.updated_at x.updated_at)) [
  | inl later ↦
      let (r, run, le, max) = latest_stamp-max x rs in (r, rw later run, ground arith, ground arith)
  | inr not_later ↦
      let (r, run, le, max) = latest_stamp-max l rs in (r, rw not_later run, le, ground arith)
]

latest_stamp_lem :
    (q : Row → Bool) (rs : List Row)
    → All (λ r. q r ≡ true) rs
    → (found : List Row) × (list_of (latest_stamp none rs) ≡ found)
      × (length found ≡ (if null rs then 0 else 1))
      × All (λ r. q r ≡ true) found
      × All (λ r. all (λ x. leb x.updated_at r.updated_at) rs ≡ true) found
unfolding latest_stamp
latest_stamp_lem q [] h = ([], refl, refl, tt, tt)
latest_stamp_lem q (x ∷ rs) h =
    let (r, run, le, max) = latest_stamp-max x rs in
    let (r', run', good) = latest_stamp-some q x rs h.0 h.1 in
    let same : r' ≡ r = ground arith in
    (r ∷ [], rw run refl, refl, (subst (λ y. q y ≡ true) same good, tt), (ground arith, tt))

filter-All : (q : Row → Bool) (rs : List Row) → All (λ r. q r ≡ true) (filter q rs)
filter-All q [] = tt
filter-All q (r ∷ rs) = ground (arith, filter-All q rs)

All-filter :
    (q f : Row → Bool) (rs : List Row)
    → All (λ r. q r ≡ true) rs
    → All (λ r. q r ≡ true) (filter f rs)
All-filter q f [] h = tt
All-filter q f (r ∷ rs) h = ground (arith, All-filter q f rs h.1)

any-null : (p : Text) (rs : List Row) → any (is_of p) rs ≡ not (null (filter (is_of p) rs))
any-null p [] = refl
any-null p (r ∷ rs) = ground (arith, any-null p rs)

-- Of a provider with a readable row for the address the passport has exactly one row, which is
-- readable, and none of the provider's readable rows has a later date; of any other provider it has
-- none.
pub aget_passport-latest :
    (address : Text) (s : Store) (p : Text)
    → (found : List Row) × (filter (is_of p) (aget_passport address s) ≡ found)
      × (length found ≡ (if any (is_of p) (filter (is_readable address s) s.rows) then 1 else 0))
      × All (λ r. is_readable address s r ≡ true) found
      × All
          (λ r.
            all
              (λ q. leb q.updated_at r.updated_at)
              (filter (is_of p) (filter (is_readable address s) s.rows))
            ≡ true)
          found
unfolding aget_passport
aget_passport-latest address s p =
    let rows = filter (is_readable address s) s.rows in
    let (sorted, distinct) = group_by_provider-Sorted rows [] tt tt in
    let e = latest_stamps-of p (group_by_provider rows []) sorted distinct in
    let good = filter-All (is_readable address s) s.rows in
    let (found, run, size, readable, max) =
      latest_stamp_lem (is_readable address s) (filter (is_of p) rows)
        (All-filter (is_readable address s) (is_of p) rows good) in
    (
      found,
      e ∙ (ap (λ fs. list_of (latest_stamp none fs)) (group_by_provider-lookup p rows []) ∙ run),
      ground (arith, size, any-null p rows),
      readable,
      max,
    )
