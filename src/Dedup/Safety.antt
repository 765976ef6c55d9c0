-- ===== src/Dedup/Safety.antt =====
-- What deduplication promises, over an attempt (`arun_lifo_dedup`) and over the retries (`alifo`) of
-- api/account/deduplication/lifo.py.
use passport_scorer.Common.{
  Bool-cases, find, All, Text, text_eq_iff, text_in, Dict, >>=-ok, Result, err, ok, ℕ, zero, suc,
  ◌≡◌, refl, ap, subst, inl, inr, Bool, true, false, ◌||◌, Option, none, some, List, [], ◌∷◌, ◌++◌,
  arith,
}
use passport_scorer.Passport.{PassportStamp}
use passport_scorer.Dedup.{
  HashLink, Failure, Work, Claims, Links, DedupEvent, Deduped, get_nullifiers, collect_nullifiers,
  stamp_hashes, hashes_of, find_link, sort_stamps, save_hash_links, objects, finish,
  arun_lifo_dedup, retry, alifo, hash_link_integrity, key_error, unbound_local,
}
use passport_scorer.Dedup.Holders.{Unique, Live, claims, holder-Absent, holder_clashes}
use passport_scorer.Dedup.Loop.{SameObjects, unclashed, process_stamps-SameObjects}
use passport_scorer.Dedup.Tables.{save_hash_links-keeps, save_hash_links-Unique, objects-Spares}

abbrev start : Claims → Work
start k = record {
  kept = [];
  own = k.own;
  forfeited = k.forfeited;
  create = [];
  update = [];
  clashing_stamps = [];
}

finish-links :
    (multi : Bool) (c : ℕ) (a : Text) (w : Work) (r : Result Failure (Unit {0}) × List HashLink)
    (events : List DedupEvent)
    → (finish multi c a w r events).1.links ≡ r.1
unfolding finish
finish-links multi c a w (err e, table) events = refl
finish-links multi c a w (ok x, table) events = ground arith

finish-kept :
    (multi : Bool) (c : ℕ) (a : Text) (w : Work) (r : Result Failure (Unit {0}) × List HashLink)
    (events : List DedupEvent) {kept : List PassportStamp} {cl : Dict PassportStamp} {s' : Links}
    → finish multi c a w r events ≡ (ok (kept, cl), s')
    → kept ≡ w.kept
unfolding finish
finish-kept multi c a w (err e, table) events h = ground arith
finish-kept multi c a w (ok x, table) events h = ground arith

-- The hash is among the stamp's nullifiers.
pub has_nullifier : Bool → Text → PassportStamp → Bool
has_nullifier multi h s = elim (get_nullifiers multi s) [ ok ns ↦ text_in h ns | err _ ↦ false ]

abbrev pub Avoids : Bool → Text → PassportStamp → Type 0
Avoids multi h s = has_nullifier multi h s ≡ false

module _ (multi : Bool) (c : ℕ) (a : Text) where
  -- The stamps and objects of an attempt come from the claims on the table.
  pub sort_stamps_lem :
      (now : ℕ) (stamps : List PassportStamp) (table : List HashLink) {w : Work}
      → sort_stamps multi now c a stamps table ≡ ok w
      → (pairs : List (PassportStamp × List Text)) × (collect_nullifiers multi stamps ≡ ok pairs)
        × SameObjects (start (claims c a now (stamp_hashes pairs) table)) w
        × (w.kept
            ≡ unclashed (hashes_of (claims c a now (stamp_hashes pairs) table).clashing) pairs)
  unfolding sort_stamps
  sort_stamps_lem now stamps table h =
      let (pairs, collected, done) = >>=-ok (collect_nullifiers multi stamps) _ h in
      let k = claims c a now (stamp_hashes pairs) table in
      let (same, kept) = process_stamps-SameObjects c a k.clashing pairs (start k) done in
      (pairs, collected, same, kept)

  run-keeps_holder :
      (now : ℕ) (stamps : Option (List PassportStamp)) (h : Text) {l : HashLink} (s : Links)
      → Unique s.links
      → find_link c h s.links ≡ some l
      → Live a now l
      → find_link c h (arun_lifo_dedup multi now c a stamps s).1.links ≡ some l
  unfolding arun_lifo_dedup
  run-keeps_holder now none h s u f v = f
  run-keeps_holder now (some stamps) h {l} s u f v =
      go (sort_stamps multi now c a stamps s.links) refl
    where
      go :
          (r : Result Failure Work)
          → sort_stamps multi now c a stamps s.links ≡ r
          → find_link c h (arun_lifo_dedup multi now c a (some stamps) s).1.links ≡ some l
      go (err e) p = rw (p, arun_lifo_dedup) f
      go (ok w) p =
          let (pairs, collected, same, kept) = sort_stamps_lem now stamps s.links p in
          let absent = holder-Absent c a now (stamp_hashes pairs) h s.links u f v in
          rw (p, arun_lifo_dedup)
            (rw finish-links (
              save_hash_links-keeps c h a w.create (objects w w.update) s.links
                (objects-Spares h w w.update (rw same.own absent.own)
                  (rw same.forfeited absent.forfeited))
                f))

  run-Unique :
      (now : ℕ) (stamps : Option (List PassportStamp)) (s : Links)
      → Unique s.links
      → Unique (arun_lifo_dedup multi now c a stamps s).1.links
  unfolding arun_lifo_dedup
  run-Unique now none s u = u
  run-Unique now (some stamps) s u = go (sort_stamps multi now c a stamps s.links) refl
    where
      go :
          (r : Result Failure Work)
          → sort_stamps multi now c a stamps s.links ≡ r
          → Unique (arun_lifo_dedup multi now c a (some stamps) s).1.links
      go (err e) p = rw (p, arun_lifo_dedup) u
      go (ok w) p =
          rw (p, arun_lifo_dedup)
            (rw finish-links (save_hash_links-Unique c a w.create (objects w w.update) s.links u))

  text_in-append :
      (h : Text) (xs ys : List Text) → text_in h (xs ++ ys) ≡ (text_in h xs || text_in h ys)
  text_in-append h [] ys = refl
  text_in-append h (x ∷ xs) ys = ground (arith, text_in-append h xs ys)

  find_clash :
      (h : Text) (clash ns : List Text)
      → text_in h clash ≡ true
      → find (λ k. text_in k clash) ns ≡ none
      → text_in h ns ≡ false
  find_clash h clash [] m e = refl
  find_clash h clash (k ∷ ns) m e = ground (arith, text_eq_iff h k, find_clash h clash ns m)

  abbrev Collected : List (PassportStamp × List Text) → Type 0
  Collected = All (λ p. get_nullifiers multi p.0 ≡ ok p.1)

  collect_nullifiers-Collected :
      (stamps : List PassportStamp) {pairs : List (PassportStamp × List Text)}
      → collect_nullifiers multi stamps ≡ ok pairs
      → Collected pairs
  unfolding collect_nullifiers
  collect_nullifiers-Collected [] {pairs} e =
      let none_left : [] ≡ pairs = cc in subst Collected none_left tt
  collect_nullifiers-Collected (s ∷ ss) {pairs} e =
      let (ns, first, more) = >>=-ok (get_nullifiers multi s) _ e in
      let (rest, collected, done) = >>=-ok (collect_nullifiers multi ss) _ more in
      let split : (s, ns) ∷ rest ≡ pairs = cc in
      subst Collected split (first, collect_nullifiers-Collected ss collected)

  -- A stamp with the hash clashes, if its nullifiers are those collected.
  clash-Avoids :
      (h : Text) (clash ns : List Text) (s : PassportStamp)
      → get_nullifiers multi s ≡ ok ns
      → (text_in h ns ≡ true → text_in h clash ≡ true)
      → find (λ k. text_in k clash) ns ≡ none
      → Avoids multi h s
  unfolding has_nullifier
  clash-Avoids h clash ns s first m out = elim (Bool-cases (text_in h ns)) [
    | inl inside ↦ ground (arith, find_clash h clash ns (m inside) out)
    | inr outside ↦ ground arith
  ]

  unclashed-Avoids :
      (h : Text) (clash : List Text) (pairs : List (PassportStamp × List Text))
      → Collected pairs
      → (text_in h (stamp_hashes pairs) ≡ true → text_in h clash ≡ true)
      → All (Avoids multi h) (unclashed clash pairs)
  unclashed-Avoids h clash [] collected m = tt
  unclashed-Avoids h clash ((s, ns) ∷ pairs) (first, rest) m =
      go (find (λ k. text_in k clash) ns) refl (
        unclashed-Avoids h clash pairs rest
          (λ inside. m (ground (arith, text_in-append h ns (stamp_hashes pairs)))))
    where
      go :
          (r : Option Text)
          → find (λ k. text_in k clash) ns ≡ r
          → All (Avoids multi h) (unclashed clash pairs)
          → All (Avoids multi h) (unclashed clash ((s, ns) ∷ pairs))
      go none p later = rw p (
        clash-Avoids h clash ns s first
            (λ inside. m (ground (arith, text_in-append h ns (stamp_hashes pairs)))) p,
        later,
      )
      go (some k) p later = rw p later

  run-Avoids :
      (now : ℕ) (stamps : Option (List PassportStamp)) (h : Text) {l : HashLink} (s : Links)
      {kept : List PassportStamp} {cl : Dict PassportStamp} {s' : Links}
      → find_link c h s.links ≡ some l
      → Live a now l
      → arun_lifo_dedup multi now c a stamps s ≡ (ok (kept, cl), s')
      → All (Avoids multi h) kept
  unfolding arun_lifo_dedup
  run-Avoids now none h s f v done = ground arith
  run-Avoids now (some stamps) h {l} s {kept} {cl} {s'} f v done =
      go (sort_stamps multi now c a stamps s.links) refl
    where
      go :
          (r : Result Failure Work)
          → sort_stamps multi now c a stamps s.links ≡ r
          → All (Avoids multi h) kept
      go (err e) p = absurd (ground arith)
      go (ok w) p =
          let (pairs, collected, same, kept') = sort_stamps_lem now stamps s.links p in
          let k = claims c a now (stamp_hashes pairs) s.links in
          let result : finish multi c a w
                (save_hash_links c a w.create (objects w w.update) s.links) s.events
              ≡ (ok (kept, cl), s') =
            ground arith in
          rw (finish-kept multi c a w _ s.events result, kept')
            (unclashed-Avoids h (hashes_of k.clashing) pairs
              (collect_nullifiers-Collected stamps collected)
              (λ inside. holder_clashes c a now (stamp_hashes pairs) h s.links f v inside))

  module _ (clock : ℕ → ℕ) (stamps : Option (List PassportStamp)) (h : Text) {l : HashLink} where
    retry-keeps_holder :
        (tries : ℕ) (s : Links)
        → Unique s.links
        → find_link c h s.links ≡ some l
        → ((t : ℕ) → Live a (clock t) l)
        → find_link c h (retry multi clock c a stamps tries s).1.links ≡ some l
    unfolding retry
    retry-keeps_holder zero s u f v = f
    retry-keeps_holder (suc tries) s u f v = ground (
      arith,
      run-keeps_holder (clock tries) stamps h {l = l} s u f (v tries),
      retry-keeps_holder tries (arun_lifo_dedup multi (clock tries) c a stamps s).1
          (run-Unique (clock tries) stamps s u)
          (run-keeps_holder (clock tries) stamps h {l = l} s u f (v tries)) v,
    )

    retry-Avoids :
        (tries : ℕ) (s : Links) {kept : List PassportStamp} {cl : Dict PassportStamp} {s' : Links}
        → Unique s.links
        → find_link c h s.links ≡ some l
        → ((t : ℕ) → Live a (clock t) l)
        → retry multi clock c a stamps tries s ≡ (ok (kept, cl), s')
        → All (Avoids multi h) kept
    unfolding retry
    retry-Avoids zero s u f v done = ground arith
    retry-Avoids (suc tries) s {kept} {cl} {s'} u f v done =
        go (arun_lifo_dedup multi (clock tries) c a stamps s) refl (λ s'' same again.
          retry-Avoids tries s''
            (subst (λ (x : Links). Unique x.links) same (run-Unique (clock tries) stamps s u))
            (subst (λ (x : Links). find_link c h x.links ≡ some l) same
              (run-keeps_holder (clock tries) stamps h s u f (v tries)))
            v again)
      where
        go :
            (r : Deduped × Links)
            → arun_lifo_dedup multi (clock tries) c a stamps s ≡ r
            → ((s'' : Links)
                → (arun_lifo_dedup multi (clock tries) c a stamps s).1 ≡ s''
                → retry multi clock c a stamps tries s'' ≡ (ok (kept, cl), s')
                → All (Avoids multi h) kept)
            → All (Avoids multi h) kept
        go (ok (k, d), s'') p later =
            run-Avoids (clock tries) stamps h s {kept = kept} {cl = cl} {s' = s'} f (v tries)
              (ground arith)
        go (err hash_link_integrity, s'') p later = later s'' (ap (λ x. x.1) p) (ground arith)
        go (err key_error, s'') p later = absurd (ground arith)
        go (err unbound_local, s'') p later = absurd (ground arith)

  -- Where the table has at most one link for a community and hash: whatever the submission and
  -- however the retries end, a link of the community that another address holds, and that has not
  -- expired at any attempt, is the same row afterwards.
  pub alifo-keeps_holder :
      (clock : ℕ → ℕ) (stamps : Option (List PassportStamp)) (h : Text) {l : HashLink} (s : Links)
      → Unique s.links
      → find_link c h s.links ≡ some l
      → ((t : ℕ) → Live a (clock t) l)
      → find_link c h (alifo multi clock c a stamps s).1.links ≡ some l
  unfolding alifo
  alifo-keeps_holder clock stamps h s u f v = retry-keeps_holder clock stamps h 5 s u f v

  -- Where the table has at most one link for a community and hash, and deduplication succeeds: no
  -- stamp that it keeps has a nullifier whose link in the community another address held before the
  -- call, unexpired at every attempt.
  pub alifo-Avoids :
      (clock : ℕ → ℕ) (stamps : Option (List PassportStamp)) (h : Text) {l : HashLink} (s : Links)
      {kept : List PassportStamp} {cl : Dict PassportStamp} {s' : Links}
      → Unique s.links
      → find_link c h s.links ≡ some l
      → ((t : ℕ) → Live a (clock t) l)
      → alifo multi clock c a stamps s ≡ (ok (kept, cl), s')
      → All (Avoids multi h) kept
  unfolding alifo
  alifo-Avoids clock stamps h s u f v done = retry-Avoids clock stamps h 5 s u f v done
