-- ===== src/Dedup/Kept.antt =====
-- The stamps that deduplication keeps are among those that it was given
-- (api/account/deduplication/lifo.py).
use passport_scorer.Common.{
  Bool-cases, is_some, find, All, Text, text_in, Result-cases, >>=-ok, Result, err, ok, ℕ, zero,
  suc, ◌≡◌, refl, subst, inl, inr, Bool, some, List, [], ◌∷◌,
}
use passport_scorer.Passport.{PassportStamp}
use passport_scorer.Dedup.{
  Failure, Work, Links, DedupEvent, Deduped, HashLink, hashes_of, stamp_hashes, get_nullifiers,
  collect_nullifiers, clash_events, sort_stamps, save_hash_links, objects, finish, arun_lifo_dedup,
  retry, alifo, hash_link_integrity, key_error, unbound_local,
}
use passport_scorer.Dedup.Holders.{claims}
use passport_scorer.Dedup.Loop.{unclashed}
use passport_scorer.Dedup.Safety.{sort_stamps_lem}

module _ (P : PassportStamp → Type 0) where
  -- The stamps that a run keeps satisfy the predicate; a failed run keeps none.
  abbrev pub KeptAll : Deduped × Links → Type 0
  KeptAll (ok (kept, clashing), s) = All P kept
  KeptAll (err e, s) = Unit

  abbrev AllStamps : List (PassportStamp × List Text) → Type 0
  AllStamps = All (λ p. P p.0)

  collect_nullifiers-All :
      (multi : Bool) (stamps : List PassportStamp) {pairs : List (PassportStamp × List Text)}
      → All P stamps
      → collect_nullifiers multi stamps ≡ ok pairs
      → AllStamps pairs
  unfolding collect_nullifiers
  collect_nullifiers-All multi [] {pairs} h e =
      let none_left : [] ≡ pairs = cc in subst AllStamps none_left tt
  collect_nullifiers-All multi (s ∷ ss) {pairs} h e =
      let (ns, first, more) = >>=-ok (get_nullifiers multi s) _ e in
      let (rest, collected, done) = >>=-ok (collect_nullifiers multi ss) _ more in
      let split : (s, ns) ∷ rest ≡ pairs = cc in
      subst AllStamps split (h.0, collect_nullifiers-All multi ss h.1 collected)

  unclashed-All :
      (clash : List Text) (pairs : List (PassportStamp × List Text))
      → AllStamps pairs
      → All P (unclashed clash pairs)
  unclashed-All clash [] h = tt
  unclashed-All clash ((s, ns) ∷ pairs) h =
      elim (Bool-cases (is_some (find (λ k. text_in k clash) ns))) [
        | inl e ↦ rw e (unclashed-All clash pairs h.1)
        | inr e ↦ rw e (h.0, unclashed-All clash pairs h.1)
      ]

  finish-KeptAll :
      (multi : Bool) (c : ℕ) (a : Text) (w : Work) (r : Result Failure (Unit {0}) × List HashLink)
      (events : List DedupEvent)
      → All P w.kept
      → KeptAll (finish multi c a w r events)
  unfolding finish
  finish-KeptAll multi c a w (err e, table) events h = tt
  finish-KeptAll multi c a w (ok x, table) events h =
      elim (Result-cases (clash_events multi c a w.clashing_stamps)) [
        | inl (e, p) ↦ rw (p, finish) tt
        | inr (new, p) ↦ rw (p, finish) h
      ]

  module _ (multi : Bool) (c : ℕ) (a : Text) where
    arun_lifo_dedup-KeptAll :
        (now : ℕ) (stamps : List PassportStamp) (s : Links)
        → All P stamps
        → KeptAll (arun_lifo_dedup multi now c a (some stamps) s)
    unfolding arun_lifo_dedup
    arun_lifo_dedup-KeptAll now stamps s h =
        elim (Result-cases (sort_stamps multi now c a stamps s.links)) [
          | inl (e, p) ↦ rw (p, arun_lifo_dedup) tt
          | inr (w, p) ↦
              let (pairs, collected, same, kept) = sort_stamps_lem multi c a now stamps s.links p in
              rw (p, arun_lifo_dedup)
                (finish-KeptAll multi c a w
                  (save_hash_links c a w.create (objects w w.update) s.links) s.events
                  (rw kept (
                    unclashed-All (hashes_of (claims c a now (stamp_hashes pairs) s.links).clashing)
                      pairs (collect_nullifiers-All multi stamps h collected))))
        ]

    retry-KeptAll :
        (clock : ℕ → ℕ) (stamps : List PassportStamp) (tries : ℕ) (s : Links)
        → All P stamps
        → KeptAll (retry multi clock c a (some stamps) tries s)
    unfolding retry
    retry-KeptAll clock stamps zero s h = tt
    retry-KeptAll clock stamps (suc tries) s h =
        go (arun_lifo_dedup multi (clock tries) c a (some stamps) s) refl
          (arun_lifo_dedup-KeptAll (clock tries) stamps s h)
          (retry-KeptAll clock stamps tries
            (arun_lifo_dedup multi (clock tries) c a (some stamps) s).1 h)
      where
        go :
            (r : Deduped × Links)
            → arun_lifo_dedup multi (clock tries) c a (some stamps) s ≡ r
            → KeptAll (arun_lifo_dedup multi (clock tries) c a (some stamps) s)
            → KeptAll (
                retry multi clock c a
                  (some stamps)
                  tries
                  (arun_lifo_dedup multi (clock tries) c a (some stamps) s).1)
            → KeptAll (retry multi clock c a (some stamps) (suc tries) s)
        go (ok done, s') p now later = rw (p, retry) (rw p at now)
        go (err hash_link_integrity, s') p now later = rw (p, retry) later
        go (err key_error, s') p now later = rw (p, retry) tt
        go (err unbound_local, s') p now later = rw (p, retry) tt

    pub alifo-KeptAll :
        (clock : ℕ → ℕ) (stamps : List PassportStamp) (s : Links)
        → All P stamps
        → KeptAll (alifo multi clock c a (some stamps) s)
    unfolding alifo
    alifo-KeptAll clock stamps s h = retry-KeptAll clock stamps 5 s h
