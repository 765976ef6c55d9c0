-- ===== src/Dedup/Loop.antt =====
-- The loop over the stamps (lines 93 to 152 of api/account/deduplication/lifo.py): which stamps it
-- keeps, and what it leaves alone.
use passport_scorer.Common.{
  if◌then◌else◌, is_some, find, Text, text_in, >>=-ok, ok, ℕ, ◌≡◌, refl, ◌∙◌, Bool, List, [], ◌∷◌,
  ◌++◌, append-nil, append_assoc, arith,
}
use passport_scorer.Passport.{PassportStamp, PyDate}
use passport_scorer.Dedup.{
  HashLink, Work, hashes_of, renew, claim, claim_all, backfill, process_stamp, process_stamps,
}

abbrev clashes : List Text → List Text → Bool
clashes clash ns = is_some (find (λ h. text_in h clash) ns)

-- The stamps with no nullifier among the clashing hashes, in order.
abbrev pub unclashed : List Text → List (PassportStamp × List Text) → List PassportStamp
unclashed clash [] = []
unclashed clash ((s, ns) ∷ ps) =
    if clashes clash ns then unclashed clash ps else s ∷ unclashed clash ps

pub hashes_of-renew :
    (h a : Text) (e : PyDate) (ls : List HashLink) → hashes_of (renew h a e ls) ≡ hashes_of ls
hashes_of-renew h a e [] = refl
hashes_of-renew h a e (l ∷ ls) = ground (arith, hashes_of-renew h a e ls)

-- What the loop does not change of a `Work`: the hashes of the objects that it may update.
pub record SameObjects (w v : Work) : Type 0 where
  pub own : hashes_of v.own ≡ hashes_of w.own
  pub forfeited : hashes_of v.forfeited ≡ hashes_of w.forfeited

same_refl : (w : Work) → SameObjects w w
same_refl w = record { own = refl; forfeited = refl }

same_trans : {u v w : Work} → SameObjects u v → SameObjects v w → SameObjects u w
same_trans p q = record { own = q.own ∙ p.own; forfeited = q.forfeited ∙ p.forfeited }

module _ (c : ℕ) (a : Text) where
  claim-SameObjects :
      (e : PyDate) (h : Text) (w : Work)
      → SameObjects w (claim c a e h w) × ((claim c a e h w).kept ≡ w.kept)
  unfolding claim
  claim-SameObjects e h w = grind (arith, hashes_of-renew)

  claim_all-SameObjects :
      (e : PyDate) (hs : List Text) (w : Work)
      → SameObjects w (claim_all c a e hs w) × ((claim_all c a e hs w).kept ≡ w.kept)
  unfolding claim_all
  claim_all-SameObjects e [] w = (same_refl w, refl)
  claim_all-SameObjects e (h ∷ hs) w =
      let (s, k) = claim-SameObjects e h w in
      let (s', k') = claim_all-SameObjects e hs (claim c a e h w) in (same_trans s s', k' ∙ k)

  backfill-SameObjects :
      (l : HashLink) (clash hs : List Text) (w : Work)
      → SameObjects w (backfill c l clash hs w) × ((backfill c l clash hs w).kept ≡ w.kept)
  unfolding backfill
  backfill-SameObjects l clash [] w = (same_refl w, refl)
  backfill-SameObjects l clash (h ∷ hs) w = ground (
    arith,
    backfill-SameObjects l clash hs w,
    backfill-SameObjects l clash hs (record w {
      create =
          w.create
          ++ record { hash = h; community = c; address = l.address; expires_at = l.expires_at }
            ∷ [];
    }),
  )

  module _ (clashing : List HashLink) where
    abbrev kept_after : PassportStamp → List Text → Work → List PassportStamp
    kept_after s ns w = if clashes (hashes_of clashing) ns then w.kept else w.kept ++ s ∷ []

    process_stamp-SameObjects :
        (s : PassportStamp) (ns : List Text) (w : Work) {v : Work}
        → process_stamp c a clashing s ns w ≡ ok v
        → SameObjects w v × (v.kept ≡ kept_after s ns w)
    unfolding process_stamp
    process_stamp-SameObjects s ns w h = grind (arith, claim_all-SameObjects, backfill-SameObjects)

    pub process_stamps-SameObjects :
        (ps : List (PassportStamp × List Text)) (w : Work) {v : Work}
        → process_stamps c a clashing ps w ≡ ok v
        → SameObjects w v × (v.kept ≡ w.kept ++ unclashed (hashes_of clashing) ps)
    unfolding process_stamps
    process_stamps-SameObjects [] w h = ground (arith, append-nil w.kept, same_refl w)
    process_stamps-SameObjects ((s, ns) ∷ ps) w {v} h =
        let (u, first, rest) =
          >>=-ok (process_stamp c a clashing s ns w) (process_stamps c a clashing ps) h in
        let (same, kept) = process_stamp-SameObjects s ns w first in
        let (same', kept') = process_stamps-SameObjects ps u rest in
        (
          same_trans same same',
          ground (
            arith,
            kept,
            kept',
            append_assoc w.kept (s ∷ []) (unclashed (hashes_of clashing) ps),
          ),
        )
