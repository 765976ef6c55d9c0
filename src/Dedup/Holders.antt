-- ===== src/Dedup/Holders.antt =====
-- The claims on a table of links (lines 61 to 76 of api/account/deduplication/lifo.py): a link that
-- another address holds and that has not expired is a clash, and nothing else.
use passport_scorer.Common.{
  ltb, ==_iff, Text, text_eq, text_eq_iff, text_in, ℕ, ◌≡◌, refl, true, false, none, some, List, [],
  ◌∷◌, arith,
}
use passport_scorer.Passport.{instant}
use passport_scorer.Dedup.{HashLink, Claims, classify, existing_links, hashes_of, find_link}

-- `unique_together` of `HashScorerLink`.
abbrev pub Unique : List HashLink → Type 0
Unique [] = Unit
Unique (l ∷ ls) = (find_link l.community l.hash ls ≡ none) × Unique ls

-- Held by another address than `a`, and not expired at `now`.
abbrev pub Live : Text → ℕ → HashLink → Type 0
Live a now l = (text_eq l.address a ≡ false) × (ltb now (instant l.expires_at) ≡ true)

module _ (c : ℕ) (a : Text) (now : ℕ) (hs : List Text) where
  abbrev pub claims : List HashLink → Claims
  claims ls = classify a now (existing_links c hs ls)

  -- A hash with no link in the community is in none of the lists.
  pub record Absent (h : Text) (k : Claims) : Type 0 where
    pub own : text_in h (hashes_of k.own) ≡ false
    pub forfeited : text_in h (hashes_of k.forfeited) ≡ false

  claims-Absent : (h : Text) (ls : List HashLink) → find_link c h ls ≡ none → Absent h (claims ls)
  unfolding classify
  claims-Absent h [] e = record { own = refl; forfeited = refl }
  claims-Absent h (l ∷ ls) e =
      ground (arith, text_eq_iff l.hash h, text_eq_iff h l.hash, claims-Absent h ls)

  -- A live link of another address is neither the submitter's nor forfeited.
  pub holder-Absent :
      (h : Text) {l : HashLink} (ls : List HashLink)
      → Unique ls
      → find_link c h ls ≡ some l
      → Live a now l
      → Absent h (claims ls)
  unfolding classify
  holder-Absent h {l} [] u e v = cc
  holder-Absent h {l} (x ∷ ls) u e v = ground (
    arith,
    text_eq_iff x.hash h,
    text_eq_iff h x.hash,
    ==_iff x.community c,
    claims-Absent h ls,
    holder-Absent h {l = l} ls u.1,
  )

  -- It is among the clashes if a stamp has its hash.
  pub holder_clashes :
      (h : Text) {l : HashLink} (ls : List HashLink)
      → find_link c h ls ≡ some l
      → Live a now l
      → text_in h hs ≡ true
      → text_in h (hashes_of (claims ls).clashing) ≡ true
  unfolding classify
  holder_clashes h {l} [] e v m = cc
  holder_clashes h {l} (x ∷ ls) e v m =
      ground (arith, text_eq_iff x.hash h, text_eq_iff h x.hash, holder_clashes h {l = l} ls)
