-- ===== src/Cache/Success.antt =====
-- When the constraints of `CeramicCache` (api/ceramic_cache/models.py) let an add of stamps through
-- (api/ceramic_cache/api/v1.py).
use passport_scorer.Common.{
  ltb, if◌then◌else◌, any, All, Text, text_in, ℕ, ◌≡◌, Bool, true, false, not, ◌&&◌, none, some,
  List, [], ◌∷◌,
}
use passport_scorer.Cache.Effects.{Claimed}
use passport_scorer.Cache.{Row, clashes}

-- Every deletion in the table was before.
abbrev pub deleted_before : ℕ → Row → Bool
deleted_before now r = elim r.deleted_at [ none ↦ true | some t ↦ ltb t now ]

-- The providers of a payload are pairwise different.
abbrev pub are_distinct : List Text → Bool
are_distinct [] = true
are_distinct (p ∷ ps) = not (text_in p ps) && are_distinct ps

abbrev pub deleted_now : ℕ → (Row → Bool) → Row → Row
deleted_now now sel r = if sel r then record r { updated_at = now; deleted_at = some now } else r

-- The rows to come clash with none that is there, and not with each other.
abbrev AreFree : List Row → List Row → Type 0
AreFree [] rs = Unit
AreFree (r ∷ news) rs =
    (any (clashes r) rs ≡ false) × All (λ q. clashes q r ≡ false) news × AreFree news rs

abbrev row_providers : List Row → List Text
row_providers [] = []
row_providers (r ∷ rs) = r.provider ∷ row_providers rs

abbrev names : List Claimed → List Text
names [] = []
names (c ∷ cs) = c.0 ∷ names cs
