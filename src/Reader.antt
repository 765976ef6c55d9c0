-- ===== src/Reader.antt =====
-- Reading a passport from the cache (api/reader/passport_reader.py).
pub mod Latest
mod Tests
use passport_scorer.Common.{
  ltb, ◌==◌, if◌then◌else◌, get_or, filter, any, Text, codes, lower, Dict, lookup, insert, Bool,
  not, ◌&&◌, Option, none, some, List, [], ◌∷◌, ◌++◌,
}
use passport_scorer.Cache.{Row, Store, is_live, has_address}

-- `get_did(address)`
unfoldable pub get_did : Text → Text
unfolding lower
get_did address = lower (codes "did:pkh:eip155:1:" ++ address)

-- `deleted_at__isnull=True, revocation__isnull=True`
abbrev pub is_readable : Text → Store → Row → Bool
is_readable address s r =
    has_address address r && is_live r && not (any (λ v. v.cache_pk == r.pk) s.revocations)

-- `stamps_by_provider`
unfoldable pub group_by_provider : List Row → Dict (List Row) → Dict (List Row)
group_by_provider [] d = d
group_by_provider (r ∷ rs) d =
    group_by_provider rs (insert r.provider (get_or (lookup r.provider d) [] ++ r ∷ []) d)

-- The loop over the stamps of one provider.
unfoldable pub latest_stamp : Option Row → List Row → Option Row
latest_stamp latest [] = latest
latest_stamp none (r ∷ rs) = latest_stamp (some r) rs
latest_stamp (some l) (r ∷ rs) =
    latest_stamp (if ltb l.updated_at r.updated_at then some r else some l) rs

unfoldable pub latest_stamps : Dict (List Row) → List Row
unfolding latest_stamp
latest_stamps [] = []
latest_stamps ((p, rs) ∷ d) = elim (latest_stamp none rs) [
  | none ↦ latest_stamps d
  | some r ↦ r ∷ latest_stamps d
]

-- `aget_passport`
unfoldable pub aget_passport : Text → Store → List Row
unfolding group_by_provider latest_stamps
aget_passport address s =
    latest_stamps (group_by_provider (filter (is_readable address s) s.rows) [])
