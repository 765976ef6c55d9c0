-- ===== src/Reader/Tests.antt =====
-- Reading a small cache, and the theorem at it.
use passport_scorer.Common.{
  leb, if◌then◌else◌, length, filter, any, all, All, codes, text_eq, lower, ◌≡◌, refl, true, none,
  List, [], ◌∷◌,
}
use passport_scorer.Cache.{Row, Store, v1, v2, unset}
use passport_scorer.Reader.{is_readable, aget_passport}
use passport_scorer.Reader.Latest.{is_of, aget_passport-latest}

abbrev old_row : Row
old_row = record {
  pk = 1;
  type = v1;
  address = codes "0xb";
  provider = codes "Github";
  stamp = record {
    id = none;
    hash = none;
    nullifiers = none;
    provider = none;
    proof_value = none;
    issuance_date = none;
    expiration_date = none;
  };
  proof_value = codes "z1";
  updated_at = 5;
  deleted_at = none;
  status = unset;
  stream_id = [];
  issuance_date = none;
  expiration_date = none;
  source_app = none;
  source_scorer_id = none;
}

-- Live rows of both types, and one of another provider that is revoked.
abbrev new_row : Row
new_row = record old_row { pk = 2; type = v2; updated_at = 7 }

abbrev revoked_row : Row
revoked_row = record old_row { pk = 3; provider = codes "Google" }

abbrev cache : Store
cache = record {
  rows = old_row ∷ new_row ∷ revoked_row ∷ [];
  next_pk = 4;
  revocations = record { proof_value = codes "z1"; cache_pk = 3 } ∷ [];
}

reads_new_row : aget_passport (codes "0xB") cache ≡ new_row ∷ []
unfolding aget_passport text_eq lower
reads_new_row = refl

aget_passport-latest_example :
    (found : List Row) × (filter (is_of (codes "Github")) (aget_passport (codes "0xB") cache)
      ≡ found)
    × (length found ≡ (
        if any (is_of (codes "Github")) (filter (is_readable (codes "0xB") cache) cache.rows)
        then 1
        else 0))
    × All (λ r. is_readable (codes "0xB") cache r ≡ true) found
    × All
        (λ r.
          all
            (λ q. leb q.updated_at r.updated_at)
            (filter (is_of (codes "Github")) (filter (is_readable (codes "0xB") cache) cache.rows))
          ≡ true)
        found
aget_passport-latest_example = aget_passport-latest (codes "0xB") cache (codes "Github")
