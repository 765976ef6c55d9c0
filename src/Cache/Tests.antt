-- ===== src/Cache/Tests.antt =====
-- Runs of the handlers of the stamp cache, and the theorems at them.
use passport_scorer.Common.{
  filter, Text, codes, text_eq, lower, err, ok, ℕ, ◌≡◌, refl, none, some, List, [], ◌∷◌,
}
use passport_scorer.Cache.{
  replaced, handle_add_stamps_only, handle_patch_stamps, handle_delete_stamps, StatusUpdate,
  update_ids, awaits_update, handle_update_compose_db_status, same_type, StampDoc, Row, Store,
  CacheStampPayload, passport_state, v1, passport, pending, saved, integrity_error,
}
use passport_scorer.Cache.Calls.{serve, add}
use passport_scorer.Cache.Effects.{live_for, claimed, add_stamps_lem}
use passport_scorer.Cache.Isolation.{others, serve-others}
use passport_scorer.Cache.Status.{with_updates, update_compose_db_status_lem}

abbrev doc : Text → StampDoc
doc proof = record {
  id = none;
  hash = none;
  nullifiers = none;
  provider = none;
  proof_value = some proof;
  issuance_date = none;
  expiration_date = some 90;
}

abbrev row : ℕ → Text → Text → Row
row pk address provider = record {
  pk = pk;
  type = v1;
  address = address;
  provider = provider;
  stamp = doc (codes "p");
  proof_value = codes "p";
  updated_at = 0;
  deleted_at = none;
  status = pending;
  stream_id = [];
  issuance_date = none;
  expiration_date = some 90;
  source_app = none;
  source_scorer_id = none;
}

abbrev store : Store
store = record {
  rows = row 1 (codes "0xa") (codes "Google") ∷ row 2 (codes "0xb") (codes "Google") ∷ [];
  next_pk = 3;
  revocations = [];
}

abbrev google : CacheStampPayload
google = record { provider = codes "Google"; stamp = some (doc (codes "q")) }

abbrev github : CacheStampPayload
github = record { provider = codes "Github"; stamp = none }

abbrev new_google : Row
new_google = record (row 3 (codes "0xa") (codes "Google")) {
  stamp = doc (codes "q");
  proof_value = codes "q";
  updated_at = 7;
  source_app = some passport;
  source_scorer_id = some 335;
}

abbrev after_add : Store
after_add = record {
  rows =
      record (row 1 (codes "0xa") (codes "Google")) { updated_at = 7; deleted_at = some 7 }
      ∷ row 2 (codes "0xb") (codes "Google")
      ∷ new_google
      ∷ [];
  next_pk = 4;
  revocations = [];
}

add_google :
    handle_add_stamps_only 100 7 (codes "0xA") (google ∷ []) passport (some 335) store
    ≡ (ok (new_google ∷ []), after_add)
unfolding handle_add_stamps_only text_eq
add_google = refl

-- Two entries for one provider break the constraint; the old row stays deleted.
add_twice :
    let (r, s) =
      handle_add_stamps_only 100 7 (codes "0xA") (google ∷ google ∷ []) passport none store in
    (r ≡ err integrity_error) × (live_for (codes "0xa") (codes "Google" ∷ []) s.rows ≡ [])
unfolding handle_add_stamps_only text_eq
add_twice = (refl, refl)

-- A row that was deleted at the very time makes the deletion of another break the constraint.
same_time :
    (handle_delete_stamps 100 7 (codes "0xA") (codes "Google" ∷ []) (record store {
      rows = record (row 9 (codes "0xa") (codes "Google")) { deleted_at = some 7 } ∷ store.rows;
    })).0
    ≡ err integrity_error
unfolding handle_delete_stamps text_eq same_type
same_time = refl

serve-others_example :
    others (codes "0xA") (serve 100 7 (add (codes "0xA") (google ∷ []) passport none) store).rows
    ≡ row 2 (codes "0xb") (codes "Google") ∷ []
unfolding text_eq lower
serve-others_example = serve-others 100 7 (add (codes "0xA") (google ∷ []) passport none) store

add_stamps_example :
    (claimed (filter (replaced (codes "0xA") (codes "Google" ∷ [])) after_add.rows)
      ≡ (codes "Google", some (doc (codes "q"))) ∷ [])
    × (new_google ∷ [] ≡ passport_state (codes "0xA") after_add)
add_stamps_example =
    add_stamps_lem 100 7 (codes "0xA") (google ∷ []) passport (some 335) store add_google

abbrev after_patch : Store
after_patch = record {
  rows =
      record (row 1 (codes "0xa") (codes "Google")) { updated_at = 7; deleted_at = some 7 }
      ∷ row 2 (codes "0xb") (codes "Google")
      ∷ record new_google { source_app = none; source_scorer_id = none }
      ∷ [];
  next_pk = 4;
  revocations = [];
}

patch_google :
    handle_patch_stamps 100 7 (codes "0xA") (google ∷ github ∷ []) store
    ≡ (ok (record new_google { source_app = none; source_scorer_id = none } ∷ []), after_patch)
unfolding handle_patch_stamps text_eq
patch_google = refl

abbrev updates : List StatusUpdate
updates =
    record { id = 1; status = saved; stream_id = some (codes "s") }
    ∷ record { id = 1; status = pending; stream_id = none }
    ∷ record { id = 2; status = saved; stream_id = none }
    ∷ []

update_compose_db_status_example :
    (handle_update_compose_db_status 100 7 (codes "0xA") updates store).1 ≡ record store {
      rows = with_updates 7 (awaits_update (codes "0xA") (update_ids updates)) updates store.rows;
    }
update_compose_db_status_example =
    update_compose_db_status_lem 100 7 (codes "0xA") updates store (refl, (refl, tt))
