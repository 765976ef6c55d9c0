-- ===== src/Cache/Calls.antt =====
-- Calls of the handlers of the stamp cache (api/ceramic_cache/api/v1.py), one after another.
use passport_scorer.Common.{Text, ℕ, Option, List}
use passport_scorer.Cache.{
  handle_add_stamps_only, handle_patch_stamps, handle_delete_stamps, StatusUpdate,
  handle_update_compose_db_status, SourceApp, Store, CacheStampPayload,
}

-- What the handlers are called with.
pub data Call : Type 0 where
  add : Text → List CacheStampPayload → SourceApp → Option ℕ → Call
  patch : Text → List CacheStampPayload → Call
  remove : Text → List Text → Call
  set_status : Text → List StatusUpdate → Call

-- The store after a call at the time `now`.
unfoldable pub serve : ℕ → ℕ → Call → Store → Store
unfolding handle_add_stamps_only handle_patch_stamps handle_delete_stamps
    handle_update_compose_db_status
serve limit now (add address payload app scorer) s =
    (handle_add_stamps_only limit now address payload app scorer s).1
serve limit now (patch address payload) s = (handle_patch_stamps limit now address payload s).1
serve limit now (remove address providers) s =
    (handle_delete_stamps limit now address providers s).1
serve limit now (set_status address us) s =
    (handle_update_compose_db_status limit now address us s).1
