-- ===== src/Bans/Tests.antt =====
-- Runs of the ban checks, and the theorems at them.
use passport_scorer.Common.{
  if◌then◌else◌, any, All, Text, codes, text_eq, after_last, Result, err, ok, ℕ, ◌≡◌, refl, Bool,
  true, none, some, List, [], ◌∷◌, map,
}
use passport_scorer.Cache.{Row, Store, Revocation, v1, pending}
use passport_scorer.Bans.{
  Ban, Failure, clean, has_valid_fields, save, revoke_matching_credentials, Credential,
  CheckBanResult, unique_id, handle_check_bans, account, hash, validation_error,
  internal_server_error,
}
use passport_scorer.Bans.Lookup.{lacks_hash, reading, handle_check_bans-reading}
use passport_scorer.Bans.Revoke.{IsRevokedBy, revoke_matching_credentials-IsRevokedBy}

abbrev account_ban : Ban
account_ban = record {
  type = account;
  provider = [];
  hash = [];
  address = codes "0xa";
  end_time = none;
  reason = none;
  last_run_revoke_matching = none;
}

abbrev hash_ban : Ban
hash_ban = record account_ban { type = hash; hash = codes "v0:h"; address = []; end_time = some 50 }

abbrev credential : Credential
credential = record {
  id = some (codes "did:pkh:eip155:1:0xA");
  hash = some (codes "v0:h");
  provider = some (codes "Google");
}

abbrev map_banned : Result Failure (List CheckBanResult) → List Bool
map_banned (ok rs) = map (λ r. r.is_banned) rs
map_banned (err e) = []

-- The hash ban has ended, so the account ban answers, found by the lowered address.
check_bans :
    map_banned (handle_check_bans 60 (hash_ban ∷ account_ban ∷ []) (credential ∷ [])) ≡ true ∷ []
unfolding handle_check_bans text_eq
check_bans = refl

-- A credential without a hash makes the answer fail.
without_hash :
    handle_check_bans 60 (account_ban ∷ []) (record credential { hash = none } ∷ [])
    ≡ err internal_server_error
unfolding handle_check_bans text_eq
without_hash = refl

handle_check_bans-reading_example :
    handle_check_bans 60 (hash_ban ∷ account_ban ∷ []) (credential ∷ credential ∷ []) ≡ (
      if any lacks_hash (credential ∷ credential ∷ [])
      then err internal_server_error
      else ok (
          map
            (reading 60
              (hash_ban ∷ account_ban ∷ [])
              (after_last b':' (codes "did:pkh:eip155:1:0xA")))
            (credential ∷ credential ∷ [])))
unfolding clean unique_id text_eq
handle_check_bans-reading_example =
    handle_check_bans-reading 60 (hash_ban ∷ account_ban ∷ []) (credential ∷ credential ∷ [])
      (refl, (refl, tt)) refl

abbrev revocation : Revocation
revocation = record { proof_value = codes "p"; cache_pk = 9 }

abbrev row : ℕ → Text → Row
row pk address = record {
  pk = pk;
  type = v1;
  address = address;
  provider = codes "Google";
  stamp = record {
    id = none;
    hash = none;
    nullifiers = none;
    provider = none;
    proof_value = none;
    issuance_date = none;
    expiration_date = none;
  };
  proof_value = codes "p";
  updated_at = 0;
  deleted_at = none;
  status = pending;
  stream_id = [];
  issuance_date = none;
  expiration_date = none;
  source_app = none;
  source_scorer_id = none;
}

abbrev store : Store
store = record {
  rows = row 1 (codes "0xa") ∷ row 2 (codes "0xb") ∷ [];
  next_pk = 3;
  revocations = [];
}

revoked_by_account_ban :
    (revoke_matching_credentials 7 account_ban store).1.revocations
    ≡ record { proof_value = codes "p"; cache_pk = 1 } ∷ []
unfolding revoke_matching_credentials text_eq
revoked_by_account_ban = refl

revoke_matching_credentials_example :
    All
      (IsRevokedBy account_ban store (revoke_matching_credentials 7 account_ban store).1)
      store.rows
    × ((revoke_matching_credentials 7 account_ban store).0 ≡ (
        if has_valid_fields account_ban
        then ok (record account_ban { last_run_revoke_matching = some 7 })
        else err validation_error))
unfolding clean
revoke_matching_credentials_example =
    revoke_matching_credentials-IsRevokedBy 7 account_ban store (refl, (refl, tt)) refl

-- Saving a hash ban raises.
hash_ban_refused : save hash_ban [] ≡ err validation_error
unfolding save
hash_ban_refused = refl

abbrev blank : Ban
blank = record account_ban { address = [] }
