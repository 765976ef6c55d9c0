-- ===== src/ApiKeys/Tests.antt =====
-- Runs of the API keys' authentications (api/registry/api/utils.py) on concrete tables.
use passport_scorer.Common.{
  Text, codes, text_eq, ok, ◌≡◌, refl, Bool, true, false, not, none, some, [], ◌∷◌, ◌++◌,
}
use passport_scorer.ApiKeys.{
  AccountApiKey, Request, Settings, sync_key, async_key, authenticate, aapi_key, check_rate_limit,
  authorization_key,
}
use passport_scorer.ApiKeys.Revoked.{admits, revoke_all, authenticate_revoked}

-- A digest and a password hash that tell all keys apart.
abbrev digest : Text → Text
digest key = key

abbrev password_of : Text → Text → Bool
password_of key hash = text_eq (codes "pbkdf2_sha256$" ++ key) hash

abbrev old_key : AccountApiKey
old_key = record {
  prefix = codes "ab";
  hashed_key = codes "pbkdf2_sha256$ab.x";
  hashed_key_sha256 = none;
  revoked = false;
  account = 1;
  rate_limit = some (codes "10/m");
  analysis_rate_limit = some [];
}

abbrev settings : Settings
settings = record { demo_api_key = codes "de.mo"; demo_api_key_aliases = codes "demo" ∷ [] }

abbrev with_key : Text → Request
with_key key = record { api_key_header = some key; authorization = none }

abbrev usable : AccountApiKey → Bool
usable r = not r.revoked

migrated :
    (authenticate digest password_of settings (with_key (codes "ab.x")) (old_key ∷ [])).1
    ≡ record old_key { hashed_key_sha256 = some (codes "sha256$ab.x") } ∷ []
unfolding authenticate text_eq
migrated = refl

usable_revoked : (r : AccountApiKey) → r.revoked ≡ true → usable r ≡ false
usable_revoked r h = rw h refl

authenticate_revoked_example :
    (admits (
        aapi_key digest password_of usable settings
          (with_key (codes "ab.x"))
          (revoke_all (old_key ∷ [])))
      ≡ false)
    × (admits (
          authenticate digest password_of settings
            (with_key (codes "ab.x"))
            (revoke_all (old_key ∷ [])))
        ≡ admits
            (authenticate digest password_of settings (with_key (codes "ab.x")) (old_key ∷ [])))
authenticate_revoked_example =
    authenticate_revoked digest password_of usable usable_revoked settings (with_key (codes "ab.x"))
      (old_key ∷ [])

revoked_key_admitted :
    admits (
      authenticate digest password_of settings
        (with_key (codes "ab.x"))
        (revoke_all (old_key ∷ [])))
    ≡ true
unfolding authenticate text_eq
revoked_key_admitted = refl

by_authorization :
    authorization_key
      (record { api_key_header = none; authorization = some (codes "Bearer  ab.x") })
    ≡ ok (codes "ab.x")
unfolding authorization_key
by_authorization = refl

alias_of_header :
    (sync_key settings (with_key (codes "demo")) ≡ ok (codes "de.mo"))
    × (async_key settings (with_key (codes "demo")) ≡ ok (codes "de.mo"))
unfolding sync_key async_key text_eq
alias_of_header = (refl, refl)

unlimited_analysis :
    check_rate_limit (λ group prefix rate. true) (codes "/passport/analysis/") old_key ≡ false
unfolding check_rate_limit
unlimited_analysis = refl
