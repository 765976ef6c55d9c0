-- ===== src/ApiKeys/Revoked.antt =====
-- Revoked keys (`ApiKey.authenticate` and `aapi_key` in api/registry/api/utils.py).
use passport_scorer.Common.{
  Bool-cases, filter, Text, text_eq, keys, Result-cases, err, ok, ◌≡◌, refl, inl, inr, Bool, true,
  false, List, [], ◌∷◌, map, arith,
}
use passport_scorer.ApiKeys.{
  AccountApiKey, Request, Settings, Access, verify_key, before_first, only_row, sync_key, async_key,
  admit, authenticate, aapi_key,
}

-- The request goes on.
abbrev pub admits : Access → Bool
admits (ok r, keys) = true
admits (err e, keys) = false

abbrev revoke : AccountApiKey → AccountApiKey
revoke r = record r { revoked = true }

abbrev pub revoke_all : List AccountApiKey → List AccountApiKey
revoke_all = map revoke

get_by_prefix-revoke_all :
    (p : Text) (keys : List AccountApiKey)
    → filter (λ r. text_eq r.prefix p) (revoke_all keys)
      ≡ revoke_all (filter (λ r. text_eq r.prefix p) keys)
get_by_prefix-revoke_all p [] = refl
get_by_prefix-revoke_all p (r ∷ keys) = ground (arith, get_by_prefix-revoke_all p keys)

no_usable :
    (is_usable : AccountApiKey → Bool)
    → ((r : AccountApiKey) → r.revoked ≡ true → is_usable r ≡ false)
    → (keys : List AccountApiKey) → filter is_usable (revoke_all keys) ≡ []
no_usable is_usable h [] = refl
no_usable is_usable h (r ∷ keys) = rw (h (revoke r) refl) (no_usable is_usable h keys)

module _ (sha256 : Text → Text) (check_password : Text → Text → Bool) where
  admit-revoke :
      (key : Text) (rows keys keys' : List AccountApiKey)
      → admits (admit sha256 check_password key keys' (only_row (revoke_all rows)))
        ≡ admits (admit sha256 check_password key keys (only_row rows))
  unfolding admit
  admit-revoke key [] keys keys' = refl
  admit-revoke key (r ∷ []) keys keys' =
      let v = verify_key sha256 check_password key r.hashed_key r.hashed_key_sha256 in
      elim (Bool-cases v.0) [
        | inr e ↦ rw e refl
        | inl e ↦ elim (Bool-cases v.1) [ inl f ↦ rw (e, f) refl | inr f ↦ rw (e, f) refl ]
      ]
  admit-revoke key (r ∷ x ∷ rows) keys keys' = refl

  -- Where revoked rows are not usable: revoking every key makes `aapi_key` refuse every request, but
  -- `authenticate` lets a request on exactly if it did before, since it never reads the flag.
  pub authenticate_revoked :
      (is_usable : AccountApiKey → Bool)
      → ((r : AccountApiKey) → r.revoked ≡ true → is_usable r ≡ false)
      → (settings : Settings) (request : Request) (keys : List AccountApiKey)
      → (admits (aapi_key sha256 check_password is_usable settings request (revoke_all keys))
          ≡ false)
        × (admits (authenticate sha256 check_password settings request (revoke_all keys))
            ≡ admits (authenticate sha256 check_password settings request keys))
  unfolding aapi_key authenticate admit
  authenticate_revoked is_usable h settings request keys = (
    elim (Result-cases (async_key settings request)) [
      | inl (e, p) ↦ rw (p, aapi_key) refl
      | inr (key, p) ↦ rw (p, aapi_key, no_usable is_usable h keys) refl
    ],
    elim (Result-cases (sync_key settings request)) [
      | inl (e, p) ↦ rw (p, authenticate) refl
      | inr (key, p) ↦
          rw (p, authenticate, get_by_prefix-revoke_all (before_first b'.' key) keys)
            (admit-revoke key (filter (λ r. text_eq r.prefix (before_first b'.' key)) keys) keys
              (revoke_all keys))
    ],
  )
