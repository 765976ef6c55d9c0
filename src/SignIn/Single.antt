-- ===== src/SignIn/Single.antt =====
-- A nonce signs in once (`handle_authenticate_v2` of api/ceramic_cache/api/v1.py and
-- `submit_signed_challenge` of api/account/api.py, on one table of nonces).
use passport_scorer.Common.{
  if◌then◌else◌, Bool-cases, get_or, filter, Text, text_eq, lower, Result-cases, Result, err, ok, ℕ,
  ◌+◌, ◌≤◌, ◌≡◌, refl, ap, inl, inr, Bool, true, false, ◌&&◌, Option, none, some, List, [], ◌∷◌,
  arith,
}
use passport_scorer.Nonces.{create_nonce, use_nonce}
use passport_scorer.Nonces.Once as Once
use passport_scorer.Nonces.Once.{accepted, accepted_once, rows_of, is_spent}
use passport_scorer.SignIn.{Services, checked_address, handle_authenticate_v2, Message}
use passport_scorer.SignIn.Owned.{checked_nonce-ok}
use passport_scorer.SignIn.Accounts.{
  Account, State, Verified, is_at, get_or_create_account, sign_in, checked_nonce,
  submit_signed_challenge, passes, verification_error, other_error,
}

-- The calls, with their times: a nonce is created, or a message is sent to one of the two sign-ins.
pub data Call : Type 0 where
  create : ℕ → Text → Option ℕ → Call
  cache_sign_in : ℕ → Text → Message → Text → Call
  account_sign_in : ℕ → Option Text → Message → Text → Call

-- What the server is set up with: the domains of the two sign-ins, and the libraries.
pub record Setup : Type 0 where
  pub services : Services
  pub verify : Message → Text → Verified
  pub cache_domains : List Text
  pub account_domains : List Text

abbrev pub is_ok {ℓ κ} : {E : Type ℓ} {V : Type κ} → Result E V → Bool
is_ok (err e) = false
is_ok (ok v) = true

abbrev pub has_nonce : Text → Message → Bool
has_nonce n m = text_eq (lower (get_or m.nonce [])) (lower n)

module _ (setup : Setup) (n : Text) where
  -- Whether a call gives a token for a message with the nonce, and the state after it.
  unfoldable pub step : Call → State → Bool × State
  unfolding create_nonce handle_authenticate_v2 submit_signed_challenge
  step (create now token ttl) s = elim (create_nonce now token ttl s.nonces) [
    | ok nonces ↦ (false, record s { nonces = nonces })
    | err e ↦ (false, s)
  ]
  step (cache_sign_in now jti m signature) s =
      let (answer, nonces) =
        handle_authenticate_v2 setup.services setup.cache_domains now jti m signature s.nonces in
      (is_ok answer && has_nonce n m, record s { nonces = nonces })
  step (account_sign_in now ip m signature) s =
      let (answer, s') =
        submit_signed_challenge setup.services.fromisoformat setup.verify setup.account_domains now
          ip m signature s in
      (is_ok answer && has_nonce n m, s')

  -- How many tokens the calls give for messages with the nonce.
  unfoldable pub tokens : List Call → State → ℕ
  unfolding step
  tokens [] s = 0
  tokens (c ∷ cs) s = (if (step c s).0 then 1 else 0) + tokens cs (step c s).1

  -- What a call does to the table of nonces: nothing, or one operation.
  abbrev Does : Option Once.Call → Bool × State → State → Type 0
  Does none (b, s') s = (b ≡ false) × (s'.nonces ≡ s.nonces)
  Does (some c) (b, s') s =
      (b ≡ true → (Once.serve n c s.nonces).0 ≡ true) × (s'.nonces ≡ (Once.serve n c s.nonces).1)

  create-Does :
      (now : ℕ) (token : Text) (ttl : Option ℕ) (s : State)
      → Does (some (Once.create now token ttl)) (step (create now token ttl) s) s
  unfolding step Once.serve
  create-Does now token ttl s = elim (Result-cases (create_nonce now token ttl s.nonces)) [
    | inl (e, h) ↦ rw (h, step, Once.serve) (λ x. x, refl)
    | inr (nonces, h) ↦ rw (h, step, Once.serve) (λ x. x, refl)
  ]

  cache-Does :
      (now : ℕ) (jti : Text) (m : Message) (signature : Text) (s : State)
      → (c : Option Once.Call) × Does c (step (cache_sign_in now jti m signature) s) s
  unfolding step handle_authenticate_v2 Once.serve
  cache-Does now jti m signature s =
      elim (Result-cases (checked_address setup.services setup.cache_domains now m)) [
        | inl (e, h) ↦ (none, rw (h, step, handle_authenticate_v2) (refl, refl))
        | inr (address, h) ↦
            let nonce : Text = get_or m.nonce [] in
            elim (Bool-cases (use_nonce now nonce s.nonces).0) [
              | inl used ↦ (
                some (Once.use_ now nonce),
                rw (h, step, handle_authenticate_v2, used) (λ x. ground (arith, x, used), refl),
              )
              | inr refused ↦ (
                some (Once.use_ now nonce),
                rw (h, step, handle_authenticate_v2, refused) (λ x. cc, refl),
              )
            ]
      ]

  sign_in-nonces :
      (v : Verified) (address ip : Option Text) (s : State)
      → (sign_in v address ip s).1.nonces ≡ s.nonces
  unfolding sign_in get_or_create_account
  sign_in-nonces verification_error address ip s = refl
  sign_in-nonces other_error address ip s = refl
  sign_in-nonces passes none ip s = refl
  sign_in-nonces passes (some address) ip s = by_rows (filter (is_at address) s.accounts) refl
    where
      by_rows :
          (rows : List Account)
          → filter (is_at address) s.accounts ≡ rows
          → (sign_in passes (some address) ip s).1.nonces ≡ s.nonces
      by_rows [] e = rw (e, sign_in, get_or_create_account) refl
      by_rows (a ∷ []) e = rw (e, sign_in, get_or_create_account) refl
      by_rows (a ∷ b ∷ more) e = rw (e, sign_in, get_or_create_account) refl

  account-Does :
      (now : ℕ) (ip : Option Text) (m : Message) (signature : Text) (s : State)
      → (c : Option Once.Call) × Does c (step (account_sign_in now ip m signature) s) s
  unfolding step submit_signed_challenge Once.serve
  account-Does now ip m signature s =
      elim (Result-cases (checked_nonce setup.services.fromisoformat setup.account_domains now m)) [
        | inl (e, h) ↦ (none, rw (h, step, submit_signed_challenge) (refl, refl))
        | inr (nonce, h) ↦
            let given : get_or m.nonce [] ≡ nonce =
              rw
                (checked_nonce-ok setup.services.fromisoformat setup.verify setup.account_domains
                  now m h).0
                refl in
            elim (Bool-cases (use_nonce now nonce s.nonces).0) [
              | inl used ↦ (
                some (Once.use_ now nonce),
                rw (h, step, submit_signed_challenge, used)
                    (
                      λ x. ground (arith, x, used, given),
                      sign_in-nonces (setup.verify m signature) m.address ip
                          (record s { nonces = (use_nonce now nonce s.nonces).1 }),
                    ),
              )
              | inr refused ↦ (
                some (Once.use_ now nonce),
                rw (h, step, submit_signed_challenge, refused) (λ x. cc, refl),
              )
            ]
      ]

  step-Does : (call : Call) (s : State) → (c : Option Once.Call) × Does c (step call s) s
  step-Does (create now token ttl) s =
      (some (Once.create now token ttl), create-Does now token ttl s)
  step-Does (cache_sign_in now jti m signature) s = cache-Does now jti m signature s
  step-Does (account_sign_in now ip m signature) s = account-Does now ip m signature s

  abbrev prepend : Option Once.Call → List Once.Call → List Once.Call
  prepend none more = more
  prepend (some c) more = c ∷ more

  prepend-accepted :
      (o : Option Once.Call) (r : Bool × State) (s : State) (more : List Once.Call) (k : ℕ)
      → Does o r s
      → k ≤ accepted n more r.1.nonces
      → (if r.0 then 1 else 0) + k ≤ accepted n (prepend o more) s.nonces
  unfolding accepted
  prepend-accepted none (b, s') s more k (no_token, same) le =
      rw no_token (omega (arith, le, ap (accepted n more) same))
  prepend-accepted (some c) (b, s') s more k (counts, after) le =
      ground (arith, counts, le, ap (accepted n more) after)

  -- The operations on nonces that a sequence of calls does.
  operations : List Call → State → List Once.Call
  operations [] s = []
  operations (call ∷ calls) s = prepend (step-Does call s).0 (operations calls (step call s).1)

  tokens-accepted :
      (calls : List Call) (s : State) → tokens calls s ≤ accepted n (operations calls s) s.nonces
  unfolding tokens operations accepted
  tokens-accepted [] s = omega arith
  tokens-accepted (call ∷ calls) s =
      prepend-accepted (step-Does call s).0 (step call s) s (operations calls (step call s).1)
        (tokens calls (step call s).1) (step-Does call s).1 (tokens-accepted calls (step call s).1)

  -- Over any sequence of created nonces and of messages to the two sign-ins, at any times, at most
  -- one token is given for a nonce, in any case of its letters, and none if its row is there and is
  -- used already; the table has at most one row of the nonce before.
  pub tokens_once :
      (calls : List Call) (s : State)
      → rows_of n s.nonces ≤ 1
      → tokens calls s ≤ (if is_spent n s.nonces then 0 else 1)
  tokens_once calls s one_row =
      omega (arith, tokens-accepted calls s, accepted_once n (operations calls s) s.nonces one_row)
