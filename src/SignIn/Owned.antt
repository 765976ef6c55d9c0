-- ===== src/SignIn/Owned.antt =====
-- Whose token the sign-in of accounts gives (`submit_signed_challenge` of api/account/api.py).
use passport_scorer.Common.{
  Bool-cases, is_some, filter, find, head?, filter-append, Text, text_eq_refl, lower, keys, ok_or,
  ok_or-ok, Result-cases, ◌>>◌, raise_if, raise_if-ok, Result, err, ok, ℕ, ◌≡◌, refl, sym, ap, ◌∙◌,
  subst, inl, inr, Bool, true, not, ◌||◌, Option, none, some, List, [], ◌∷◌, ◌++◌, arith,
}
use passport_scorer.Nonces.{Nonce, use_nonce}
use passport_scorer.SignIn.{
  invalid_nonce, Message, PyTime, validate_siwe_domain, validate_siwe_expiration,
}
use passport_scorer.SignIn.Accounts.{
  Account, State, UserToken, Refusal, Verified, is_at, get_or_create_account, token_of, sign_in,
  checked_nonce, submit_signed_challenge, failed_verification, invalid_nonce, key_error, passes,
  verification_error, other_error,
}
use passport_scorer.SignIn.Trusted.{
  NotExpired, validate_siwe_expiration-NotExpired, IsAllowed, validate_siwe_domain-IsAllowed,
}

-- The token is of the user of an account that is in the table, at the address.
abbrev pub IsOf : Text → UserToken → State → Type 0
IsOf address token s =
    (a : Account) × (find (is_at address) s.accounts ≡ some a) × (token.user ≡ a.user)

find-filter : (p : Account → Bool) (xs : List Account) → find p xs ≡ head? (filter p xs)
find-filter p [] = refl
find-filter p (x ∷ xs) = ground (arith, find-filter p xs)

get_or_create_account-finds :
    (address : Text) (s : State) {a : Account}
    → (get_or_create_account address s).0 ≡ ok a
    → find (is_at address) (get_or_create_account address s).1.accounts ≡ some a
unfolding get_or_create_account
get_or_create_account-finds address s {a} h = by_rows (filter (is_at address) s.accounts) refl
  where
    by_rows :
        (rows : List Account)
        → filter (is_at address) s.accounts ≡ rows
        → find (is_at address) (get_or_create_account address s).1.accounts ≡ some a
    by_rows [] e =
        let new : Account = record {
          id = s.next_account;
          address = lower address;
          user = s.next_user;
        } in
        let made : (get_or_create_account address s).1.accounts ≡ s.accounts ++ new ∷ [] =
          rw (e, get_or_create_account) refl in
        let answer : (get_or_create_account address s).0 ≡ ok new =
          rw (e, get_or_create_account) refl in
        let same : new ≡ a = cc (h, answer) in
        let own : filter (is_at address) (new ∷ []) ≡ new ∷ [] =
          rw (text_eq_refl (lower address)) refl in
        let found : filter (is_at address) (s.accounts ++ new ∷ []) ≡ new ∷ [] =
          filter-append (is_at address) s.accounts (new ∷ []) ∙ rw e own in
        ap (find (is_at address)) made
        ∙ find-filter (is_at address) (s.accounts ++ new ∷ [])
        ∙ ap head? found
        ∙ ap some same
    by_rows (b ∷ []) e =
        let made : get_or_create_account address s ≡ (ok b, s) =
          rw (e, get_or_create_account) refl in
        let same : b ≡ a = cc h in
        ap (λ r. find (is_at address) r.1.accounts) made
        ∙ find-filter (is_at address) s.accounts
        ∙ ap head? e
        ∙ ap some same
    by_rows (b ∷ c ∷ more) e = absurd (cc h)

module _ (fromisoformat : Text → Option PyTime) (verify : Message → Text → Verified)
    (allowed : List Text) (now : ℕ) where
  -- What a message that signs in has, with its address and nonce.
  pub record IsVerified (m : Message) (signature : Text) (nonces : List Nonce)
      (address nonce : Text) : Type 0 where
    pub has_address : m.address ≡ some address
    pub has_nonce : m.nonce ≡ some nonce
    pub is_allowed : IsAllowed m.domain allowed
    pub not_expired : NotExpired fromisoformat now m.expiration_time
    pub is_signed : verify m signature ≡ passes
    pub is_usable : (use_nonce now nonce nonces).0 ≡ true

  pub checked_nonce-ok :
      (m : Message) {nonce : Text}
      → checked_nonce fromisoformat allowed now m ≡ ok nonce
      → (m.nonce ≡ some nonce)
        × IsAllowed m.domain allowed
        × NotExpired fromisoformat now m.expiration_time
  unfolding checked_nonce
  checked_nonce-ok m h =
      let no_keys = not (is_some m.chain_id) || not (is_some m.issued_at) in
      let foreign = not (validate_siwe_domain m.domain allowed) in
      let late = not (validate_siwe_expiration fromisoformat now m.expiration_time) in
      let last : Result Refusal Text = ok_or m.nonce key_error in
      let in_time : Result Refusal Text = raise_if late failed_verification >> last in
      let (keys, h1) =
        raise_if-ok no_keys key_error (raise_if foreign failed_verification >> in_time) h in
      let (domain, h2) = raise_if-ok foreign failed_verification in_time h1 in
      let (time, h3) = raise_if-ok late failed_verification last h2 in
      (
        ok_or-ok key_error m.nonce h3,
        validate_siwe_domain-IsAllowed m.domain allowed (ground (arith, domain)),
        validate_siwe_expiration-NotExpired fromisoformat now m.expiration_time
            (ground (arith, time)),
      )

  token_of-ok :
      (ip : Option Text) (r : Result Refusal Account × State) {token : UserToken}
      → (token_of ip r).0 ≡ ok token
      → (a : Account) × (r.0 ≡ ok a)
        × (token ≡ record { user = a.user; ip_address = ip })
        × ((token_of ip r).1 ≡ r.1)
  token_of-ok ip (err e, s) h = cc
  token_of-ok ip (ok a, s) h = (a, refl, cc, refl)

  -- What a sign-in that succeeds comes from.
  sign_in-ok :
      (v : Verified) (address ip : Option Text) (s : State) {token : UserToken}
      → (sign_in v address ip s).0 ≡ ok token
      → (a : Text) × (v ≡ passes)
        × (address ≡ some a)
        × (token.ip_address ≡ ip)
        × IsOf a token (sign_in v address ip s).1
  unfolding sign_in
  sign_in-ok verification_error address ip s h = cc
  sign_in-ok other_error address ip s h = cc
  sign_in-ok passes none ip s h = cc
  sign_in-ok passes (some address) ip s {token} h =
      let (a, made, is_token, same) = token_of-ok ip (get_or_create_account address s) h in
      (
        address,
        refl,
        refl,
        ap (λ t. t.ip_address) is_token,
        (
          a,
          ap (λ x. find (is_at address) x.accounts) same
              ∙ get_or_create_account-finds address s made,
          ap (λ t. t.user) is_token,
        ),
      )

  -- A message that gets a token has a nonce that may be used, an allowed domain and an expiration
  -- that is to come if it has one, and passes the library's verification. The token is of the user
  -- of the account that is then in the table at the message's address, for the caller's address of
  -- the network; the account is made if there is none.
  pub submit_signed_challenge-IsVerified :
      (ip : Option Text) (m : Message) (signature : Text) (s : State) {token : UserToken}
      {s' : State}
      → submit_signed_challenge fromisoformat verify allowed now ip m signature s ≡ (ok token, s')
      → (address : Text) × (nonce : Text) × IsVerified m signature s.nonces address nonce
        × (token.ip_address ≡ ip)
        × IsOf address token s'
  unfolding submit_signed_challenge
  submit_signed_challenge-IsVerified ip m signature s {token} {s'} h =
      let call = submit_signed_challenge fromisoformat verify allowed now ip m signature s in
      elim (Result-cases (checked_nonce fromisoformat allowed now m)) [
        | inl (e, refused) ↦
            let k : call ≡ (err e, s) = rw (refused, submit_signed_challenge) refl in
            absurd (cc (h, k))
        | inr (nonce, checked) ↦
            let after = record s { nonces = (use_nonce now nonce s.nonces).1 } in
            elim (Bool-cases (use_nonce now nonce s.nonces).0) [
              | inr unused ↦
                  let k : call ≡ (err invalid_nonce, after) =
                    rw (checked, submit_signed_challenge, unused) refl in
                  absurd (cc (h, k))
              | inl used ↦
                  let k : call ≡ sign_in (verify m signature) m.address ip after =
                    rw (checked, submit_signed_challenge, used) refl in
                  let done : sign_in (verify m signature) m.address ip after ≡ (ok token, s') =
                    sym k ∙ h in
                  let (has, domain, time) = checked_nonce-ok m checked in
                  let (a, signed, given, at, of) =
                    sign_in-ok (verify m signature) m.address ip after (ap (λ r. r.0) done) in
                  (
                    a,
                    nonce,
                    record {
                      has_address = given;
                      has_nonce = has;
                      is_allowed = domain;
                      not_expired = time;
                      is_signed = signed;
                      is_usable = used;
                    },
                    at,
                    subst (IsOf a token) (ap (λ r. r.1) done) of,
                  )
            ]
      ]
