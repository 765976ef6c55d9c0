-- ===== src/SignIn/Accounts.antt =====
-- The sign-in of the developers' accounts (api/account/api.py).
use passport_scorer.Common.{
  if◌then◌else◌, is_some, filter, Text, text_eq, lower, ok_or, ◌>>◌, raise_if, Result, err, ok, ℕ,
  suc, Bool, true, false, not, ◌||◌, Option, none, some, List, [], ◌∷◌, ◌++◌,
}
use passport_scorer.Nonces.{Nonce, use_nonce}
use passport_scorer.SignIn.{Message, PyTime, validate_siwe_domain, validate_siwe_expiration}

-- A row of `Account`.
pub record Account : Type 0 where
  pub id : ℕ
  pub address : Text
  pub user : ℕ

-- The tables of nonces and accounts, with the number of users.
pub record State : Type 0 where
  pub nonces : List Nonce
  pub accounts : List Account
  pub next_account : ℕ
  pub next_user : ℕ

-- The claims of a token: its user and the address that it was asked from.
pub record UserToken : Type 0 where
  pub user : ℕ
  pub ip_address : Option Text

-- The answers 400 for the verification and the nonce; the others are errors of the server: a key
-- that is missing, an error of the library that is not caught, and two accounts of one address.
pub data Refusal : Type 0 where
  failed_verification : Refusal
  invalid_nonce : Refusal
  key_error : Refusal
  invalid_message : Refusal
  multiple_objects_returned : Refusal

-- What `SiweMessage(**message).verify(signature)` does: it returns, it raises a `VerificationError`,
-- or it raises another exception.
pub data Verified : Type 0 where
  passes : Verified
  verification_error : Verified
  other_error : Verified

abbrev pub is_at : Text → Account → Bool
is_at address a = text_eq a.address (lower address)

-- The account of an address, created with its user if there is none.
unfoldable pub get_or_create_account : Text → State → Result Refusal Account × State
unfolding lower text_eq
get_or_create_account address s = elim (filter (is_at address) s.accounts) [
  | [] ↦
      let a : Account = record {
        id = s.next_account;
        address = lower address;
        user = s.next_user;
      } in
      (
        ok a,
        record s {
          accounts = s.accounts ++ a ∷ [];
          next_account = suc s.next_account;
          next_user = suc s.next_user;
        },
      )
  | a ∷ [] ↦ (ok a, s)
  | a ∷ b ∷ more ↦ (err multiple_objects_returned, s)
]

abbrev pub token_of :
    Option Text → Result Refusal Account × State → Result Refusal UserToken × State
token_of ip (err e, s) = (err e, s)
token_of ip (ok a, s) = (ok (record { user = a.user; ip_address = ip }), s)

-- What `submit_signed_challenge` does once the nonce is used.
unfoldable pub sign_in :
    Verified → Option Text → Option Text → State → Result Refusal UserToken × State
unfolding get_or_create_account
sign_in verification_error address ip s = (err failed_verification, s)
sign_in other_error address ip s = (err invalid_message, s)
sign_in passes none ip s = (err key_error, s)
sign_in passes (some address) ip s = token_of ip (get_or_create_account address s)

-- What it checks before: the nonce of the message.
unfoldable pub checked_nonce :
    (Text → Option PyTime) → List Text → ℕ → Message → Result Refusal Text
unfolding validate_siwe_domain validate_siwe_expiration
checked_nonce fromisoformat allowed now m = do
  raise_if (not (is_some m.chain_id) || not (is_some m.issued_at)) key_error
  raise_if (not (validate_siwe_domain m.domain allowed)) failed_verification
  raise_if (not (validate_siwe_expiration fromisoformat now m.expiration_time)) failed_verification
  ok_or m.nonce key_error

-- `submit_signed_challenge`; `verify` is that of the library siwe, and `ip` what `get_client_ip`
-- gives.
unfoldable pub submit_signed_challenge :
    (Text → Option PyTime)
    → (Message → Text → Verified)
    → List Text
    → ℕ
    → Option Text
    → Message
    → Text
    → State
    → Result Refusal UserToken × State
unfolding checked_nonce use_nonce sign_in
submit_signed_challenge fromisoformat verify allowed now ip m signature s =
    elim (checked_nonce fromisoformat allowed now m) [
      | err e ↦ (err e, s)
      | ok nonce ↦
          let (used, nonces') = use_nonce now nonce s.nonces in
          let s' = record s { nonces = nonces' } in
          if used then sign_in (verify m signature) m.address ip s' else (err invalid_nonce, s')
    ]

abbrev pub same_ip : Option Text → Option Text → Bool
same_ip none none = true
same_ip none (some b) = false
same_ip (some a) none = false
same_ip (some a) (some b) = text_eq a b

-- `UIAuth.authenticate` of a validated token: its user, from the address it was issued to only
unfoldable pub authenticate : Option Text → UserToken → Option ℕ
unfolding text_eq
authenticate client_ip token = if same_ip client_ip token.ip_address then some token.user else none
