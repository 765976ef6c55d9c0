-- ===== src/SignIn/Tests.antt =====
-- The sign-ins (api/ceramic_cache/api/v1.py, api/account/api.py) with small libraries.
use passport_scorer.Common.{
  ltb, leb, if◌then◌else◌, Bool-cases, get_or, length, Text, codes, text_eq, text_eq_refl, lower,
  starts_with, char_in, str, Result, err, ok, ℕ, zero, suc, ◌≤◌, ◌<◌, ◌≡◌, refl, ap, ◌∙◌, subst,
  inl, inr, true, false, ◌&&◌, Option, none, some, List, [], ◌∷◌, ◌++◌, arith,
}
use passport_scorer.Nonces.Once.{rows_of, is_spent}
use passport_scorer.Nonces.{Nonce, use_nonce, validate_nonce, save_used}
use passport_scorer.SignIn.{
  Claims, Services, Failure, remove_0x, get_address_from_did, did_prefix, verify_signature_erc6492,
  message_hash, is_recovered, signature_valid, generate_siwe_access_token, issue, checked_address,
  handle_authenticate_v2, Decoder, jwt_authenticate, missing_address_or_nonce, verification_failed,
  invalid_nonce, invalid_signature, Message, siwe_message, PyTime, validate_siwe_domain,
  validate_siwe_expiration, aware, naive,
}
use passport_scorer.SignIn.Accounts.{
  State, UserToken, Refusal, Verified, get_or_create_account, sign_in, checked_nonce,
  submit_signed_challenge, authenticate, invalid_nonce, passes, verification_error,
}
use passport_scorer.SignIn.Trusted.{IsTrusted, handle_authenticate_v2-IsTrusted}
use passport_scorer.SignIn.Owned.{IsOf, IsVerified, submit_signed_challenge-IsVerified}
use passport_scorer.SignIn.Single.{
  Call, Setup, step, tokens, tokens_once, cache_sign_in, account_sign_in,
}
use passport_scorer.SignIn.Address.{handle_authenticate_v2-address}

-- A text with its length before it.
abbrev framed : Text → Text → Text
framed t rest = length t ∷ (t ++ rest)

abbrev split : ℕ → Text → Text × Text
split zero s = ([], s)
split (suc n) [] = ([], [])
split (suc n) (c ∷ s) = (c ∷ (split n s).0, (split n s).1)

split-framed : (t rest : Text) → split (length t) (t ++ rest) ≡ (t, rest)
split-framed [] rest = refl
split-framed (c ∷ t) rest = rw (split-framed t rest) refl

abbrev encode : Claims → Text
encode c = elim c.did [
  | none ↦ 0 ∷ c.iat ∷ c.exp ∷ framed c.jti (framed c.iss c.token_type)
  | some did ↦ 1 ∷ c.iat ∷ c.exp ∷ framed did (framed c.jti (framed c.iss c.token_type))
]

-- The text behind a length.
abbrev unframe : Text → Text × Text
unframe [] = ([], [])
unframe (n ∷ s) = split n s

abbrev claims : ℕ → ℕ → Option Text → Text × Text → Claims
claims iat exp did (jti, s) = record {
  did = did;
  iat = iat;
  exp = exp;
  jti = jti;
  iss = (unframe s).0;
  token_type = (unframe s).1;
}

abbrev decode_claims : Text → Option Claims
decode_claims [] = none
decode_claims (f ∷ []) = none
decode_claims (f ∷ iat ∷ []) = none
decode_claims (zero ∷ iat ∷ exp ∷ s) = some (claims iat exp none (unframe s))
decode_claims (suc f ∷ iat ∷ exp ∷ s) =
    some (claims iat exp (some (unframe s).0) (unframe (unframe s).1))

decode_claims-encode : (c : Claims) → decode_claims (encode c) ≡ some c
decode_claims-encode c = by_did c.did
  where
    by_did :
        (did : Option Text)
        → decode_claims (encode (record c { did = did })) ≡ some (record c { did = did })
    by_did none =
        rw (split-framed c.jti (framed c.iss c.token_type))
          (rw (split-framed c.iss c.token_type) refl)
    by_did (some did) = rw (split-framed did (framed c.jti (framed c.iss c.token_type))) (
        rw (split-framed c.jti (framed c.iss c.token_type))
          (rw (split-framed c.iss c.token_type) refl))

-- The claims, if they hold at the time and are of the issuer.
abbrev checked : ℕ → Text → Option Claims → Option Claims
checked now issuer none = none
checked now issuer (some c) =
    if leb c.iat now && ltb now c.exp && text_eq c.iss issuer then some c else none

abbrev decode : Decoder
decode now issuer token = checked now issuer (decode_claims token)

decode-encode :
    (c : Claims) (time : ℕ) → c.iat ≤ time → time < c.exp → decode time c.iss (encode c) ≡ some c
decode-encode c time since until =
    ap (checked time c.iss) (decode_claims-encode c) ∙ ground (arith, text_eq_refl c.iss)

-- An address has no colon; a signature is the signer's address behind the text.
abbrev checksum : Text → Option Text
checksum t = if char_in b':' t then none else some t

checksum-no_colon :
    (given address : Text) → checksum given ≡ some address → char_in b':' address ≡ false
checksum-no_colon given address h = elim (Bool-cases (char_in b':' given)) [
  | inl colon ↦ let k : checksum given ≡ none = rw colon refl in absurd (cc (h, k))
  | inr free ↦
      let k : checksum given ≡ some given = rw free refl in
      let same : given ≡ address = cc (h, k) in subst (λ t. char_in b':' t ≡ false) same free
]

abbrev fromisoformat : Text → Option PyTime
fromisoformat [] = none
fromisoformat (c ∷ []) = some (aware c)
fromisoformat (c ∷ d ∷ t) = some (naive c)

abbrev services : Services
services = record {
  to_checksum_address = checksum;
  fromisoformat = fromisoformat;
  prepare_message = λ f. some (f.address ++ get_or f.nonce []);
  utf8 = λ t. t;
  keccak = λ t. t;
  recover_message =
      λ text signature. if starts_with text signature then some (codes "0xAB") else none;
  from_hex = λ t. some t;
  eth_call =
      λ chain signer hash bytes. if text_eq bytes (codes "wallet") then some (1 ∷ []) else none;
  encode = encode;
}

abbrev message : Text → Message
message nonce = record {
  address = some (codes "0xAB");
  domain = some (codes "App.Passport.xyz");
  statement = none;
  uri = none;
  version = none;
  chain_id = some 1;
  nonce = some nonce;
  issued_at = some (codes "now");
  expiration_time = some (200 ∷ []);
  not_before = none;
  request_id = none;
  resources = [];
}

abbrev domains : List Text
domains = codes "app.passport.xyz" ∷ []

abbrev nonce : Text
nonce = codes "n1"

abbrev nonces : List Nonce
nonces = record { nonce = nonce; expires_on = some 150; was_used = false } ∷ []

abbrev used_nonces : List Nonce
used_nonces = record { nonce = nonce; expires_on = some 150; was_used = true } ∷ []

abbrev token : Text
token = encode (
    claims 100 604900 (some (codes "did:pkh:eip155:1:0xab"))
      (codes "j", framed (codes "passport-scorer") (codes "access")))

abbrev answer : Message → Text → Result Failure Text × List Nonce
answer m signature = handle_authenticate_v2 services domains 100 (codes "j") m signature nonces

signed : answer (message nonce) (codes "0xABn1") ≡ (ok token, used_nonces)
unfolding handle_authenticate_v2 checked_address issue signature_valid is_recovered
    validate_siwe_domain validate_siwe_expiration siwe_message generate_siwe_access_token use_nonce
    validate_nonce save_used text_eq lower starts_with
signed = refl

-- A signature of no key is put to the validator, on mainnet.
by_wallet : answer (message nonce) (codes "0xwallet") ≡ (ok token, used_nonces)
unfolding handle_authenticate_v2 checked_address issue signature_valid is_recovered
    validate_siwe_domain validate_siwe_expiration siwe_message generate_siwe_access_token use_nonce
    validate_nonce save_used text_eq lower starts_with verify_signature_erc6492 message_hash
    remove_0x str
by_wallet = refl

-- The nonce is used once the domain and the expiration are right, and stays used.
refused :
    (answer (message nonce) (codes "x") ≡ (err invalid_signature, used_nonces))
    × (answer (message (codes "n2")) (codes "x") ≡ (err invalid_nonce, nonces))
    × (answer (record (message nonce) { domain = some (codes "evil") }) (codes "0xABn1")
        ≡ (err verification_failed, nonces))
    × (answer (record (message nonce) { expiration_time = some [] }) (codes "0xABn1")
        ≡ (err verification_failed, nonces))
    × (answer (record (message nonce) { expiration_time = some (200 ∷ 0 ∷ []) }) (codes "0xABn1")
        ≡ (err verification_failed, nonces))
    × (answer (record (message nonce) { address = none }) (codes "0xABn1")
        ≡ (err missing_address_or_nonce, nonces))
unfolding handle_authenticate_v2 checked_address issue signature_valid is_recovered
    validate_siwe_domain validate_siwe_expiration siwe_message generate_siwe_access_token use_nonce
    validate_nonce save_used text_eq lower starts_with verify_signature_erc6492 message_hash
    remove_0x str
refused = (refl, refl, refl, refl, refl, refl)

removed : remove_0x (codes "0x00x1x") ≡ codes "01x"
unfolding remove_0x
removed = refl

abbrev accounts : State
accounts = record {
  nonces = nonces;
  accounts = record { id = 0; address = codes "0xcd"; user = 4 } ∷ [];
  next_account = 1;
  next_user = 5;
}

-- The library's verification, which takes one signature.
abbrev verify : Message → Text → Verified
verify m signature = if text_eq signature (codes "s") then passes else verification_error

abbrev submit : Message → Text → State → Result Refusal UserToken × State
submit = submit_signed_challenge fromisoformat verify domains 100 (some (codes "ip"))

-- The account and its user are made, with the address in small letters.
abbrev joined : State
joined = record {
  nonces = used_nonces;
  accounts =
      record { id = 0; address = codes "0xcd"; user = 4 }
      ∷ record { id = 1; address = codes "0xab"; user = 5 }
      ∷ [];
  next_account = 2;
  next_user = 6;
}

abbrev user_token : UserToken
user_token = record { user = 5; ip_address = some (codes "ip") }

submitted : submit (message nonce) (codes "s") accounts ≡ (ok user_token, joined)
unfolding submit_signed_challenge checked_nonce sign_in get_or_create_account validate_siwe_domain
    validate_siwe_expiration use_nonce validate_nonce save_used text_eq lower
submitted = refl

-- A token serves at the address of the network that it was given to only.
authenticated :
    (authenticate (some (codes "ip")) (record { user = 5; ip_address = some (codes "ip") })
      ≡ some 5)
    × (authenticate (some (codes "iq")) (record { user = 5; ip_address = some (codes "ip") })
        ≡ none)
    × (authenticate none (record { user = 5; ip_address = none }) ≡ some 5)
unfolding authenticate text_eq
authenticated = (refl, refl, refl)

abbrev setup : Setup
setup = record {
  services = services;
  verify = verify;
  cache_domains = domains;
  account_domains = domains;
}

abbrev calls : List Call
calls =
    account_sign_in 90 none (message (codes "n2")) (codes "s")
    ∷ cache_sign_in 100 (codes "j") (message nonce) (codes "0xABn1")
    ∷ account_sign_in 110 none (message (codes "N1")) (codes "s")
    ∷ []

tokens_given : tokens setup nonce calls accounts ≡ 1
unfolding tokens step submit_signed_challenge checked_nonce sign_in get_or_create_account
    handle_authenticate_v2 checked_address issue signature_valid is_recovered validate_siwe_domain
    validate_siwe_expiration siwe_message generate_siwe_access_token use_nonce validate_nonce
    save_used text_eq lower starts_with
tokens_given = refl

tokens_once_example :
    tokens setup nonce calls accounts ≤ (if is_spent nonce accounts.nonces then 0 else 1)
tokens_once_example = tokens_once setup nonce calls accounts one_row
  where
    one_row : rows_of nonce accounts.nonces ≤ 1
    one_row = unfold text_eq lower in omega arith

handle_authenticate_v2-IsTrusted_example :
    (address : Text) × IsTrusted services domains 100
      (message nonce)
      (codes "0xABn1")
      nonces
      address
    × (token
        ≡ services.encode (record {
          did = some (did_prefix ++ lower address);
          iat = 100;
          exp = 604900;
          jti = codes "j";
          iss = codes "passport-scorer";
          token_type = codes "access";
        }))
    × (used_nonces ≡ (use_nonce 100 nonce nonces).1)
handle_authenticate_v2-IsTrusted_example =
    handle_authenticate_v2-IsTrusted services domains 100 (codes "j") (message nonce)
      (codes "0xABn1") nonces signed

handle_authenticate_v2-address_example :
    (did : Text) × (address : Text) × (jwt_authenticate (some decode) [] 200 token ≡ some did)
    × (checksum (codes "0xAB") ≡ some address)
    × (get_address_from_did did ≡ lower address)
handle_authenticate_v2-address_example =
    handle_authenticate_v2-address services decode [] 200 decode-encode checksum-no_colon domains
      100 (codes "j") (message nonce) (codes "0xABn1") nonces (omega arith) (omega arith) signed

submit_signed_challenge-IsVerified_example :
    (address : Text) × (n : Text) × IsVerified fromisoformat verify domains 100
      (message nonce)
      (codes "s")
      nonces
      address
      n
    × (some (codes "ip") ≡ some (codes "ip"))
    × IsOf address user_token joined
submit_signed_challenge-IsVerified_example =
    submit_signed_challenge-IsVerified fromisoformat verify domains 100 (some (codes "ip"))
      (message nonce) (codes "s") accounts submitted
