-- ===== src/SignIn.antt =====
-- Sign-in with Ethereum: the checks of messages (api/account/siwe_validation.py), the sign-in of the
-- stamp cache and its tokens (api/ceramic_cache/api/v1.py), and that of the developers' accounts
-- (api/account/api.py).
mod Siwe
pub mod Accounts
pub mod Trusted
pub mod Single
pub mod Address
pub mod Owned
mod Tests
unfoldable pub use Siwe.*
use passport_scorer.Common.{
  ◌==◌, if◌then◌else◌, get_or, length, Text, codes, text_eq, lower, after_last, truthy, str, ok_or,
  ◌>>=◌, ◌>>◌, raise_if, Result, err, ok, ℕ, ◌+◌, Bool, true, false, not, ◌||◌, Option, none, some,
  List, [], ◌∷◌, ◌++◌, map,
}
use passport_scorer.Nonces.{Nonce, use_nonce}

-- The claims of an access token of the stamp cache.
pub record Claims : Type 0 where
  pub did : Option Text
  pub iat : ℕ
  pub exp : ℕ
  pub jti : Text
  pub iss : Text
  pub token_type : Text

-- The libraries and services that the sign-in calls; what may raise gives `none` if it does.
-- `prepare_message` makes the text of a SIWE message, `recover_message` is that of eth_account on
-- such a text, `eth_call` runs the universal validator of signatures on a chain, and `encode` is
-- that of PyJWT with the private key.
pub record Services : Type 0 where
  pub to_checksum_address : Text → Option Text
  pub fromisoformat : Text → Option PyTime
  pub prepare_message : SiweFields → Option Text
  pub utf8 : Text → Text
  pub keccak : Text → Text
  pub recover_message : Text → Text → Option Text
  pub from_hex : Text → Option Text
  pub eth_call : ℕ → Text → Text → Text → Option Text
  pub encode : Claims → Text

-- `FailedVerificationException`, by its detail.
pub data Failure : Type 0 where
  missing_address_or_nonce : Failure
  invalid_address_format : Failure
  verification_failed : Failure
  invalid_nonce : Failure
  invalid_signature : Failure
  authentication_failed : Failure

-- A text without its `0x`, behind a nought that is not yet written or behind none.
drop_0x : Bool → Text → Text
drop_0x false [] = []
drop_0x true [] = b'0' ∷ []
drop_0x false (c ∷ s) = let rest = drop_0x (c == b'0') s in if c == b'0' then rest else c ∷ rest
drop_0x true (c ∷ s) =
    let rest = drop_0x (c == b'0') s in
    if c == b'x' then rest else b'0' ∷ (if c == b'0' then rest else c ∷ rest)

-- `signature.replace("0x", "")`
unfoldable pub remove_0x : Text → Text
unfolding drop_0x
remove_0x = drop_0x false

-- `get_address_from_did`
unfoldable pub get_address_from_did : Text → Text
unfolding after_last
get_address_from_did did = after_last b':' did

abbrev pub did_prefix : Text
did_prefix = codes "did:pkh:eip155:1:"

module _ (services : Services) where
  -- `verify_signature_erc6492`
  unfoldable pub verify_signature_erc6492 : Text → Text → Text → ℕ → Bool
  unfolding remove_0x text_eq
  verify_signature_erc6492 address hash signature chain_id =
      elim (services.to_checksum_address address) [
        | none ↦ false
        | some signer ↦ elim (services.from_hex (remove_0x signature)) [
          | none ↦ false
          | some bytes ↦ elim (services.eth_call chain_id signer hash bytes) [
            | none ↦ false
            | some result ↦ text_eq result (1 ∷ [])
          ]
        ]
      ]

  -- The hash of a message by EIP-191.
  unfoldable pub message_hash : Text → Text
  unfolding str
  message_hash message =
      let bytes = services.utf8 message in
      services.keccak
        ((25 ∷ codes "Ethereum Signed Message:") ++ (10 ∷ (str (length bytes) ++ bytes)))

  -- Whether `recover_message` gives the address.
  unfoldable pub is_recovered : Text → Text → Text → Bool
  unfolding lower text_eq
  is_recovered message signature address = elim (services.recover_message message signature) [
    | none ↦ false
    | some signer ↦ text_eq (lower signer) (lower address)
  ]

  -- `signature_valid`, on mainnet if the signature is not that of a key
  unfoldable pub signature_valid : Text → Text → Text → Bool
  unfolding is_recovered verify_signature_erc6492 message_hash
  signature_valid message signature address =
      if is_recovered message signature address
      then true
      else verify_signature_erc6492 address (message_hash message) signature 1

  -- `generate_siwe_access_token`; `jti` is what `uuid.uuid4` gives, and seven days are 604800 seconds.
  unfoldable pub generate_siwe_access_token : ℕ → Text → Text → Text
  generate_siwe_access_token now jti did = services.encode (record {
    did = some did;
    iat = now;
    exp = now + 604800;
    jti = jti;
    iss = codes "passport-scorer";
    token_type = codes "access";
  })

  -- What `handle_authenticate_v2` does once the nonce is used.
  unfoldable pub issue : ℕ → Text → Message → Text → Text → Result Failure Text
  unfolding signature_valid generate_siwe_access_token siwe_message lower
  issue now jti m signature address = do
    text ← ok_or (services.prepare_message (siwe_message m address)) authentication_failed
    raise_if (not (signature_valid text signature address)) invalid_signature
    ok (generate_siwe_access_token now jti (did_prefix ++ lower address))

  -- What it checks before it uses the nonce: the address with its checksum.
  unfoldable pub checked_address : List Text → ℕ → Message → Result Failure Text
  unfolding validate_siwe_domain validate_siwe_expiration
  checked_address allowed now m = do
    raise_if (not (truthy (get_or m.address [])) || not (truthy (get_or m.nonce [])))
        missing_address_or_nonce
    address ← ok_or (services.to_checksum_address (get_or m.address [])) invalid_address_format
    raise_if (not (validate_siwe_domain m.domain allowed)) verification_failed
    raise_if (not (validate_siwe_expiration services.fromisoformat now m.expiration_time))
        verification_failed
    ok address

  -- `handle_authenticate_v2`: the access token, and the nonces.
  unfoldable pub handle_authenticate_v2 :
      List Text → ℕ → Text → Message → Text → List Nonce → Result Failure Text × List Nonce
  unfolding checked_address use_nonce issue
  handle_authenticate_v2 allowed now jti m signature nonces = elim (checked_address allowed now m) [
    | err e ↦ (err e, nonces)
    | ok address ↦
        let (used, nonces') = use_nonce now (get_or m.nonce []) nonces in
        if used then (issue now jti m signature address, nonces') else (err invalid_nonce, nonces')
  ]

-- `jwt.decode` with the public key, at a time and for an issuer: it raises, which is `none`, for a
-- token that is not signed with the key, has expired or is of another issuer.
abbrev pub Decoder : Type 0
Decoder = ℕ → Text → Text → Option Claims

-- The loop over the classes of legacy tokens.
unfoldable pub first_valid : List (Text → Option Claims) → Text → Option Claims
first_valid [] token = none
first_valid (decode ∷ others) token = elim (decode token) [
  | some claims ↦ some claims
  | none ↦ first_valid others token
]

-- `get_validated_token`, with the decoder if the public key is set.
unfoldable pub get_validated_token :
    Option Decoder → List (ℕ → Text → Option Claims) → ℕ → Text → Option Claims
unfolding first_valid
get_validated_token none legacy now token = first_valid (map (λ d. d now) legacy) token
get_validated_token (some decode) legacy now token =
    first_valid (decode now (codes "passport-scorer") ∷ map (λ d. d now) legacy) token

-- `jwt_authenticate`: the `did` of the request, if the token is valid and has one
unfoldable pub jwt_authenticate :
    Option Decoder → List (ℕ → Text → Option Claims) → ℕ → Text → Option Text
unfolding get_validated_token
jwt_authenticate decode legacy now token = elim (get_validated_token decode legacy now token) [
  | none ↦ none
  | some claims ↦ claims.did
]
