-- ===== src/SignIn/Address.antt =====
-- The address that a request with a token is made for (`JWTDidAuthentication` and
-- `get_address_from_did` of api/ceramic_cache/api/v1.py).
use passport_scorer.Common.{
  get_or, Text, codes, lower, char_in, after_last-behind, char_in-lower, ok, ℕ, ◌+◌, ◌≤◌, ◌<◌, ◌≡◌,
  refl, ap, ◌∙◌, false, Option, some, List, [], ◌++◌, arith,
}
use passport_scorer.Nonces.{Nonce}
use passport_scorer.SignIn.{
  Claims, Services, get_address_from_did, did_prefix, handle_authenticate_v2, Decoder, first_valid,
  get_validated_token, jwt_authenticate, Message,
}
use passport_scorer.SignIn.Trusted.{handle_authenticate_v2-IsTrusted}

-- The claims of a token for an address.
abbrev claims_of : ℕ → Text → Text → Claims
claims_of now jti address = record {
  did = some (did_prefix ++ lower address);
  iat = now;
  exp = now + 604800;
  jti = jti;
  iss = codes "passport-scorer";
  token_type = codes "access";
}

module _ (services : Services) (decode : Decoder) (legacy : List (ℕ → Text → Option Claims))
    (later : ℕ) where
  jwt_authenticate-decoded :
      (token : Text) (claims : Claims)
      → decode later (codes "passport-scorer") token ≡ some claims
      → jwt_authenticate (some decode) legacy later token ≡ claims.did
  unfolding jwt_authenticate get_validated_token first_valid
  jwt_authenticate-decoded token claims h =
      rw (h, jwt_authenticate, get_validated_token, first_valid) refl

  -- For seven days, a request with a token that a sign-in gave is made for the address of the message: the token's
  -- `did` is read back, and the address in it is the one with its checksum, in small letters. The
  -- library of web tokens decodes what it has encoded from the time of issue on and before the time
  -- of expiry, for the issuer of the claims, and no address with a checksum has a colon.
  pub handle_authenticate_v2-address :
      ((claims : Claims) (time : ℕ)
        → claims.iat ≤ time
        → time < claims.exp
        → decode time claims.iss (services.encode claims) ≡ some claims)
      → ((given address : Text)
          → services.to_checksum_address given ≡ some address
          → char_in b':' address ≡ false)
      → (allowed : List Text) (now : ℕ) (jti : Text) (m : Message) (signature : Text)
        (nonces : List Nonce) {token : Text} {nonces' : List Nonce}
      → now ≤ later
      → later < now + 604800
      → handle_authenticate_v2 services allowed now jti m signature nonces ≡ (ok token, nonces')
      → (did : Text) × (address : Text) × (jwt_authenticate (some decode) legacy later token
          ≡ some did)
        × (services.to_checksum_address (get_or m.address []) ≡ some address)
        × (get_address_from_did did ≡ lower address)
  unfolding get_address_from_did
  handle_authenticate_v2-address decodes no_colon allowed now jti m signature nonces {token} since
        until h =
      let (address, trusted, made, rest) =
        handle_authenticate_v2-IsTrusted services allowed now jti m signature nonces h in
      (
        did_prefix ++ lower address,
        address,
        jwt_authenticate-decoded token (claims_of now jti address) (
            ap (decode later (codes "passport-scorer")) made
            ∙ decodes (claims_of now jti address) later since until),
        trusted.has_checksum,
        after_last-behind b':' (codes "did:pkh:eip155:1") (lower address) (
            char_in-lower b':' address (omega arith)
              (no_colon (get_or m.address []) address trusted.has_checksum)),
      )
