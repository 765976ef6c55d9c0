-- ===== src/SignIn/Trusted.antt =====
-- Which messages sign an address in (`handle_authenticate_v2` of api/ceramic_cache/api/v1.py).
use passport_scorer.Common.{
  Bool-cases, Option-cases, get_or, Text, codes, text_eq, text_eq_iff, text_in, lower, truthy,
  ok_or, ok_or-ok, Result-cases, ◌>>=◌, >>=-ok, ◌>>◌, raise_if, raise_if-ok, Result, err, ok, ℕ,
  ◌+◌, ◌<◌, ◌≡◌, refl, sym, ap, ◌∙◌, ◌⊎◌, inl, inr, true, false, not, ◌||◌, Option, none, some,
  List, [], ◌∷◌, ◌++◌, map, arith,
}
use passport_scorer.Nonces.{Nonce, use_nonce}
use passport_scorer.SignIn.{
  Services, Failure, remove_0x, did_prefix, verify_signature_erc6492, message_hash, is_recovered,
  signature_valid, generate_siwe_access_token, issue, checked_address, handle_authenticate_v2,
  missing_address_or_nonce, invalid_address_format, verification_failed, invalid_nonce,
  invalid_signature, authentication_failed, Message, siwe_message, PyTime, validate_siwe_domain,
  is_ahead, validate_siwe_expiration, aware, naive,
}

-- An expiration, if there is one, is a time with a zone that is to come.
abbrev pub NotExpired : (Text → Option PyTime) → ℕ → Option Text → Type 0
NotExpired fromisoformat now none = Unit
NotExpired fromisoformat now (some t) =
    (exp : ℕ) × (fromisoformat t ≡ some (aware exp)) × (now < exp)

pub validate_siwe_expiration-NotExpired :
    (fromisoformat : Text → Option PyTime) (now : ℕ) (t : Option Text)
    → validate_siwe_expiration fromisoformat now t ≡ true
    → NotExpired fromisoformat now t
unfolding validate_siwe_expiration
validate_siwe_expiration-NotExpired fromisoformat now none h = tt
validate_siwe_expiration-NotExpired fromisoformat now (some t) h =
    let ahead : is_ahead now (fromisoformat t) ≡ true = ground (arith, h) in
    is_ahead-aware (fromisoformat t) ahead
  where
    is_ahead-aware :
        (o : Option PyTime)
        → is_ahead now o ≡ true
        → (exp : ℕ) × (o ≡ some (aware exp)) × (now < exp)
    is_ahead-aware none k = cc
    is_ahead-aware (some (naive e)) k = cc
    is_ahead-aware (some (aware e)) k = (e, refl, ground (arith, k))

-- The domain is one of those that are allowed, up to case.
abbrev pub IsAllowed : Option Text → List Text → Type 0
IsAllowed domain allowed =
    (d : Text) × (domain ≡ some d) × (text_in (lower d) (map lower allowed) ≡ true)

pub validate_siwe_domain-IsAllowed :
    (domain : Option Text) (allowed : List Text)
    → validate_siwe_domain domain allowed ≡ true
    → IsAllowed domain allowed
unfolding validate_siwe_domain
validate_siwe_domain-IsAllowed none allowed h = cc
validate_siwe_domain-IsAllowed (some d) allowed h = (d, refl, ground (arith, h))

module _ (services : Services) where
  -- A key of the address signed the text, or the validator on mainnet takes the signature for the
  -- address's.
  abbrev pub IsSigned : Text → Text → Text → Type 0
  IsSigned text signature address =
      ((signer : Text) × (services.recover_message text signature ≡ some signer)
        × (lower signer ≡ lower address))
      ⊎ ((signer : Text) × (bytes : Text) × (services.to_checksum_address address ≡ some signer)
          × (services.from_hex (remove_0x signature) ≡ some bytes)
          × (services.eth_call 1 signer (message_hash services text) bytes ≡ some (1 ∷ [])))

  verify_signature_erc6492-called :
      (address hash signature : Text) (chain_id : ℕ)
      → verify_signature_erc6492 services address hash signature chain_id ≡ true
      → (signer : Text) × (bytes : Text) × (services.to_checksum_address address ≡ some signer)
        × (services.from_hex (remove_0x signature) ≡ some bytes)
        × (services.eth_call chain_id signer hash bytes ≡ some (1 ∷ []))
  unfolding verify_signature_erc6492
  verify_signature_erc6492-called address hash signature chain_id h =
      elim (Option-cases (services.to_checksum_address address)) [
        | inl none1 ↦
            let k : verify_signature_erc6492 services address hash signature chain_id ≡ false =
              rw (none1, verify_signature_erc6492) refl in
            absurd (cc (k, h))
        | inr (signer, e1) ↦ elim (Option-cases (services.from_hex (remove_0x signature))) [
          | inl none2 ↦
              let k : verify_signature_erc6492 services address hash signature chain_id ≡ false =
                rw (e1, none2, verify_signature_erc6492) refl in
              absurd (cc (k, h))
          | inr (bytes, e2) ↦ elim (Option-cases (services.eth_call chain_id signer hash bytes)) [
            | inl none3 ↦
                let k : verify_signature_erc6492 services address hash signature chain_id ≡ false =
                  rw (e1, e2, none3, verify_signature_erc6492) refl in
                absurd (cc (k, h))
            | inr (result, e3) ↦
                let k : verify_signature_erc6492 services address hash signature chain_id
                    ≡ text_eq result (1 ∷ []) =
                  rw (e1, e2, e3, verify_signature_erc6492) refl in
                let is_one = (text_eq_iff result (1 ∷ [])).0 (sym k ∙ h) in
                (signer, bytes, e1, e2, e3 ∙ ap some is_one)
          ]
        ]
      ]

  signature_valid-IsSigned :
      (text signature address : Text)
      → signature_valid services text signature address ≡ true
      → IsSigned text signature address
  unfolding signature_valid is_recovered
  signature_valid-IsSigned text signature address h =
      elim (Bool-cases (is_recovered services text signature address)) [
        | inl yes1 ↦ inl (recovered yes1)
        | inr no1 ↦ inr (
            verify_signature_erc6492-called address (message_hash services text) signature 1
              (ground (arith, h, no1)))
      ]
    where
      recovered :
          is_recovered services text signature address ≡ true
          → (signer : Text) × (services.recover_message text signature ≡ some signer)
            × (lower signer ≡ lower address)
      recovered k = elim (Option-cases (services.recover_message text signature)) [
        | inl none1 ↦
            let f : is_recovered services text signature address ≡ false =
              rw (none1, is_recovered) refl in
            absurd (cc (k, f))
        | inr (signer, e) ↦
            let f : is_recovered services text signature address
                ≡ text_eq (lower signer) (lower address) =
              rw (e, is_recovered) refl in
            (signer, e, (text_eq_iff (lower signer) (lower address)).0 (sym f ∙ k))
      ]

  -- What a message that signs in has, with the address with its checksum.
  pub record IsTrusted (allowed : List Text) (now : ℕ) (m : Message) (signature : Text)
      (nonces : List Nonce) (address : Text) : Type 0 where
    pub text : Text
    pub has_checksum : services.to_checksum_address (get_or m.address []) ≡ some address
    pub is_allowed : IsAllowed m.domain allowed
    pub not_expired : NotExpired services.fromisoformat now m.expiration_time
    pub is_prepared : services.prepare_message (siwe_message m address) ≡ some text
    pub is_signed : IsSigned text signature address
    pub has_nonce : (use_nonce now (get_or m.nonce []) nonces).0 ≡ true

  checked_address-ok :
      (allowed : List Text) (now : ℕ) (m : Message) {address : Text}
      → checked_address services allowed now m ≡ ok address
      → (services.to_checksum_address (get_or m.address []) ≡ some address)
        × IsAllowed m.domain allowed
        × NotExpired services.fromisoformat now m.expiration_time
  unfolding checked_address
  checked_address-ok allowed now m {address} h =
      let missing = not (truthy (get_or m.address [])) || not (truthy (get_or m.nonce [])) in
      let foreign = not (validate_siwe_domain m.domain allowed) in
      let late = not (validate_siwe_expiration services.fromisoformat now m.expiration_time) in
      let checksum = services.to_checksum_address (get_or m.address []) in
      let after_domain : Text → Result Failure Text =
        λ a. raise_if late verification_failed >> ok a in
      let after_address : Text → Result Failure Text =
        λ a. raise_if foreign verification_failed >> after_domain a in
      let (present, h1) =
        raise_if-ok missing missing_address_or_nonce
          (ok_or checksum invalid_address_format >>= after_address) h in
      let (a, h2, h3) = >>=-ok (ok_or checksum invalid_address_format) after_address h1 in
      let (domain, h4) = raise_if-ok foreign verification_failed (after_domain a) h3 in
      let (time, h5) = raise_if-ok late verification_failed (ok a) h4 in
      let same : a ≡ address = ground (arith, h5) in
      (
        ok_or-ok invalid_address_format checksum h2 ∙ ap some same,
        validate_siwe_domain-IsAllowed m.domain allowed (ground (arith, domain)),
        validate_siwe_expiration-NotExpired services.fromisoformat now m.expiration_time
            (ground (arith, time)),
      )

  issue-ok :
      (now : ℕ) (jti : Text) (m : Message) (signature address : Text) {token : Text}
      → issue services now jti m signature address ≡ ok token
      → (text : Text) × (services.prepare_message (siwe_message m address) ≡ some text)
        × IsSigned text signature address
        × (generate_siwe_access_token services now jti (did_prefix ++ lower address) ≡ token)
  unfolding issue
  issue-ok now jti m signature address {token} h =
      let prepared = services.prepare_message (siwe_message m address) in
      let made = generate_siwe_access_token services now jti (did_prefix ++ lower address) in
      let after_text : Text → Result Failure Text = λ text.
        raise_if (not (signature_valid services text signature address)) invalid_signature
        >> ok made in
      let (text, h1, h2) = >>=-ok (ok_or prepared authentication_failed) after_text h in
      let (valid, h3) =
        raise_if-ok (not (signature_valid services text signature address)) invalid_signature
          (ok made) h2 in
      (
        text,
        ok_or-ok authentication_failed prepared h1,
        signature_valid-IsSigned text signature address (ground (arith, valid)),
        ground (arith, h3),
      )

  -- A message that gets a token has an address with a checksum, an allowed domain, an expiration
  -- that is to come if it has one, and a nonce that may be used; its text, prepared with that
  -- address, was signed by a key of the address or is accepted for it by the validator on mainnet.
  -- The token is of the lower-cased address for seven days, and the nonce is used.
  pub handle_authenticate_v2-IsTrusted :
      (allowed : List Text) (now : ℕ) (jti : Text) (m : Message) (signature : Text)
      (nonces : List Nonce) {token : Text} {nonces' : List Nonce}
      → handle_authenticate_v2 services allowed now jti m signature nonces ≡ (ok token, nonces')
      → (address : Text) × IsTrusted allowed now m signature nonces address
        × (token
            ≡ services.encode (record {
              did = some (did_prefix ++ lower address);
              iat = now;
              exp = now + 604800;
              jti = jti;
              iss = codes "passport-scorer";
              token_type = codes "access";
            }))
        × (nonces' ≡ (use_nonce now (get_or m.nonce []) nonces).1)
  unfolding generate_siwe_access_token handle_authenticate_v2
  handle_authenticate_v2-IsTrusted allowed now jti m signature nonces {token} {nonces'} h =
      let call = handle_authenticate_v2 services allowed now jti m signature nonces in
      let nonce : Text = get_or m.nonce [] in
      elim (Result-cases (checked_address services allowed now m)) [
        | inl (e, refused) ↦
            let k : call ≡ (err e, nonces) = rw (refused, handle_authenticate_v2) refl in
            absurd (cc (h, k))
        | inr (address, passed) ↦ elim (Bool-cases (use_nonce now nonce nonces).0) [
          | inr unused ↦
              let k : call ≡ (err invalid_nonce, (use_nonce now nonce nonces).1) =
                rw (passed, handle_authenticate_v2, unused) refl in
              absurd (cc (h, k))
          | inl used ↦
              let k : call
                  ≡ (issue services now jti m signature address, (use_nonce now nonce nonces).1) =
                rw (passed, handle_authenticate_v2, used) refl in
              let issued : issue services now jti m signature address ≡ ok token = cc (h, k) in
              let rest : (use_nonce now nonce nonces).1 ≡ nonces' = cc (h, k) in
              let (checksum, domain, time) = checked_address-ok allowed now m passed in
              let (text, prepared, signed, made) = issue-ok now jti m signature address issued in
              (
                address,
                record {
                  text = text;
                  has_checksum = checksum;
                  is_allowed = domain;
                  not_expired = time;
                  is_prepared = prepared;
                  is_signed = signed;
                  has_nonce = used;
                },
                sym made,
                sym rest,
              )
        ]
      ]
