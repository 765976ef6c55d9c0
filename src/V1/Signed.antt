-- ===== src/V1/Signed.antt =====
-- Signed submissions (`ahandle_submit_passport` in api/registry/api/v1.py).
use passport_scorer.Common.{
  Bool-cases, Text, text_eq, text_eq_refl, text_eq_iff, lower, truthy, ok_or-ok, Result-cases,
  Result, err, ok, ℕ, ◌≤◌, ◌≡◌, refl, sym, ap, ◌∙◌, inl, inr, true, false, Option, some, List, [],
  ◌∷◌, arith,
}
use passport_scorer.Nonces.{Nonce, use_nonce}
use passport_scorer.Nonces.Once.{use_, serve, accepted, accepted_once, rows_of}
use passport_scorer.Submission.{Community}
use passport_scorer.V2.{Environment, Db}
use passport_scorer.V1.{
  SubmitPassportPayload, Failure, invalid_signer, invalid_nonce, internal_server_error, ScorerType,
  State, DetailedScoreResponse, get_signing_message, get_signer, verify_nonce, verify_signer,
  find_scorer, submit_verified, ahandle_submit_passport,
}

-- A nonce that was used is refused from then on.
use_nonce-twice :
    (now now' : ℕ) (n n' : Text) (nonces : List Nonce)
    → rows_of n nonces ≤ 1
    → text_eq (lower n') (lower n) ≡ true
    → (use_nonce now n nonces).0 ≡ true
    → (use_nonce now' n' (use_nonce now n nonces).1).0 ≡ false
unfolding accepted serve
use_nonce-twice now now' n n' nonces one_row same used =
    let once = accepted_once n (use_ now n ∷ use_ now' n' ∷ []) nonces one_row in
    ground (arith, once, text_eq_refl (lower n))

verify_nonce-used :
    (now : ℕ) (n : Text) (nonces : List Nonce)
    → (verify_nonce now n nonces).0 ≡ ok tt
    → (use_nonce now n nonces).0 ≡ true
unfolding verify_nonce
verify_nonce-used now n nonces h = ground arith

module _ (recover_message : Text → Text → Option Text) (now : ℕ) (c : Community) where
  -- A signature is verified: it is the address's, and the nonce is used.
  abbrev pub IsVerified : SubmitPassportPayload → List Nonce → Type 0
  IsVerified payload nonces =
      (signer : Text) × (recover_message (get_signing_message payload.nonce) payload.signature
        ≡ some signer)
      × (lower signer ≡ lower payload.address)
      × ((use_nonce now payload.nonce nonces).0 ≡ true)

  verify_signer-IsVerified :
      (payload : SubmitPassportPayload) (nonces : List Nonce)
      → truthy payload.signature ≡ true
      → (verify_signer recover_message now c payload nonces).0 ≡ ok tt
      → IsVerified payload nonces
        × ((verify_signer recover_message now c payload nonces).1
            ≡ (use_nonce now payload.nonce nonces).1)
  unfolding verify_signer verify_nonce
  verify_signer-IsVerified payload nonces signed done =
      let r = get_signer recover_message payload.nonce payload.signature in
      elim (Result-cases r) [
        | inl (e, h) ↦
            let refused : (verify_signer recover_message now c payload nonces).0 ≡ err e =
              rw (signed, h) refl in
            absurd (cc (done, refused))
        | inr (signer, h) ↦ elim (Bool-cases (text_eq (lower signer) (lower payload.address))) [
          | inr k ↦
              let refused : (verify_signer recover_message now c payload nonces).0
                  ≡ err invalid_signer =
                rw (signed, h, k) refl in
              absurd (cc (done, refused))
          | inl k ↦
              let step : verify_signer recover_message now c payload nonces
                  ≡ verify_nonce now payload.nonce nonces =
                rw (signed, h, k) refl in
              (
                (
                  signer,
                  ok_or-ok internal_server_error
                      (recover_message (get_signing_message payload.nonce) payload.signature)
                      (unfold get_signer in h),
                  (text_eq_iff (lower signer) (lower payload.address)).0 k,
                  verify_nonce-used now payload.nonce nonces (ap (λ v. v.0) (sym step) ∙ done),
                ),
                ap (λ v. v.1) step,
              )
        ]
      ]

  verify_signer-refused :
      (payload : SubmitPassportPayload) (nonces : List Nonce)
      → truthy payload.signature ≡ true
      → (use_nonce now payload.nonce nonces).0 ≡ false
      → (e : Failure) × ((verify_signer recover_message now c payload nonces).0 ≡ err e)
  unfolding verify_signer verify_nonce
  verify_signer-refused payload nonces signed spent =
      let r = get_signer recover_message payload.nonce payload.signature in
      elim (Result-cases r) [
        | inl (e, h) ↦ (e, rw (signed, h) refl)
        | inr (signer, h) ↦ elim (Bool-cases (text_eq (lower signer) (lower payload.address))) [
          | inr k ↦ (invalid_signer, rw (signed, h, k) refl)
          | inl k ↦ (invalid_nonce, rw (signed, h, k, spent) refl)
        ]
      ]

module _ (env : Environment) (recover_message : Text → Text → Option Text)
    (scorer_type : ℕ → ScorerType) (payload : SubmitPassportPayload) (c : Community) (db : Db) where
  -- The handler goes on just with a verified signer, and its nonces are those of the verification.
  submit_verified-ok :
      (v : Result Failure (Unit {0}) × List Nonce) {response : DetailedScoreResponse}
      → (submit_verified env recover_message scorer_type payload c db v).0 ≡ ok response
      → (v.0 ≡ ok tt)
        × ((submit_verified env recover_message scorer_type payload c db v).1.nonces ≡ v.1)
  unfolding submit_verified
  submit_verified-ok (err e, nonces) h = absurd (cc h)
  submit_verified-ok (ok _, nonces) h = (refl, refl)

  submit_verified-err :
      (v : Result Failure (Unit {0}) × List Nonce) {e : Failure}
      → v.0 ≡ err e
      → ((submit_verified env recover_message scorer_type payload c db v).0 ≡ err e)
        × ((submit_verified env recover_message scorer_type payload c db v).1.db ≡ db)
  unfolding submit_verified
  submit_verified-err (err e, nonces) h = (cc h, refl)
  submit_verified-err (ok _, nonces) h = absurd (cc h)

-- What a signed submission that is answered had: the address's signature and an unused nonce.
accepted-IsVerified :
    (env : Environment) (recover_message : Text → Text → Option Text) (scorer_type : ℕ → ScorerType)
    (payload : SubmitPassportPayload) (account : ℕ) (s : State) {response : DetailedScoreResponse}
    → truthy payload.signature ≡ true
    → (ahandle_submit_passport env recover_message scorer_type payload account s).0 ≡ ok response
    → (c : Community) × IsVerified recover_message env.now c payload s.nonces
      × ((ahandle_submit_passport env recover_message scorer_type payload account s).1.nonces
          ≡ (use_nonce env.now payload.nonce s.nonces).1)
unfolding ahandle_submit_passport
accepted-IsVerified env recover_message scorer_type payload account s signed done =
    elim (Result-cases (find_scorer env recover_message scorer_type payload account)) [
      | inl (e, h) ↦
          let refused : (ahandle_submit_passport env recover_message scorer_type payload account
                s).0
              ≡ err e =
            rw (h, ahandle_submit_passport) refl in
          absurd (cc (done, refused))
      | inr (c, h) ↦
          let v = verify_signer recover_message env.now c payload s.nonces in
          let step : ahandle_submit_passport env recover_message scorer_type payload account s
              ≡ submit_verified env recover_message scorer_type payload c s.db v =
            rw (h, ahandle_submit_passport) refl in
          let (passed, nonces) =
            submit_verified-ok env recover_message scorer_type payload c s.db v
              (ap (λ k. k.0) (sym step) ∙ done) in
          let (verified, used) =
            verify_signer-IsVerified recover_message env.now c payload s.nonces signed passed in
          (c, verified, ap (λ k. k.1.nonces) step ∙ nonces ∙ used)
    ]

-- A signed submission is refused and writes no table of scores, if its nonce is not to be used.
spent-refused :
    (env : Environment) (recover_message : Text → Text → Option Text) (scorer_type : ℕ → ScorerType)
    (payload : SubmitPassportPayload) (account : ℕ) (s : State)
    → truthy payload.signature ≡ true
    → (use_nonce env.now payload.nonce s.nonces).0 ≡ false
    → (e : Failure) × ((ahandle_submit_passport env recover_message scorer_type payload account s).0
        ≡ err e)
      × ((ahandle_submit_passport env recover_message scorer_type payload account s).1.db ≡ s.db)
unfolding ahandle_submit_passport
spent-refused env recover_message scorer_type payload account s signed spent =
    elim (Result-cases (find_scorer env recover_message scorer_type payload account)) [
      | inl (e, h) ↦ (e, rw (h, ahandle_submit_passport) refl, rw (h, ahandle_submit_passport) refl)
      | inr (c, h) ↦
          let v = verify_signer recover_message env.now c payload s.nonces in
          let step : ahandle_submit_passport env recover_message scorer_type payload account s
              ≡ submit_verified env recover_message scorer_type payload c s.db v =
            rw (h, ahandle_submit_passport) refl in
          let (e, refused) =
            verify_signer-refused recover_message env.now c payload s.nonces signed spent in
          let (answer, same) =
            submit_verified-err env recover_message scorer_type payload c s.db v refused in
          (e, ap (λ k. k.0) step ∙ answer, ap (λ k. k.1.db) step ∙ same)
    ]

-- Where the nonce of a submission with a signature has at most one row: if the submission is
-- answered, its signature is by the address of the payload, up to the case of letters; and the next
-- submission with a signature and the same nonce, by any account, for any payload and at any time, is
-- refused and leaves the passports, scores and stamps as they are.
pub submit_signed_once :
    (env env' : Environment) (recover_message : Text → Text → Option Text)
    (scorer_type : ℕ → ScorerType) (payload payload' : SubmitPassportPayload) (account account' : ℕ)
    (s : State) {response : DetailedScoreResponse}
    → rows_of payload.nonce s.nonces ≤ 1
    → truthy payload.signature ≡ true
    → truthy payload'.signature ≡ true
    → text_eq (lower payload'.nonce) (lower payload.nonce) ≡ true
    → (ahandle_submit_passport env recover_message scorer_type payload account s).0 ≡ ok response
    → ((signer : Text) × (recover_message (get_signing_message payload.nonce) payload.signature
          ≡ some signer)
        × (lower signer ≡ lower payload.address))
      × ((e : Failure) × ((ahandle_submit_passport env' recover_message scorer_type payload'
              account'
              (ahandle_submit_passport env recover_message scorer_type payload account s).1).0
            ≡ err e)
          × ((ahandle_submit_passport env' recover_message scorer_type payload' account'
                (ahandle_submit_passport env recover_message scorer_type payload account s).1).1.db
              ≡ (ahandle_submit_passport env recover_message scorer_type payload account s).1.db))
submit_signed_once env env' recover_message scorer_type payload payload' account account' s one_row
      signed signed' same done =
    let (c, verified, nonces) =
      accepted-IsVerified env recover_message scorer_type payload account s signed done in
    let (signer, recovered, is_address, used) = verified in
    let spent =
      use_nonce-twice env.now env'.now payload.nonce payload'.nonce s.nonces one_row same used in
    (
      (signer, recovered, is_address),
      spent-refused env' recover_message scorer_type payload' account'
          (ahandle_submit_passport env recover_message scorer_type payload account s).1 signed'
          (ap (λ k. (use_nonce env'.now payload'.nonce k).0) nonces ∙ spent),
    )
