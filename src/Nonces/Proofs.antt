-- ===== src/Nonces/Proofs.antt =====
-- The proofs of acceptance (`Tos` and `TosAcceptanceProof` in api/tos/models.py).
use passport_scorer.Common.{
  ◌==◌, ==_iff, Bool-cases, any, any-append, Text, text_eq, text_eq_refl, lower, Result-cases, ok,
  ℕ, ◌≡◌, ap, subst, ◌⊎◌, inl, inr, Bool, true, false, ◌&&◌, Option, some, List, [], ◌∷◌, arith,
}
use passport_scorer.Nonces.{
  Nonce, Tos, TosAcceptanceProof, get_one, use_nonce, current_tos, get_message_for_nonce,
  get_or_create_proof, record_acceptance, accept, of_active, has_accepted,
}

get_one_cons : (x : Tos) (ts : List Tos) {t : Tos} → get_one (x ∷ ts) ≡ ok t → x ≡ t
get_one_cons x [] h = cc
get_one_cons x (y ∷ ts) h = cc

current_tos-any :
    (type : Text) (table : List Tos) {t : Tos}
    → current_tos type table ≡ ok t
    → any (of_active type t.id) table ≡ true
unfolding current_tos
current_tos-any type [] h = cc
current_tos-any type (x ∷ table) {t} h =
    let here = text_eq x.type type && x.active && x.final in
    elim (Bool-cases here) [
      | inl e ↦
          let same : x ≡ t = get_one_cons x _ (rw e at h) in
          let same_id : x.id ≡ t.id = ap (λ (y : Tos). y.id) same in ground (arith, same_id)
      | inr e ↦ ground (arith, current_tos-any type table {t = t} (rw e at h))
    ]

any-tos :
    (address type : Text) (table : List Tos) (id : ℕ) (proofs : List TosAcceptanceProof)
    → any (of_active type id) table ≡ true
    → any (λ p. text_eq p.address (lower address) && p.tos == id) proofs ≡ true
    → has_accepted address type table proofs ≡ true
unfolding has_accepted
any-tos address type table id [] h g = cc
any-tos address type table id (p ∷ proofs) h g = elim (Bool-cases (p.tos == id)) [
  | inl e ↦
      let here : any (of_active type p.tos) table ≡ true = rw ((==_iff p.tos id).0 e) h in
      ground (arith, here, any-tos address type table id proofs h)
  | inr e ↦ ground (arith, any-tos address type table id proofs h)
]

get_or_create_proof-any :
    (address : Text) (tos : Tos) (nonce signature : Text) (proofs : List TosAcceptanceProof)
    {proofs' : List TosAcceptanceProof}
    → get_or_create_proof address tos nonce signature proofs ≡ ok proofs'
    → any (λ p. text_eq p.address (lower address) && p.tos == tos.id) proofs' ≡ true
unfolding get_or_create_proof
get_or_create_proof-any address tos nonce signature proofs h = ground (
  arith,
  text_eq_refl (lower address),
  any-append (λ p. text_eq p.address (lower address) && p.tos == tos.id) proofs
      (record {
        tos = tos.id;
        address = lower address;
        signature = lower signature;
        nonce = lower nonce;
      }
        ∷ []),
)

record_acceptance-has_accepted :
    (recover_message : Text → Text → Option Text) (type nonce signature : Text) (table : List Tos)
    (proofs : List TosAcceptanceProof) {proofs' : List TosAcceptanceProof} {tos : Tos}
    {address : Text}
    → current_tos type table ≡ ok tos
    → recover_message (get_message_for_nonce tos nonce) signature ≡ some address
    → record_acceptance recover_message type nonce signature table proofs ≡ ok proofs'
    → has_accepted address type table proofs' ≡ true
unfolding record_acceptance
record_acceptance-has_accepted recover_message type nonce signature table proofs {proofs'} {tos}
      {address} c r h =
    any-tos address type table tos.id proofs' (current_tos-any type table c)
      (get_or_create_proof-any address tos nonce signature proofs (rw (c, r) at h))

-- Where `accept` answers that the terms are accepted, the address that signed the message of the
-- current terms has accepted them by `has_accepted`; where it answers that they are not, the
-- proofs are as before.
pub accept-has_accepted :
    (recover_message : Text → Text → Option Text) (now : ℕ) (type nonce signature : Text)
    (table : List Tos) (proofs : List TosAcceptanceProof) (nonces : List Nonce) {b : Bool}
    {proofs' : List TosAcceptanceProof} {nonces' : List Nonce} {tos : Tos} {address : Text}
    → current_tos type table ≡ ok tos
    → recover_message (get_message_for_nonce tos nonce) signature ≡ some address
    → accept recover_message now type nonce signature table proofs nonces
      ≡ (ok (b, proofs'), nonces')
    → (b ≡ true) × (has_accepted address type table proofs' ≡ true)
      ⊎ (b ≡ false) × (proofs' ≡ proofs)
unfolding accept
accept-has_accepted recover_message now type nonce signature table proofs nonces {b} {proofs'}
      {nonces'} {tos} {address} c r h =
    elim (Bool-cases (use_nonce now nonce nonces).0) [
      | inr e ↦ inr (ground arith)
      | inl e ↦
          elim (Result-cases
            (record_acceptance recover_message type nonce signature table proofs)) [
              | inl (e', p) ↦ absurd (ground arith)
              | inr (made, p) ↦
                  let same : made ≡ proofs' = ground arith in
                  let accepts : b ≡ true = ground arith in
                  inl (
                    accepts,
                    subst (λ ps. has_accepted address type table ps ≡ true) same
                        (record_acceptance-has_accepted recover_message type nonce signature table
                          proofs c r p),
                  )
            ]
    ]
