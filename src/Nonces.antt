-- ===== src/Nonces.antt =====
-- Nonces, which are used once (api/account/models.py), and the terms of service that are accepted
-- with them (api/tos/models.py).
pub mod Once
pub mod Proofs
mod Tests
use passport_scorer.Common.{
  ltb, ◌==◌, if◌then◌else◌, get_or, filter, any, Text, codes, text_eq, lower, ok_or, ◌>>=◌, ◌>>◌,
  Result, err, ok, ℕ, ◌+◌, Bool, true, false, not, ◌&&◌, Option, none, some, List, [], ◌∷◌, ◌++◌,
}

-- A row of `Nonce`; times are in seconds.
pub record Nonce : Type 0 where
  pub nonce : Text
  pub expires_on : Option ℕ
  pub was_used : Bool

pub data Failure : Type 0 where
  does_not_exist : Failure
  multiple_objects_returned : Failure
  integrity_error : Failure
  bad_signature : Failure

-- `objects.get()`
abbrev get_one {ℓ} : {A : Type ℓ} → List A → Result Failure A
get_one [] = err does_not_exist
get_one (x ∷ []) = ok x
get_one (x ∷ y ∷ xs) = err multiple_objects_returned

-- A `NonceField` is saved, and compared with, in small letters.
abbrev pub is_nonce : Text → Nonce → Bool
is_nonce n r = text_eq r.nonce (lower n)

abbrev pub in_time : ℕ → Nonce → Bool
in_time now r = elim r.expires_on [ none ↦ true | some t ↦ ltb now t ]

abbrev pub is_usable : ℕ → Text → Nonce → Bool
is_usable now n r = is_nonce n r && in_time now r && not r.was_used

-- `create_nonce`; `token` is what `secrets.token_hex` gives.
unfoldable pub create_nonce : ℕ → Text → Option ℕ → List Nonce → Result Failure (List Nonce)
unfolding lower
create_nonce now token ttl table =
    let seconds = get_or ttl 0 in
    if any (is_nonce token) table
    then err integrity_error
    else ok (
        table
        ++ record {
          nonce = lower token;
          expires_on = if seconds == 0 then none else some (now + seconds);
          was_used = false;
        }
          ∷ [])

-- `validate_nonce`, which `avalidate_nonce` repeats
unfoldable pub validate_nonce : ℕ → Text → List Nonce → Result Failure Nonce
unfolding lower
validate_nonce now n table = get_one (filter (is_usable now n) table)

-- The row that `validate_nonce` gives, saved as used.
unfoldable pub save_used : ℕ → Text → List Nonce → List Nonce
unfolding lower
save_used now n [] = []
save_used now n (r ∷ rs) =
    (if is_usable now n r then record r { was_used = true } else r) ∷ save_used now n rs

-- `use_nonce`, which `ause_nonce` repeats
unfoldable pub use_nonce : ℕ → Text → List Nonce → Bool × List Nonce
unfolding validate_nonce save_used
use_nonce now n table = elim (validate_nonce now n table) [
  | ok r ↦ (true, save_used now n table)
  | err e ↦ (false, table)
]

-- A row of `Tos`.
pub record Tos : Type 0 where
  pub id : ℕ
  pub type : Text
  pub active : Bool
  pub final : Bool
  pub content : Text

-- A row of `TosAcceptanceProof`.
pub record TosAcceptanceProof : Type 0 where
  pub tos : ℕ
  pub address : Text
  pub signature : Text
  pub nonce : Text

-- `get_message_for_nonce`
unfoldable pub get_message_for_nonce : Tos → Text → Text
get_message_for_nonce tos nonce = tos.content ++ (10 ∷ 10 ∷ codes "Nonce: ") ++ nonce

-- `Tos.objects.get(type=type, active=True, final=True)`
unfoldable pub current_tos : Text → List Tos → Result Failure Tos
current_tos type table = get_one (filter (λ t. text_eq t.type type && t.active && t.final) table)

-- `get_message_with_nonce`: the message, the nonce and the nonces as they are then.
unfoldable pub get_message_with_nonce :
    ℕ → Text → Text → List Tos → List Nonce → Result Failure (Text × Text × List Nonce)
unfolding current_tos create_nonce get_message_for_nonce
get_message_with_nonce now token type table nonces = do
  tos ← current_tos type table
  nonces' ← create_nonce now token none nonces
  ok (get_message_for_nonce tos token, token, nonces')

-- `TosAcceptanceProof.objects.get_or_create(...)`; a nonce is in one proof at most.
unfoldable pub get_or_create_proof :
    Text → Tos → Text → Text → List TosAcceptanceProof → Result Failure (List TosAcceptanceProof)
unfolding lower
get_or_create_proof address tos nonce signature proofs =
    if any (λ p. text_eq p.address (lower address) && p.tos == tos.id) proofs
    then ok proofs
    else if any (λ p. text_eq p.nonce (lower nonce)) proofs
    then err integrity_error
    else ok (
        proofs
        ++ record {
          tos = tos.id;
          address = lower address;
          signature = lower signature;
          nonce = lower nonce;
        }
          ∷ [])

-- The signed part of `accept`; `recover_message` is that of eth_account, none if it raises.
unfoldable pub record_acceptance :
    (Text → Text → Option Text)
    → Text
    → Text
    → Text
    → List Tos
    → List TosAcceptanceProof
    → Result Failure (List TosAcceptanceProof)
unfolding current_tos get_message_for_nonce get_or_create_proof
record_acceptance recover_message type nonce signature table proofs = do
  tos ← current_tos type table
  address ← ok_or (recover_message (get_message_for_nonce tos nonce) signature) bad_signature
  get_or_create_proof address tos nonce signature proofs

abbrev answer :
    Result Failure (List TosAcceptanceProof) → Result Failure (Bool × List TosAcceptanceProof)
answer r = do proofs ← r; ok (true, proofs)

-- `accept`: its answer with the proofs, and the nonces; a nonce stays used when the rest fails.
unfoldable pub accept :
    (Text → Text → Option Text)
    → ℕ
    → Text
    → Text
    → Text
    → List Tos
    → List TosAcceptanceProof
    → List Nonce
    → Result Failure (Bool × List TosAcceptanceProof) × List Nonce
unfolding use_nonce record_acceptance
accept recover_message now type nonce signature table proofs nonces =
    let (used, nonces') = use_nonce now nonce nonces in
    if used
    then (answer (record_acceptance recover_message type nonce signature table proofs), nonces')
    else (ok (false, proofs), nonces')

-- The proof is of terms of the type that are active.
abbrev of_active : Text → ℕ → Tos → Bool
of_active type tos t = t.id == tos && text_eq t.type type && t.active

-- `has_accepted`
unfoldable pub has_accepted : Text → Text → List Tos → List TosAcceptanceProof → Bool
unfolding lower
has_accepted address tos_type table =
    any (λ p. text_eq p.address (lower address) && any (of_active tos_type p.tos) table)
