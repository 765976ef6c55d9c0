-- ===== src/Nonces/Tests.antt =====
-- Runs of nonces and of the terms of service.
use passport_scorer.Common.{
  if◌then◌else◌, Text, codes, text_eq, lower, ok, ◌≤◌, ◌≡◌, refl, true, false, Option, none, some,
  List, [], ◌∷◌, arith,
}
use passport_scorer.Nonces.{Nonce, Tos, TosAcceptanceProof, accept}
use passport_scorer.Nonces.Once.{Call, create, use_, accepted, is_spent, accepted_once}

abbrev a1 : Text
a1 = codes "a1"

abbrev calls : List Call
calls = create 0 a1 (some 10) ∷ use_ 5 a1 ∷ use_ 6 (codes "A1") ∷ []

-- The first use is accepted, the second is not.
one_use : accepted a1 calls [] ≡ 1
unfolding accepted text_eq
one_use = refl

-- A nonce that has expired is not accepted.
no_use : accepted a1 (create 0 a1 (some 10) ∷ use_ 10 a1 ∷ []) [] ≡ 0
unfolding accepted text_eq
no_use = refl

abbrev fresh : Nonce
fresh = record { nonce = a1; expires_on = none; was_used = false }

accepted_once_example : accepted a1 calls (fresh ∷ []) ≤ (if is_spent a1 (fresh ∷ []) then 0 else 1)
unfolding text_eq lower
accepted_once_example = accepted_once a1 calls (fresh ∷ []) (omega arith)

abbrev terms : Tos
terms = record { id = 1; type = codes "IST"; active = true; final = true; content = codes "Terms" }

-- A recovery that takes the signature for the address.
abbrev signer : Text → Text → Option Text
signer message signature = some signature

abbrev proof : TosAcceptanceProof
proof = record { tos = 1; address = codes "0xada"; signature = codes "0xada"; nonce = a1 }

accepts_terms :
    accept signer 5 (codes "IST") a1 (codes "0xAda") (terms ∷ []) [] (fresh ∷ [])
    ≡ (ok (true, proof ∷ []), record fresh { was_used = true } ∷ [])
unfolding accept text_eq
accepts_terms = refl
