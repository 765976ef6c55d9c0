-- ===== src/Token/Example.antt =====
-- A small codec that meets what is relied on of JSON and base64.
use passport_scorer.Common.{
  ◌==◌, if◌then◌else◌, length, take, Text, truthy, ℕ, zero, suc, ◌+◌, ◌-◌, ◌%◌, ◌≡◌, refl, ◌⊎◌, inl,
  inr, true, Option, none, some, [], ◌∷◌, ◌++◌, arith,
}
use passport_scorer.Token.{Fields, base64_padding, CursorCodec}
use passport_scorer.Token.RoundTrip.{Padded, no_padding, cursor_codec}

abbrev pub dumps : Fields → Text
dumps fields =
    elim fields.id [ none ↦ 0 | some n ↦ suc n ] ∷ elim fields.d [ none ↦ [] | some s ↦ 1 ∷ 1 ∷ s ]

abbrev direction_of : Text → Option Text
direction_of [] = none
direction_of (c ∷ []) = none
direction_of (c ∷ x ∷ s) = some s

abbrev number_of : ℕ → Option ℕ
number_of zero = none
number_of (suc n) = some n

abbrev pub loads : Text → Option Fields
loads [] = none
loads (n ∷ s) = some (record { d = direction_of s; id = number_of n })

-- Two signs for a byte, above the sign for padding.
abbrev pairs : Text → Text
pairs [] = []
pairs (c ∷ s) = (c + 62) ∷ 62 ∷ pairs s

abbrev pad_of : Text → ℕ
pad_of [] = 0
pad_of (c ∷ s) = 2 - pad_of s

abbrev pub encode64 : Text → Text
encode64 bytes = pairs bytes ++ take (pad_of bytes) base64_padding

abbrev unpairs : Text → Text
unpairs [] = []
unpairs (c ∷ []) = []
unpairs (c ∷ x ∷ s) = let rest = unpairs s in if c == b'=' then [] else (c - 62) ∷ rest

abbrev pub decode64 : Text → Option Text
decode64 s = some (unpairs s)

pad_of-cases : (s : Text) → (pad_of s ≡ 0) ⊎ (pad_of s ≡ 2)
pad_of-cases [] = inl refl
pad_of-cases (c ∷ s) = elim (pad_of-cases s) [
  | inl e ↦ inr (omega (arith, e))
  | inr e ↦ inl (omega (arith, e))
]

unpairs-pairs :
    (s : Text) (pad : ℕ) → (pad ≡ 0) ⊎ (pad ≡ 2) → unpairs (pairs s ++ take pad base64_padding) ≡ s
unpairs-pairs [] pad h = elim h [ inl e ↦ rw e refl | inr e ↦ rw e refl ]
unpairs-pairs (c ∷ s) pad h = ground (arith, unpairs-pairs s pad h)

pub decode64-encode64 : (bytes : Text) → decode64 (encode64 bytes) ≡ some bytes
decode64-encode64 bytes = rw (unpairs-pairs bytes (pad_of bytes) (pad_of-cases bytes)) refl

pairs-no_padding : (s : Text) → no_padding (pairs s) ≡ true
pairs-no_padding [] = refl
pairs-no_padding (c ∷ s) = ground (arith, pairs-no_padding s)

pairs-aligned : (s : Text) → (length (pairs s) + pad_of s) % 4 ≡ 0
pairs-aligned [] = refl
pairs-aligned (c ∷ s) = elim (pad_of-cases s) [
  | inl e ↦ omega (arith, e, pairs-aligned s)
  | inr e ↦ omega (arith, e, pairs-aligned s)
]

pairs-filled : (s : Text) → truthy s ≡ true → truthy (pairs s) ≡ true
pairs-filled [] h = h
pairs-filled (c ∷ s) h = refl

pub encode64-Padded : (bytes : Text) → Padded bytes (encode64 bytes)
encode64-Padded bytes = record {
  body = pairs bytes;
  pad = pad_of bytes;
  is_split = refl;
  is_plain = pairs-no_padding bytes;
  is_short = elim (pad_of-cases bytes) [ inl e ↦ omega (arith, e) | inr e ↦ omega (arith, e) ];
  is_aligned = pairs-aligned bytes;
  is_filled = pairs-filled bytes;
}

pub dumps-truthy : (fields : Fields) → truthy (dumps fields) ≡ true
dumps-truthy fields = refl

loads-dumps_parts :
    (d : Option Text) (id : Option ℕ)
    → loads (dumps (record { d = d; id = id })) ≡ some (record { d = d; id = id })
loads-dumps_parts none none = refl
loads-dumps_parts none (some n) = refl
loads-dumps_parts (some s) none = refl
loads-dumps_parts (some s) (some n) = refl

pub loads-dumps : (fields : Fields) → loads (dumps fields) ≡ some fields
loads-dumps fields = loads-dumps_parts fields.d fields.id

abbrev pub a_codec : CursorCodec
a_codec =
    cursor_codec dumps loads encode64 decode64 dumps-truthy loads-dumps encode64-Padded
      decode64-encode64
