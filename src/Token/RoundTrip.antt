-- ===== src/Token/RoundTrip.antt =====
-- A token that is decoded gives the cursor of which it was made (api/registry/utils.py).
use passport_scorer.Common.{
  ◌==◌, length, all, take, Text, truthy, ok, ℕ, zero, suc, ◌+◌, ◌%◌, ◌≤◌, ◌≡◌, refl, Bool, true,
  not, Option, some, [], ◌∷◌, ◌++◌, arith,
}
use passport_scorer.Token.{
  Fields, rstrip, slice_to_minus, base64_padding, encode_cursor, decode_cursor, CursorCodec,
}

abbrev pub no_padding : Text → Bool
no_padding = all (λ c. not (c == b'='))

-- A text of the base64 alphabet and its padding, as RFC 4648 has it.
pub record Padded (bytes encoded : Text) : Type 0 where
  pub body : Text
  pub pad : ℕ
  pub is_split : encoded ≡ body ++ take pad base64_padding
  pub is_plain : no_padding body ≡ true
  pub is_short : pad ≤ 2
  pub is_aligned : (length body + pad) % 4 ≡ 0
  pub is_filled : truthy bytes ≡ true → truthy body ≡ true

rstrip-padding : (pad : ℕ) → pad ≤ 2 → rstrip b'=' (take pad base64_padding) ≡ []
unfolding rstrip
rstrip-padding zero h = refl
rstrip-padding (suc zero) h = refl
rstrip-padding (suc (suc zero)) h = refl
rstrip-padding (suc (suc (suc n))) h = absurd (omega arith)

rstrip-append :
    (body : Text) (pad : ℕ)
    → no_padding body ≡ true
    → pad ≤ 2
    → rstrip b'=' (body ++ take pad base64_padding) ≡ body
unfolding rstrip
rstrip-append [] pad h short = rstrip-padding pad short
rstrip-append (c ∷ body) pad h short = ground (arith, rstrip-append body pad)

-- The padding that is added is the padding that was taken off.
slice_to_minus-pad :
    (n pad : ℕ)
    → pad ≤ 2
    → (n + pad) % 4 ≡ 0
    → slice_to_minus (n % 4) base64_padding ≡ take pad base64_padding
unfolding slice_to_minus
slice_to_minus-pad n zero short aligned = let r : n % 4 ≡ 0 = omega arith in rw r refl
slice_to_minus-pad n (suc zero) short aligned = let r : n % 4 ≡ 3 = omega arith in rw r refl
slice_to_minus-pad n (suc (suc zero)) short aligned = let r : n % 4 ≡ 2 = omega arith in rw r refl
slice_to_minus-pad n (suc (suc (suc pad))) short aligned = absurd (omega arith)

module _ (dumps : Fields → Text) (loads : Text → Option Fields) (urlsafe_b64encode : Text → Text)
    (urlsafe_b64decode : Text → Option Text)
    (dumps-truthy : (fields : Fields) → truthy (dumps fields) ≡ true)
    (loads-dumps : (fields : Fields) → loads (dumps fields) ≡ some fields)
    (encoded-Padded : (bytes : Text) → Padded bytes (urlsafe_b64encode bytes))
    (decode-encode : (bytes : Text)
      → urlsafe_b64decode (urlsafe_b64encode bytes) ≡ some bytes) where
  body_of :
      (fields : Fields)
      → encode_cursor dumps urlsafe_b64encode fields ≡ (encoded-Padded (dumps fields)).body
  unfolding encode_cursor
  body_of fields =
      let p = encoded-Padded (dumps fields) in
      rw p.is_split (rstrip-append p.body p.pad p.is_plain p.is_short)

  pub encode_cursor-truthy :
      (fields : Fields) → truthy (encode_cursor dumps urlsafe_b64encode fields) ≡ true
  encode_cursor-truthy fields =
      rw (body_of fields) ((encoded-Padded (dumps fields)).is_filled (dumps-truthy fields))

  -- Where the JSON and base64 functions invert one another and base64 pads to a multiple of four
  -- with at most two signs: the token of a cursor, which has lost its padding, decodes to the cursor.
  pub decode_cursor-encode_cursor :
      (fields : Fields)
      → decode_cursor loads urlsafe_b64decode (encode_cursor dumps urlsafe_b64encode fields)
        ≡ ok fields
  unfolding decode_cursor
  decode_cursor-encode_cursor fields =
      let p = encoded-Padded (dumps fields) in
      let whole : p.body ++ slice_to_minus (length p.body % 4) base64_padding
          ≡ urlsafe_b64encode (dumps fields) =
        rw (slice_to_minus-pad (length p.body) p.pad p.is_short p.is_aligned, p.is_split) refl in
      let filled = p.is_filled (dumps-truthy fields) in
      rw (body_of fields, filled, whole, decode-encode (dumps fields), loads-dumps fields) refl

  abbrev pub cursor_codec : CursorCodec
  cursor_codec = record {
    encode = encode_cursor dumps urlsafe_b64encode;
    decode = decode_cursor loads urlsafe_b64decode;
    decode-encode = decode_cursor-encode_cursor;
    encode-truthy = encode_cursor-truthy;
  }
