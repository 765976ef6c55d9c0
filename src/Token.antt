-- ===== src/Token.antt =====
-- The tokens of paginated answers (`encode_cursor` and `decode_cursor` in api/registry/utils.py).
pub mod RoundTrip
pub mod Example
mod Tests
use passport_scorer.Common.{
  ◌==◌, if◌then◌else◌, length, take, Text, codes, truthy, ok_or, ◌>>=◌, Result, ok, ℕ, ◌-◌, ◌%◌,
  ◌≡◌, true, not, ◌&&◌, Option, none, [], ◌∷◌, ◌++◌,
}

-- What the readers of a cursor take from its JSON object; a key that is missing is `none`.
pub record Fields : Type 0 where
  pub d : Option Text
  pub id : Option ℕ

pub data Failure : Type 0 where
  malformed_token : Failure

-- `s.rstrip(c)`
unfoldable pub rstrip : ℕ → Text → Text
rstrip c [] = []
rstrip c (x ∷ s) = let rest = rstrip c s in if not (truthy rest) && x == c then [] else x ∷ rest

-- `s[:-n]`; there is no negative zero, so `s[:-0]` is empty.
unfoldable pub slice_to_minus : ℕ → Text → Text
slice_to_minus n s = if n == 0 then [] else take (length s - n) s

abbrev pub base64_padding : Text
base64_padding = codes "===="

-- `dumps` is json.dumps with the encoding to UTF-8, `loads` its inverse with the keys that are read;
-- the decoders give `none` if they raise.
module _ (dumps : Fields → Text) (urlsafe_b64encode : Text → Text) where
  unfoldable pub encode_cursor : Fields → Text
  unfolding rstrip
  encode_cursor fields = rstrip b'=' (urlsafe_b64encode (dumps fields))

module _ (loads : Text → Option Fields) (urlsafe_b64decode : Text → Option Text) where
  unfoldable pub decode_cursor : Text → Result Failure Fields
  unfolding slice_to_minus
  decode_cursor token =
      if truthy token
      then (ok_or (urlsafe_b64decode (token ++ slice_to_minus (length token % 4) base64_padding))
            malformed_token
          >>= λ bytes. ok_or (loads bytes) malformed_token)
      else ok (record { d = none; id = none })

-- What the users of tokens rely on.
pub record CursorCodec : Type 0 where
  pub encode : Fields → Text
  pub decode : Text → Result Failure Fields
  pub decode-encode : (fields : Fields) → decode (encode fields) ≡ ok fields
  pub encode-truthy : (fields : Fields) → truthy (encode fields) ≡ true
