-- ===== src/Token/Tests.antt =====
-- Runs of the tokens of api/registry/utils.py.
use passport_scorer.Common.{length, codes, ok, ◌≡◌, refl, none, some, []}
use passport_scorer.Token.{Fields, slice_to_minus, base64_padding, encode_cursor, decode_cursor}
use passport_scorer.Token.RoundTrip.{decode_cursor-encode_cursor}
use passport_scorer.Token.Example.{
  dumps, loads, encode64, decode64, dumps-truthy, loads-dumps, encode64-Padded, decode64-encode64,
}

abbrev a_cursor : Fields
a_cursor = record { d = some (codes "next"); id = some 7 }

decode_cursor-encode_cursor_example :
    decode_cursor loads decode64 (encode_cursor dumps encode64 a_cursor) ≡ ok a_cursor
decode_cursor-encode_cursor_example =
    decode_cursor-encode_cursor dumps loads encode64 decode64 dumps-truthy loads-dumps
      encode64-Padded decode64-encode64 a_cursor

-- Fourteen signs, of which the two for padding are taken off, as 14 is not a multiple of four.
a_token-length : length (encode_cursor dumps encode64 a_cursor) ≡ 14
unfolding encode_cursor
a_token-length = refl

empty_token : decode_cursor loads decode64 [] ≡ ok (record { d = none; id = none })
unfolding decode_cursor
empty_token = refl

no_minus_zero : slice_to_minus 0 base64_padding ≡ []
unfolding slice_to_minus
no_minus_zero = refl
