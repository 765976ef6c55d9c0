-- ===== src/Pages/Tests.antt =====
-- A client's requests for the stamps of an account, three to a page.
use passport_scorer.Common.{
  filter, pos, negsuc, Text, codes, text_eq, lower, truthy, err, ok, ℕ, ◌≡◌, refl, true, false,
  Option, none, some, List, [], ◌∷◌, map, arith,
}
use passport_scorer.Cache.{Row, StampDoc, v1, pending}
use passport_scorer.Token.{encode_cursor, decode_cursor}
use passport_scorer.Token.Example.{a_codec}
use passport_scorer.Pages.{
  invalid_limit, negative_slice, Page, is_listed, get_passport_stamps, stamps_query,
}
use passport_scorer.Pages.Segments.{IsDistinct, IsDescending, has_pk}
use passport_scorer.Pages.Requests.{Setting, request_of, ask, first_request, link_beyond}
use passport_scorer.Pages.Follow.{follow, follow_complete}
use passport_scorer.Pages.Forward.{is_first}
use passport_scorer.Pages.Back.{GoesBack, next-prev}

abbrev doc : ℕ → StampDoc
doc n = record {
  id = none;
  hash = none;
  nullifiers = none;
  provider = none;
  proof_value = some (n ∷ []);
  issuance_date = none;
  expiration_date = none;
}

abbrev row : ℕ → Text → Option ℕ → Row
row pk address deleted_at = record {
  pk = pk;
  type = v1;
  address = address;
  provider = codes "Google";
  stamp = doc pk;
  proof_value = [];
  updated_at = 0;
  deleted_at = deleted_at;
  status = pending;
  stream_id = [];
  issuance_date = none;
  expiration_date = none;
  source_app = none;
  source_scorer_id = none;
}

abbrev table : List Row
table =
    row 2 (codes "0xa") none
    ∷ row 5 (codes "0xb") none
    ∷ row 9 (codes "0xa") none
    ∷ row 4 (codes "0xa") (some 3)
    ∷ row 7 (codes "0xa") none
    ∷ []

abbrev setting : Setting
setting = record {
  codec = a_codec;
  is_valid_address = truthy;
  metadata_for = λ provider. some provider;
  address = codes "0xA";
  size = 1;
  is_valid = unfold lower in refl;
  is_allowed = omega arith;
}

stamps_of_a : map (λ (r : Row). r.pk) (stamps_query (codes "0xa") table) ≡ 9 ∷ 7 ∷ 2 ∷ []
unfolding stamps_query text_eq
stamps_of_a = refl

table-IsDistinct : IsDistinct table
table-IsDistinct = (
  (refl, (refl, (refl, (refl, tt)))),
  ((refl, (refl, (refl, tt))), ((refl, (refl, tt)), ((refl, tt), (tt, tt)))),
)

followed : follow setting 6 (first_request setting true) table ≡ some (doc 9 ∷ doc 7 ∷ doc 2 ∷ [])
unfolding follow get_passport_stamps encode_cursor decode_cursor text_eq lower
followed = refl

follow_complete_example :
    (rows : List Row) × (follow setting 6 (first_request setting true) table
      ≡ some (map (λ r. r.stamp) rows))
    × IsDescending rows
    × ((id : ℕ)
        → filter (has_pk id) rows
          ≡ filter (has_pk id) (filter (is_listed (lower (codes "0xA"))) table))
follow_complete_example = follow_complete setting table true 6 table-IsDistinct (omega arith)

abbrev first_page : Page
first_page = record {
  next = some (link_beyond setting (codes "next") 7);
  prev = none;
  items =
      record { credential = doc 9; metadata = none }
      ∷ record { credential = doc 7; metadata = none }
      ∷ [];
}

first_answer : ask setting (first_request setting false) table ≡ ok first_page
unfolding get_passport_stamps text_eq lower
first_answer = refl

next-prev_example : GoesBack setting table first_page (link_beyond setting (codes "next") 7)
next-prev_example = next-prev setting table table-IsDistinct is_first first_answer refl

-- The links drop the flag for metadata, so only the first page has it.
link_drops_metadata : (request_of (link_beyond setting (codes "next") 7)).include_metadata ≡ false
link_drops_metadata = refl

limit_refused :
    get_passport_stamps a_codec truthy
      (λ p. none)
      false
      (record { address = codes "0xa"; token = []; limit = pos 1001; include_metadata = false })
      table
    ≡ err invalid_limit
unfolding get_passport_stamps
limit_refused = refl

negative_limit :
    get_passport_stamps a_codec truthy
      (λ p. none)
      false
      (record { address = codes "0xa"; token = []; limit = negsuc 0; include_metadata = false })
      table
    ≡ err negative_slice
unfolding get_passport_stamps lower
negative_limit = refl
