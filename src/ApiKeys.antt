-- ===== src/ApiKeys.antt =====
-- API keys (api/account/api_key_validator.py, api/registry/api/utils.py): the verification of a key
-- and its migration to SHA-256, the two authentications, and the rate limits.
pub mod Revoked
mod Tests
use passport_scorer.Common.{
  leb, ◌==◌, if◌then◌else◌, is_some, get_or, filter, head?, Text, codes, text_eq, text_in,
  starts_with, truthy, keys, ok_or, ◌>>=◌, ◌>>◌, raise_if, Result, err, ok, ℕ, Bool, false, not,
  ◌&&◌, ◌||◌, Option, none, some, List, [], ◌∷◌, ◌++◌,
}

-- A row of `AccountAPIKey`. A limit that is `none` is null, and unlimited is the empty text.
pub record AccountApiKey : Type 0 where
  pub prefix : Text
  pub hashed_key : Text
  pub hashed_key_sha256 : Option Text
  pub revoked : Bool
  pub account : ℕ
  pub rate_limit : Option Text
  pub analysis_rate_limit : Option Text

-- `hash_key`; `sha256` is hashlib's digest in hexadecimal.
unfoldable pub hash_key : (Text → Text) → Text → Text
hash_key sha256 key = codes "sha256$" ++ sha256 key

-- `verify_key`, which `averify_key` calls: whether the key is valid, and whether it needs migration.
-- `check_password` is Django's.
unfoldable pub verify_key :
    (Text → Text) → (Text → Text → Bool) → Text → Text → Option Text → Bool × Bool
unfolding hash_key starts_with
verify_key sha256 check_password key hashed_key hashed_key_sha256 =
    let migrated = get_or hashed_key_sha256 [] in
    if truthy migrated
    then (text_eq (hash_key sha256 key) migrated, false)
    else if starts_with (codes "sha256$") hashed_key
    then (text_eq (hash_key sha256 key) hashed_key, false)
    else if starts_with (codes "pbkdf2_sha256$") hashed_key
    then (check_password key hashed_key, check_password key hashed_key)
    else (false, false)

pub data Failure : Type 0 where
  unauthorized : Failure
  multiple_objects_returned : Failure

abbrev is_space : ℕ → Bool
is_space c = leb 9 c && leb c 13 || leb 28 c && leb c 32

-- The words of a text, before the text's end or after the word that is being read.
abbrev end_word : Text → List Text → List Text
end_word word rest = if truthy word then word ∷ rest else rest

words_from : Text → Text → List Text
words_from word [] = end_word word []
words_from word (c ∷ s) =
    let rest = words_from (if is_space c then [] else word ++ c ∷ []) s in
    if is_space c then end_word word rest else rest

-- `s.split()[1]`, which raises if there is no second word
unfoldable pub second_word : Text → Option Text
unfolding words_from
second_word s = elim (words_from [] s) [ [] ↦ none | w ∷ ws ↦ head? ws ]

-- `s.partition(sep)[0]`
unfoldable pub before_first : ℕ → Text → Text
before_first sep [] = []
before_first sep (c ∷ s) = if c == sep then [] else c ∷ before_first sep s

-- What the authentications read of a request.
pub record Request : Type 0 where
  pub api_key_header : Option Text
  pub authorization : Option Text

pub record Settings : Type 0 where
  pub demo_api_key : Text
  pub demo_api_key_aliases : List Text

unfoldable pub resolve_alias : Settings → Text → Text
resolve_alias settings key =
    if text_in key settings.demo_api_key_aliases then settings.demo_api_key else key

-- The key from the header HTTP_AUTHORIZATION.
unfoldable pub authorization_key : Request → Result Failure Text
unfolding second_word
authorization_key request = do
  raise_if (not (truthy (get_or request.authorization []))) unauthorized
  ok_or (second_word (get_or request.authorization [])) unauthorized

-- `get()` of the rows that a filter finds; none make the request unauthorized.
abbrev pub only_row : List AccountApiKey → Result Failure AccountApiKey
only_row [] = err unauthorized
only_row (r ∷ []) = ok r
only_row (r ∷ x ∷ rows) = err multiple_objects_returned

-- `AccountAPIKey.objects.get(prefix=prefix)`
abbrev pub get_by_prefix : Text → List AccountApiKey → Result Failure AccountApiKey
get_by_prefix prefix keys = only_row (filter (λ r. text_eq r.prefix prefix) keys)

-- `api_key.save(update_fields=['hashed_key_sha256'])`
unfoldable pub save_hash : Text → Text → List AccountApiKey → List AccountApiKey
save_hash prefix hash [] = []
save_hash prefix hash (r ∷ rs) =
    (if text_eq r.prefix prefix then record r { hashed_key_sha256 = some hash } else r)
    ∷ save_hash prefix hash rs

-- The key with which `authenticate` looks for a row.
unfoldable pub sync_key : Settings → Request → Result Failure Text
unfolding authorization_key resolve_alias
sync_key settings request = do
  let given = get_or request.api_key_header []
  key ← if truthy given then ok given else authorization_key request
  ok (resolve_alias settings key)

-- The key with which `aapi_key` looks for a row: the alias is of the first header only.
unfoldable pub async_key : Settings → Request → Result Failure Text
unfolding authorization_key resolve_alias
async_key settings request = do
  let given : Text = elim request.api_key_header [
    | none ↦ []
    | some key ↦ resolve_alias settings key
  ]
  key ← if truthy given then ok given else authorization_key request
  raise_if (not (truthy key)) unauthorized
  ok key

-- What follows the lookup of the row: the row with which the request goes on, and the table.
abbrev pub Access : Type 0
Access = Result Failure AccountApiKey × List AccountApiKey

module _ (sha256 : Text → Text) (check_password : Text → Text → Bool) where
  unfoldable pub admit : Text → List AccountApiKey → Result Failure AccountApiKey → Access
  unfolding verify_key hash_key save_hash
  admit key keys (err e) = (err e, keys)
  admit key keys (ok r) =
      let (is_valid, needs_migration) =
        verify_key sha256 check_password key r.hashed_key r.hashed_key_sha256 in
      if is_valid
      then if needs_migration
        then (
          ok (record r { hashed_key_sha256 = some (hash_key sha256 key) }),
          save_hash r.prefix (hash_key sha256 key) keys,
        )
        else (ok r, keys)
      else (err unauthorized, keys)

  -- `ApiKey.authenticate`, up to the account of the row
  unfoldable pub authenticate : Settings → Request → List AccountApiKey → Access
  unfolding admit sync_key before_first
  authenticate settings request keys = elim (sync_key settings request) [
    | err e ↦ (err e, keys)
    | ok key ↦ admit key keys (get_by_prefix (before_first b'.' key) keys)
  ]

  -- `aapi_key`, up to the account of the row; `is_usable` is the filter of `get_usable_keys`.
  unfoldable pub aapi_key :
      (AccountApiKey → Bool) → Settings → Request → List AccountApiKey → Access
  unfolding admit async_key before_first
  aapi_key is_usable settings request keys = elim (async_key settings request) [
    | err e ↦ (err e, keys)
    | ok key ↦ admit key keys (get_by_prefix (before_first b'.' key) (filter is_usable keys))
  ]

-- `check_standard_rate_limit` and `check_analysis_rate_limit`; `is_ratelimited` is the library's, of
-- a group, a prefix and a rate.
unfoldable pub check_limit :
    (Text → Text → Option Text → Bool) → Text → Option Text → AccountApiKey → Bool
check_limit is_ratelimited group rate key =
    if is_some rate && not (truthy (get_or rate []))
    then false
    else is_ratelimited group key.prefix rate

unfoldable pub check_standard_rate_limit : (Text → Text → Option Text → Bool) → AccountApiKey → Bool
unfolding check_limit
check_standard_rate_limit is_ratelimited key =
    check_limit is_ratelimited (codes "registry") key.rate_limit key

unfoldable pub check_analysis_rate_limit : (Text → Text → Option Text → Bool) → AccountApiKey → Bool
unfolding check_limit
check_analysis_rate_limit is_ratelimited key =
    check_limit is_ratelimited (codes "analysis") key.analysis_rate_limit key

-- `check_rate_limit`: whether it raises, for the path of the request
unfoldable pub check_rate_limit : (Text → Text → Option Text → Bool) → Text → AccountApiKey → Bool
unfolding check_standard_rate_limit check_analysis_rate_limit starts_with
check_rate_limit is_ratelimited path key =
    if starts_with (codes "/passport/") path || starts_with (codes "/v2/models/score/") path
    then check_analysis_rate_limit is_ratelimited key
    else check_standard_rate_limit is_ratelimited key
