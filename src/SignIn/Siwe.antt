-- ===== src/SignIn/Siwe.antt =====
-- SIWE messages and the checks of their domain and expiration (api/account/siwe_validation.py,
-- api/ceramic_cache/api/v1.py).
use passport_scorer.Common.{
  ltb, if◌then◌else◌, get_or, Text, text_in, lower, truthy, ℕ, Bool, true, false, ◌&&◌, Option,
  none, some, List, map,
}

-- What the handlers read of the dictionary of a message; a key that is missing is `none`.
pub record Message : Type 0 where
  pub address : Option Text
  pub domain : Option Text
  pub statement : Option Text
  pub uri : Option Text
  pub version : Option Text
  pub chain_id : Option ℕ
  pub nonce : Option Text
  pub issued_at : Option Text
  pub expiration_time : Option Text
  pub not_before : Option Text
  pub request_id : Option Text
  pub resources : List Text

-- What `SiweMessage` is made of; a key that is left out is `none`.
pub record SiweFields : Type 0 where
  pub domain : Option Text
  pub address : Text
  pub statement : Option Text
  pub uri : Option Text
  pub version : Option Text
  pub chain_id : ℕ
  pub nonce : Option Text
  pub issued_at : Option Text
  pub expiration_time : Option Text
  pub not_before : Option Text
  pub request_id : Option Text
  pub resources : List Text

-- A key that is written only if its value is not empty.
abbrev pub if_given : Option Text → Option Text
if_given none = none
if_given (some t) = if truthy t then some t else none

-- `siwe_message_dict`
unfoldable pub siwe_message : Message → Text → SiweFields
siwe_message m address = record {
  domain = m.domain;
  address = address;
  statement = m.statement;
  uri = m.uri;
  version = m.version;
  chain_id = get_or m.chain_id 1;
  nonce = m.nonce;
  issued_at = m.issued_at;
  expiration_time = if_given m.expiration_time;
  not_before = if_given m.not_before;
  request_id = if_given m.request_id;
  resources = m.resources;
}

-- A `datetime`, in seconds, with a time zone or without.
pub data PyTime : Type 0 where
  aware : ℕ → PyTime
  naive : ℕ → PyTime

-- `validate_siwe_domain`
unfoldable pub validate_siwe_domain : Option Text → List Text → Bool
unfolding lower
validate_siwe_domain none allowed = false
validate_siwe_domain (some domain) allowed =
    truthy domain && text_in (lower domain) (map lower allowed)

-- Whether a time is to come; a time without a zone cannot be compared with the clock's.
abbrev pub is_ahead : ℕ → Option PyTime → Bool
is_ahead now none = false
is_ahead now (some (naive t)) = false
is_ahead now (some (aware t)) = ltb now t

-- `validate_siwe_expiration`
unfoldable pub validate_siwe_expiration : (Text → Option PyTime) → ℕ → Option Text → Bool
validate_siwe_expiration fromisoformat now none = true
validate_siwe_expiration fromisoformat now (some t) = truthy t && is_ahead now (fromisoformat t)
