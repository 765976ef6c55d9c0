-- ===== src/Passport.antt =====
-- The data that the components hand one another: the stamps of a passport with their verifiable
-- credentials (the dictionaries read in api/registry/atasks.py and
-- api/account/deduplication/lifo.py), and Python's two kinds of date values.
use passport_scorer.Common.{◌==◌, Text, ℕ, Bool, true, not, Option, List}

-- `credential["credentialSubject"]`; a key that is missing is `none`.
pub record Subject : Type 0 where
  pub id : Option Text
  pub hash : Option Text
  pub nullifiers : Option (List Text)
  pub provider : Option Text

-- A credential; `expiration` is the instant that the text `expirationDate` spells.
pub record Credential : Type 0 where
  pub subject : Subject
  pub expiration : ℕ
  pub issuer : Option Text

pub record PassportStamp : Type 0 where
  pub provider : Text
  pub credential : Credential

-- A date is a `datetime` where it comes from the database, and an ISO text where it comes from a
-- credential.
pub data PyDate : Type 0 where
  datetime : ℕ → PyDate
  iso : ℕ → PyDate

unfoldable pub instant : PyDate → ℕ
instant (datetime n) = n
instant (iso n) = n

-- `a != b`: a `datetime` never equals a text.
unfoldable pub date_ne : PyDate → PyDate → Bool
date_ne (datetime m) (datetime n) = not (m == n)
date_ne (iso m) (iso n) = not (m == n)
date_ne (datetime m) (iso n) = true
date_ne (iso m) (datetime n) = true
