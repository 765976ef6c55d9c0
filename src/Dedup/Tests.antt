-- ===== src/Dedup/Tests.antt =====
-- Runs of the deduplication on small tables, and the theorems at them.
use passport_scorer.Common.{
  All, Text, codes, text_eq, err, ok, ◌≡◌, refl, false, none, some, List, [], ◌∷◌,
}
use passport_scorer.Passport.{PassportStamp, datetime, instant}
use passport_scorer.Dedup.{HashLink, Links, hash_link_integrity, find_link, arun_lifo_dedup, alifo}
use passport_scorer.Dedup.Safety.{Avoids, alifo-keeps_holder, alifo-Avoids}

abbrev stamp : Text → List Text → PassportStamp
stamp provider ns = record {
  provider = provider;
  credential = record {
    subject = record { id = none; hash = none; nullifiers = some ns; provider = some provider };
    expiration = 200;
    issuer = none;
  };
}

abbrev held : HashLink
held = record {
  hash = codes "v0:a";
  community = 7;
  address = codes "0xa";
  expires_at = datetime 100;
}

abbrev table : Links
table = record { links = held ∷ []; events = [] }

-- The first stamp clashes with its first nullifier only.
abbrev github : PassportStamp
github = stamp (codes "Github") (codes "v0:a" ∷ codes "v0:b" ∷ [])

abbrev google : PassportStamp
google = stamp (codes "Google") (codes "v0:c" ∷ codes "v1:c" ∷ [])

abbrev google_link : HashLink
google_link = record {
  hash = codes "v0:c";
  community = 7;
  address = codes "0xb";
  expires_at = datetime 200;
}

abbrev after : Links
after = record {
  links = held ∷ record held { hash = codes "v0:b" } ∷ google_link ∷ [];
  events =
      record {
        address = codes "0xb";
        nullifiers = codes "v0:a" ∷ codes "v0:b" ∷ [];
        provider = codes "Github";
        community = 7;
      }
      ∷ [];
}

-- The first attempt writes the links and raises, since the backfilled link is not the submitter's;
-- the next attempt finds nothing to create.
first_attempt :
    (arun_lifo_dedup false 50 7 (codes "0xb") (some (github ∷ google ∷ [])) table).0
    ≡ err hash_link_integrity
unfolding arun_lifo_dedup text_eq
first_attempt = refl

two_attempts :
    alifo false (λ _. 50) 7 (codes "0xb") (some (github ∷ google ∷ [])) table
    ≡ (ok (google ∷ [], (codes "Github", github) ∷ []), after)
unfolding alifo text_eq
two_attempts = refl

alifo-keeps_holder_example :
    find_link 7
      (codes "v0:a")
      (alifo false (λ _. 50) 7 (codes "0xb") (some (github ∷ google ∷ [])) table).1.links
    ≡ some held
unfolding text_eq instant
alifo-keeps_holder_example =
    alifo-keeps_holder false 7 (codes "0xb") (λ _. 50) (some (github ∷ google ∷ [])) (codes "v0:a")
      table (refl, tt) refl (λ _. (refl, refl))

alifo-Avoids_example : All (Avoids false (codes "v0:a")) (google ∷ [])
unfolding text_eq instant
alifo-Avoids_example =
    alifo-Avoids false 7 (codes "0xb") (λ _. 50) (some (github ∷ google ∷ [])) (codes "v0:a") table
      (refl, tt) refl (λ _. (refl, refl)) two_attempts
