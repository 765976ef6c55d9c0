-- ===== src/Submission/Example.antt =====
-- A cache, a community and tables for small submissions.
use passport_scorer.Common.{
  get_or, Text, codes, one, add_decimal, true, false, Option, none, some, List, [], ◌∷◌,
}
use passport_scorer.Passport.{PassportStamp, Credential}
use passport_scorer.Cache.{Store, Row, StampDoc, v1, unset}
use passport_scorer.Submission.{Score, Community, Passport, Settings, World, lifo}

abbrev pub doc : StampDoc
doc = record {
  id = some (codes "did:pkh:eip155:1:0xb");
  hash = none;
  nullifiers = some (codes "v0:b" ∷ []);
  provider = some (codes "Github");
  proof_value = some (codes "z1");
  issuance_date = some 1;
  expiration_date = some 200;
}

abbrev pub row : Row
row = record {
  pk = 1;
  type = v1;
  address = codes "0xb";
  provider = codes "Github";
  stamp = doc;
  proof_value = codes "z1";
  updated_at = 5;
  deleted_at = none;
  status = unset;
  stream_id = [];
  issuance_date = some 1;
  expiration_date = some 200;
  source_app = none;
  source_scorer_id = none;
}

abbrev pub cache : Store
cache = record { rows = row ∷ []; next_pk = 2; revocations = [] }

abbrev pub credential_of : StampDoc → Credential
credential_of d = record {
  subject = record { id = d.id; hash = d.hash; nullifiers = d.nullifiers; provider = d.provider };
  expiration = get_or d.expiration_date 0;
  issuer = some (codes "did:key:iam");
}

-- A verifier that finds no error.
abbrev pub accepts : Credential → Option (List Text)
accepts c = some []

abbrev pub settings : Settings
settings = record {
  multi_nullifier = false;
  trusted_iam_issuers = codes "did:key:iam" ∷ [];
  human_points_write_enabled = true;
  human_points_start_timestamp = 10;
  human_points_mta_enabled = false;
  address_lists = [];
  is_deleted = λ _. false;
}

abbrev pub community : Community
community = record {
  pk = 7;
  rule = lifo;
  human_points_program = true;
  threshold = add_decimal one one;
  weights = (codes "Github", add_decimal one (add_decimal one one)) ∷ [];
  customization = none;
  has_scorer = true;
}

abbrev pub passport : Passport
passport = record { id = 3; address = codes "0xb" }

abbrev pub fresh : Score
fresh = record {
  score = none;
  last_score_timestamp = none;
  status = none;
  error = none;
  evidence = none;
  stamp_scores = none;
  stamps = none;
  expiration_date = none;
}

abbrev pub other_stamp : PassportStamp
other_stamp = record { provider = codes "Google"; credential = credential_of doc }

abbrev pub world : World
world = record {
  stamps = (4, other_stamp) ∷ (3, other_stamp) ∷ [];
  links = record { links = []; events = [] };
  qualified = [];
  points = [];
}
