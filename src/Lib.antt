-- ===== src/Lib.antt =====
-- The Passport scorer (the Python code under api/): how stamps are cached, listed, banned and
-- revoked, how a passport is read, deduplicated, scored, recorded and reported, and the keys,
-- nonces and cursors that its endpoints use.
--
-- A client's stamps are kept in the cache (`Cache`, from api/ceramic_cache/models.py and
-- api/ceramic_cache/api/v1.py). Bans revoke cached stamps and are looked up for credentials
-- (`Bans`, from api/ceramic_cache/models.py and api/internal/bans_revocations.py). A submission
-- (`Submission`, from api/registry/atasks.py and api/registry/utils.py) reads the latest stamp of
-- each provider (`Reader`, from api/reader/passport_reader.py), validates the credentials, claims
-- their nullifiers for the community (`Dedup`, from api/account/deduplication/lifo.py), stores and
-- scores what is left (`Scoring`, from api/scorer_weighted/computation.py and
-- api/scorer_weighted/models.py), and records Human Points (`HumanPoints`, from
-- api/registry/human_points_utils.py). The V2 score endpoint submits an address and reports the row
-- of its score (`V2`, from api/v2/api/api_stamps.py and api/registry/api/v1.py), with the points
-- that the address has (`Totals`, from api/registry/human_points_utils.py), and so do the cache's
-- endpoints (`CacheApi`, from api/ceramic_cache/api/v1.py); the V1 endpoints do so for submissions
-- with a signature and a nonce (`V1`, from api/registry/api/v1.py). Saved scores leave events, of
-- which the history of scores is read (`History`, from api/registry/models.py and
-- api/v2/api/api_stamps.py). Scores are listed by cursors (`Cursor`, from api/registry/utils.py),
-- and the stamps of an account by pages (`Pages`, from api/v2/api/api_stamps.py) whose links carry
-- a token (`Token`, from api/registry/utils.py). Requests are let in by their key (`ApiKeys`, from
-- api/account/api_key_validator.py and api/registry/api/utils.py). Nonces are used once, also for
-- the terms of service (`Nonces`, from api/account/models.py and api/tos/models.py) and for the two
-- sign-ins (`SignIn`, from api/account/siwe_validation.py, api/ceramic_cache/api/v1.py and
-- api/account/api.py). An account's communities and their scorers are kept by `Communities` (from
-- api/account/api.py, api/account/models.py and api/registry/api/v1.py). Addresses are analysed by
-- models, which are remote services (`Analysis`, from api/passport/api.py). `Passport` has the
-- stamps and credentials that the parts hand one another, and `Common` what all share.
--
-- A function keeps its name from the source. A table of the database is a list of rows in the order
-- of insertion, passed from one call to the next; a constraint of a table is a test that refuses a
-- row; an exception is an `err`, and what was written before it stays written, since requests do
-- not run in a transaction. The children of a module are named for what they prove or for the part
-- that they hold; its `Tests` runs it on small tables, which an `Example` holds where modules share
-- them.
--
-- A text is the list of its code points, and `lower` is that of ASCII text. Decimals and floats are
-- integers in units of 10^-1074, in which each has its exact value; sums of decimals are rounded to
-- 28 digits and conversions to floats to 53 binary digits. In `Communities` the thresholds are in
-- units of the fifth decimal place, which is all that their column holds. Points are in the units
-- of their tables. Times are natural numbers, and the clock is an argument; in `History` they are in
-- microseconds. The search for the place at which a number is rounded has the number as fuel, which
-- is enough since the place grows faster; the
-- five attempts of `alifo` are the only bounded loop of the code; the other loops run over lists.
-- The client of `Pages` that follows the links has fuel, one request more than the table has rows,
-- since each page that has a next one lists a row. The digits of a number have as fuel one more
-- than the number. The verification of credentials by didkit, the recovery of a signer by
-- eth_account, the validation of addresses by eth_utils, SHA-256 and Django's password hashes, and
-- Python's JSON and base64 functions are arguments; what is relied on of the last two is a
-- hypothesis, and `Token/Example` meets it.
--
-- The web framework, the analytics of API keys, the customisation of dashboards, staking, grants,
-- the admin pages, the commands and the lambdas are not modelled: they are calls of other services,
-- configuration and display, or are queries over what is modelled here. The libraries of web
-- tokens, of SIWE messages and of Ethereum's addresses and signatures are arguments, among them the
-- call that runs the validator of contracts' signatures. Whether a community's row, or the rows of
-- its scorer, are gone when they are read is an argument or a field of the community.
pub mod Common
pub mod Passport
pub mod Dedup
pub mod Scoring
pub mod Cache
pub mod Bans
pub mod HumanPoints
pub mod Reader
pub mod Submission
pub mod Cursor
pub mod Nonces
pub mod ApiKeys
pub mod Token
pub mod Pages
pub mod Totals
pub mod V2
pub mod V1
pub mod Communities
pub mod SignIn
pub mod CacheApi
pub mod Analysis
pub mod History
