-- ===== src/Dedup/Stamps.antt =====
-- How the stamps of a submission are sorted into those that are kept and those that clash
-- (api/account/deduplication/lifo.py).
use passport_scorer.Common.{
  ltb, ◌==◌, if◌then◌else◌, filter, find, Text, codes, text_eq, text_in, starts_with, Dict, insert,
  ok_or, ◌>>=◌, Result, ok, ℕ, Bool, ◌&&◌, Option, none, some, List, [], ◌∷◌, ◌++◌,
}
use passport_scorer.Passport.{PassportStamp, PyDate, iso, instant, date_ne}

-- A row of `HashScorerLink`, unique by its hash and community, which stand for its key.
pub record HashLink : Type 0 where
  pub hash : Text
  pub community : ℕ
  pub address : Text
  pub expires_at : PyDate

-- An `Event` with action LIFO_DEDUPLICATION.
pub record DedupEvent : Type 0 where
  pub address : Text
  pub nullifiers : List Text
  pub provider : Text
  pub community : ℕ

pub data Failure : Type 0 where
  key_error : Failure
  unbound_local : Failure
  hash_link_integrity : Failure

abbrev v0 : Text
v0 = codes "v0"

-- `get_nullifiers`; `multi` is the setting FF_MULTI_NULLIFIER.
unfoldable pub get_nullifiers : Bool → PassportStamp → Result Failure (List Text)
unfolding starts_with
get_nullifiers multi stamp =
    let cs = stamp.credential.subject in
    let unfiltered : Result Failure (List Text) = elim cs.hash [
      | some h ↦ ok (h ∷ [])
      | none ↦ ok_or cs.nullifiers key_error
    ] in
    do
      nullifiers ← unfiltered
      ok (if multi then nullifiers else filter (starts_with v0) nullifiers)

-- Each stamp with its nullifiers; `get_nullifiers` is pure, so what the loops compute again is
-- computed here once.
unfoldable pub collect_nullifiers :
    Bool → List PassportStamp → Result Failure (List (PassportStamp × List Text))
unfolding get_nullifiers
collect_nullifiers multi [] = ok []
collect_nullifiers multi (s ∷ ss) = do
  nullifiers ← get_nullifiers multi s
  rest ← collect_nullifiers multi ss
  ok ((s, nullifiers) ∷ rest)

abbrev pub stamp_hashes : List (PassportStamp × List Text) → List Text
stamp_hashes [] = []
stamp_hashes ((s, ns) ∷ ps) = ns ++ stamp_hashes ps

-- The rows of the community that match, by who holds them.
pub record Claims : Type 0 where
  pub own : List HashLink
  pub clashing : List HashLink
  pub forfeited : List HashLink

unfoldable pub classify : Text → ℕ → List HashLink → Claims
unfolding instant
classify address now [] = record { own = []; clashing = []; forfeited = [] }
classify address now (l ∷ ls) =
    let rest = classify address now ls in
    if text_eq l.address address
    then record rest { own = l ∷ rest.own }
    else if ltb now (instant l.expires_at)
    then record rest { clashing = l ∷ rest.clashing }
    else record rest { forfeited = l ∷ rest.forfeited }

-- `HashScorerLink.objects.filter(hash__in=hashes, community=community)`
abbrev pub existing_links : ℕ → List Text → List HashLink → List HashLink
existing_links community hashes = filter (λ l. l.community == community && text_in l.hash hashes)

abbrev pub hashes_of : List HashLink → List Text
hashes_of [] = []
hashes_of (l ∷ ls) = l.hash ∷ hashes_of ls

abbrev pub find_hash : Text → List HashLink → Option HashLink
find_hash h [] = none
find_hash h (l ∷ ls) = if text_eq l.hash h then some l else find_hash h ls

-- Assigns to the first object with the hash, which the lists and the updates share.
abbrev pub renew : Text → Text → PyDate → List HashLink → List HashLink
renew h address expires [] = []
renew h address expires (l ∷ ls) =
    if text_eq l.hash h
    then record l { address = address; expires_at = expires } ∷ ls
    else l ∷ renew h address expires ls

-- The loop's variables; `update` names the objects to update by their hashes.
pub record Work : Type 0 where
  pub kept : List PassportStamp
  pub own : List HashLink
  pub forfeited : List HashLink
  pub create : List HashLink
  pub update : List Text
  pub clashing_stamps : Dict PassportStamp

-- One nullifier of a stamp that is kept.
unfoldable pub claim : ℕ → Text → PyDate → Text → Work → Work
unfolding date_ne
claim community address expires h w = elim (find_hash h w.own) [
  | some l ↦
      if date_ne l.expires_at expires
      then record w { own = renew h l.address expires w.own; update = w.update ++ h ∷ [] }
      else w
  | none ↦ elim (find_hash h w.forfeited) [
    | some l ↦ record w {
      forfeited = renew h address expires w.forfeited;
      update = w.update ++ h ∷ [];
    }
    | none ↦ record w {
      create =
          w.create
          ++ record { hash = h; community = community; address = address; expires_at = expires }
            ∷ [];
    }
  ]
]

unfoldable pub claim_all : ℕ → Text → PyDate → List Text → Work → Work
unfolding claim
claim_all community address expires [] w = w
claim_all community address expires (h ∷ hs) w =
    claim_all community address expires hs (claim community address expires h w)

-- The missing links of a stamp that clashes only in part go to the holder of the clash.
unfoldable pub backfill : ℕ → HashLink → List Text → List Text → Work → Work
backfill community holder clash [] w = w
backfill community holder clash (h ∷ hs) w = backfill community holder clash hs (
    if text_in h clash then w else record w {
      create =
          w.create
          ++ record {
            hash = h;
            community = community;
            address = holder.address;
            expires_at = holder.expires_at;
          }
            ∷ [];
    })

-- The body of the second loop, for a stamp with its nullifiers.
unfoldable pub process_stamp :
    ℕ → Text → List HashLink → PassportStamp → List Text → Work → Result Failure Work
unfolding claim_all backfill
process_stamp community address clashing s ns w =
    let clash = hashes_of clashing in
    elim (find (λ h. text_in h clash) ns) [
      | none ↦ ok (
          claim_all community address (iso s.credential.expiration) ns
            (record w { kept = w.kept ++ s ∷ [] }))
      | some first ↦ do
        provider ← ok_or s.credential.subject.provider key_error
        holder ← ok_or (find_hash first clashing) key_error
        ok (
            backfill community holder clash ns
              (record w { clashing_stamps = insert provider s w.clashing_stamps }))
    ]

unfoldable pub process_stamps :
    ℕ → Text → List HashLink → List (PassportStamp × List Text) → Work → Result Failure Work
unfolding process_stamp
process_stamps community address clashing [] w = ok w
process_stamps community address clashing ((s, ns) ∷ ps) w =
    process_stamp community address clashing s ns w >>= process_stamps community address clashing ps
