-- ===== src/Dedup.antt =====
-- Last-in-first-out deduplication (api/account/deduplication/lifo.py): the table of hash links, the
-- claims on it, the loop over the stamps, the writes and the retries.
mod Stamps
pub mod Holders
pub mod Loop
pub mod Tables
pub mod Safety
pub mod Kept
mod Tests
unfoldable pub use Stamps.*
use passport_scorer.Common.{
  ◌==◌, if◌then◌else◌, is_some, length, filter, find, null, Text, text_eq, text_in, lower, Dict,
  update, ok_or, ◌>>=◌, ◌>>◌, Result, err, ok, ℕ, zero, suc, ◌+◌, Bool, ◌&&◌, Option, none, some,
  List, [], ◌∷◌, ◌++◌,
}
use passport_scorer.Passport.{PassportStamp, PyDate, datetime, iso, instant, date_ne}

-- The tables.
pub record Links : Type 0 where
  pub links : List HashLink
  pub events : List DedupEvent

-- As saved: the address field is lowered, and the date is a `datetime`.
unfoldable pub stored : HashLink → HashLink
unfolding instant lower
stored l = record l { address = lower l.address; expires_at = datetime (instant l.expires_at) }

abbrev pub same_key : ℕ → Text → HashLink → Bool
same_key community h l = l.community == community && text_eq l.hash h

abbrev pub find_link : ℕ → Text → List HashLink → Option HashLink
find_link community h = find (same_key community h)

-- `abulk_create`: all rows, or an IntegrityError and none.
unfoldable pub bulk_create : List HashLink → List HashLink → Option (List HashLink)
unfolding stored
bulk_create [] table = some table
bulk_create (l ∷ ls) table =
    let rest = bulk_create ls (table ++ stored l ∷ []) in
    if is_some (find_link l.community l.hash table) then none else rest

-- `abulk_update` of one object: the row with its key takes its address and date.
abbrev pub write_back : HashLink → List HashLink → List HashLink
write_back o [] = []
write_back o (l ∷ ls) =
    (if same_key o.community o.hash l
      then record l { address = (stored o).address; expires_at = (stored o).expires_at }
      else l)
    ∷ write_back o ls

unfoldable pub bulk_update : List HashLink → List HashLink → List HashLink
bulk_update [] table = table
bulk_update (o ∷ os) table = bulk_update os (write_back o table)

abbrev pub objects : Work → List Text → List HashLink
objects w [] = []
objects w (h ∷ hs) = elim (find_hash h w.own) [
  | some o ↦ o ∷ objects w hs
  | none ↦ elim (find_hash h w.forfeited) [ some o ↦ o ∷ objects w hs | none ↦ objects w hs ]
]

-- The rows that the final check counts.
abbrev pub confirmed : ℕ → Text → List Text → List HashLink → List HashLink
confirmed community address hashes =
    filter
      (λ l. text_eq l.address (lower address) && l.community == community && text_in l.hash hashes)

-- `save_hash_links`; what was written before the last check stays written when it fails.
unfoldable pub save_hash_links :
    ℕ
    → Text
    → List HashLink
    → List HashLink
    → List HashLink
    → Result Failure (Unit {0}) × List HashLink
unfolding bulk_create bulk_update lower
save_hash_links community address create update table =
    if null create && null update then (ok tt, table) else elim (bulk_create create table) [
      | none ↦ (err hash_link_integrity, table)
      | some created ↦
          let after = bulk_update update created in
          let found = confirmed community address (hashes_of update ++ hashes_of create) after in
          if length found == length update + length create
          then (ok tt, after)
          else (err hash_link_integrity, after)
    ]

-- The events of the stamps that clashed.
unfoldable pub clash_events :
    Bool → ℕ → Text → Dict PassportStamp → Result Failure (List DedupEvent)
unfolding get_nullifiers
clash_events multi community address [] = ok []
clash_events multi community address ((provider, s) ∷ d) = do
  nullifiers ← get_nullifiers multi s
  name ← ok_or s.credential.subject.provider key_error
  rest ← clash_events multi community address d
  ok (
      record { address = address; nullifiers = nullifiers; provider = name; community = community }
      ∷ rest)

abbrev pub Deduped : Type 0
Deduped = Result Failure (List PassportStamp × Dict PassportStamp)

-- The stamps and claims of one attempt.
unfoldable pub sort_stamps :
    Bool → ℕ → ℕ → Text → List PassportStamp → List HashLink → Result Failure Work
unfolding collect_nullifiers classify process_stamps
sort_stamps multi now community address stamps table = do
  pairs ← collect_nullifiers multi stamps
  let claims = classify address now (existing_links community (stamp_hashes pairs) table)
  process_stamps community address claims.clashing pairs (record {
    kept = [];
    own = claims.own;
    forfeited = claims.forfeited;
    create = [];
    update = [];
    clashing_stamps = [];
  })

-- What follows the writes.
unfoldable pub finish :
    Bool
    → ℕ
    → Text
    → Work
    → Result Failure (Unit {0}) × List HashLink
    → List DedupEvent
    → Deduped × Links
unfolding clash_events
finish multi community address w (err e, table) events =
    (err e, record { links = table; events = events })
finish multi community address w (ok _, table) events =
    elim (clash_events multi community address w.clashing_stamps) [
      | err e ↦ (err e, record { links = table; events = events })
      | ok new ↦ (ok (w.kept, w.clashing_stamps), record { links = table; events = events ++ new })
    ]

-- `arun_lifo_dedup`, at the time `now`. A passport with no key "stamps" reaches the `return` with
-- `clashing_stamps` unassigned.
unfoldable pub arun_lifo_dedup :
    Bool → ℕ → ℕ → Text → Option (List PassportStamp) → Links → Deduped × Links
unfolding sort_stamps save_hash_links finish
arun_lifo_dedup multi now community address none s = (err unbound_local, s)
arun_lifo_dedup multi now community address (some stamps) s =
    elim (sort_stamps multi now community address stamps s.links) [
      | err e ↦ (err e, s)
      | ok w ↦
          finish multi community address w
            (save_hash_links community address w.create (objects w w.update) s.links) s.events
    ]

-- The retries of `alifo`; the clock is read in each attempt, by the tries that remain. Nothing else
-- writes between the attempts.
unfoldable pub retry :
    Bool → (ℕ → ℕ) → ℕ → Text → Option (List PassportStamp) → ℕ → Links → Deduped × Links
unfolding arun_lifo_dedup
retry multi clock community address stamps zero s = (err hash_link_integrity, s)
retry multi clock community address stamps (suc tries) s =
    let (r, s') = arun_lifo_dedup multi (clock tries) community address stamps s in
    elim r [
      | ok done ↦ (ok done, s')
      | err hash_link_integrity ↦ retry multi clock community address stamps tries s'
      | err key_error ↦ (err key_error, s')
      | err unbound_local ↦ (err unbound_local, s')
    ]

unfoldable pub alifo :
    Bool → (ℕ → ℕ) → ℕ → Text → Option (List PassportStamp) → Links → Deduped × Links
unfolding retry
alifo multi clock community address stamps = retry multi clock community address stamps 5
