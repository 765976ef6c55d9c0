-- ===== src/Cache.antt =====
-- The cache of claimed stamps (api/ceramic_cache/models.py, api/ceramic_cache/api/v1.py): rows that
-- are never removed but marked as deleted, and their revocations.
mod Table
pub mod Calls
pub mod Success
pub mod Effects
pub mod Isolation
pub mod Status
mod Tests
unfoldable pub use Table.*
use passport_scorer.Common.{
  ltb, ◌==◌, if◌then◌else◌, is_some, get_or, length, filter, any, Text, text_in, lower, truthy,
  Result, err, ok, ℕ, ◌+◌, Bool, false, not, ◌&&◌, ◌||◌, Option, none, some, List, [], ◌∷◌,
}

abbrev pub Reply : Type 0
Reply = Result Failure (List Row) × Store

-- Creates the rows of a payload; what was deleted before stays deleted if this fails.
unfoldable pub create_and_reply : Text → Result Failure (List Row) → Store → Reply
unfolding bulk_create passport_state
create_and_reply address (err e) s = (err e, s)
create_and_reply address (ok news) s = elim (bulk_create news s.rows) [
  | none ↦ (err integrity_error, s)
  | some rows ↦
      let s' = record s { rows = rows; next_pk = s.next_pk + length news } in
      (ok (passport_state address s'), s')
]

-- The rows that an add replaces.
abbrev pub replaced : Text → List Text → Row → Bool
replaced address providers r =
    has_address address r && text_in r.provider providers && same_type r.type v1 && is_live r

-- `handle_add_stamps_only`; `limit` is MAX_BULK_CACHE_SIZE.
unfoldable pub handle_add_stamps_only :
    ℕ → ℕ → Text → List CacheStampPayload → SourceApp → Option ℕ → Store → Reply
unfolding soft_delete meets_constraints new_rows create_and_reply
handle_add_stamps_only limit now address payload app scorer s =
    if ltb limit (length payload)
    then (err too_many_stamps, s)
    else let deleted = soft_delete now (replaced address (payload_providers payload)) s.rows in
      if meets_constraints deleted
      then create_and_reply address (new_rows now address (some app) scorer s.next_pk payload)
          (record s { rows = deleted })
      else (err integrity_error, s)

-- The rows that a patch or a delete marks: of any type.
abbrev pub withdrawn : Text → List Text → Row → Bool
withdrawn address providers r = has_address address r && text_in r.provider providers && is_live r

-- `bool(p.stamp)`; a stamp none of whose keys is there counts as empty.
unfoldable pub has_stamp : CacheStampPayload → Bool
has_stamp p = elim p.stamp [
  | none ↦ false
  | some d ↦
      is_some d.id
      || is_some d.hash
      || is_some d.nullifiers
      || is_some d.provider
      || is_some d.proof_value
      || is_some d.issuance_date
      || is_some d.expiration_date
]

-- `[... for p in payload if p.stamp]`
unfoldable pub with_stamp : List CacheStampPayload → List CacheStampPayload
unfolding has_stamp
with_stamp = filter has_stamp

-- `handle_patch_stamps`, up to the score
unfoldable pub handle_patch_stamps : ℕ → ℕ → Text → List CacheStampPayload → Store → Reply
unfolding soft_delete meets_constraints new_rows create_and_reply with_stamp
handle_patch_stamps limit now address payload s =
    if ltb limit (length payload)
    then (err too_many_stamps, s)
    else let deleted = soft_delete now (withdrawn address (payload_providers payload)) s.rows in
      if meets_constraints deleted
      then create_and_reply address (new_rows now address none none s.next_pk (with_stamp payload))
          (record s { rows = deleted })
      else (err integrity_error, s)

-- The state that `handle_delete_stamps` returns is of every type.
unfoldable pub passport_state_any : Text → Store → List Row
unfolding lower
passport_state_any address s =
    filter (λ r. has_address address r && is_live r && not (is_revoked s r)) s.rows

-- `handle_delete_stamps`, up to the score
unfoldable pub handle_delete_stamps : ℕ → ℕ → Text → List Text → Store → Reply
unfolding soft_delete meets_constraints passport_state_any
handle_delete_stamps limit now address providers s =
    if ltb limit (length providers)
    then (err too_many_stamps, s)
    else if any (withdrawn address providers) s.rows
    then (let s' = record s { rows = soft_delete now (withdrawn address providers) s.rows } in
        if meets_constraints s'.rows
        then (ok (passport_state_any address s'), s')
        else (err integrity_error, s))
    else (err invalid_delete_request, s)

-- `ComposeDBStatusPayload`
pub record StatusUpdate : Type 0 where
  pub id : ℕ
  pub status : SaveStatus
  pub stream_id : Option Text

abbrev pub update_ids : List StatusUpdate → List ℕ
update_ids [] = []
update_ids (u ∷ us) = u.id ∷ update_ids us

abbrev pub number_in : ℕ → List ℕ → Bool
number_in n [] = false
number_in n (x ∷ xs) = n == x || number_in n xs

-- The inner loop: the first pending update for the row, and the others.
unfoldable pub take_update : ℕ → List StatusUpdate → Option StatusUpdate × List StatusUpdate
take_update pk [] = (none, [])
take_update pk (u ∷ us) =
    let rest = take_update pk us in if pk == u.id then (some u, us) else (rest.0, u ∷ rest.1)

-- The fields after an update, or after none.
abbrev pub updated_of : ℕ → Option StatusUpdate → ℕ → ℕ
updated_of now none old = old
updated_of now (some u) old = now

abbrev pub status_of : Option StatusUpdate → SaveStatus → SaveStatus
status_of none old = old
status_of (some u) old = u.status

abbrev pub stream_of : Option StatusUpdate → Text → Text
stream_of none old = old
stream_of (some u) old =
    let given : Text = get_or u.stream_id [] in if truthy given then given else old

unfoldable pub apply_update : ℕ → Option StatusUpdate → Row → Row
apply_update now u r = record r {
  updated_at = updated_of now u r.updated_at;
  status = status_of u r.status;
  stream_id = stream_of u r.stream_id;
}

abbrev pub awaits_update : Text → List ℕ → Row → Bool
awaits_update address ids r =
    has_address address r
    && number_in r.pk ids
    && is_live r
    && is_pending r.status
    && same_type r.type v1

-- The outer loop, and the rows as `bulk_update` writes them.
unfoldable pub update_statuses : ℕ → (Row → Bool) → List StatusUpdate → List Row → List Row
unfolding take_update apply_update
update_statuses now selected us [] = []
update_statuses now selected us (r ∷ rs) =
    let (u, others) = take_update r.pk us in
    if selected r
    then apply_update now u r ∷ update_statuses now selected others rs
    else r ∷ update_statuses now selected us rs

abbrev pks : List Row → List ℕ
pks [] = []
pks (r ∷ rs) = r.pk ∷ pks rs

-- `handle_update_compose_db_status`
unfoldable pub handle_update_compose_db_status :
    ℕ → ℕ → Text → List StatusUpdate → Store → Result Failure (List ℕ) × Store
unfolding update_statuses lower same_type is_pending
handle_update_compose_db_status limit now address payload s =
    if ltb limit (length payload)
    then (err too_many_stamps, s)
    else let selected = awaits_update address (update_ids payload) in
      (
        ok (pks (filter selected s.rows)),
        record s { rows = update_statuses now selected payload s.rows },
      )
