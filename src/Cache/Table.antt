-- ===== src/Cache/Table.antt =====
-- The table of the stamp cache with its constraint (api/ceramic_cache/models.py), and how rows are
-- deleted, made and read (api/ceramic_cache/api/v1.py).
use passport_scorer.Common.{
  ◌==◌, if◌then◌else◌, is_some, filter, any, Text, text_eq, lower, ok_or, ◌>>=◌, Result, ok, ℕ, suc,
  Bool, true, false, not, ◌&&◌, Option, none, some, List, [], ◌∷◌, ◌++◌,
}

pub data StampType : Type 0 where
  v1 : StampType
  v2 : StampType

unfoldable pub same_type : StampType → StampType → Bool
same_type v1 v1 = true
same_type v2 v2 = true
same_type v1 v2 = false
same_type v2 v1 = false

pub data SourceApp : Type 0 where
  passport : SourceApp
  embed : SourceApp

pub data SaveStatus : Type 0 where
  unset : SaveStatus
  pending : SaveStatus
  saved : SaveStatus
  failed : SaveStatus

unfoldable pub is_pending : SaveStatus → Bool
is_pending pending = true
is_pending unset = false
is_pending saved = false
is_pending failed = false

-- What the handlers read of a stamp's JSON; a key that is missing is `none`.
pub record StampDoc : Type 0 where
  pub id : Option Text
  pub hash : Option Text
  pub nullifiers : Option (List Text)
  pub provider : Option Text
  pub proof_value : Option Text
  pub issuance_date : Option ℕ
  pub expiration_date : Option ℕ

-- A row of `CeramicCache`.
pub record Row : Type 0 where
  pub pk : ℕ
  pub type : StampType
  pub address : Text
  pub provider : Text
  pub stamp : StampDoc
  pub proof_value : Text
  pub updated_at : ℕ
  pub deleted_at : Option ℕ
  pub status : SaveStatus
  pub stream_id : Text
  pub issuance_date : Option ℕ
  pub expiration_date : Option ℕ
  pub source_app : Option SourceApp
  pub source_scorer_id : Option ℕ

-- A row of `Revocation`; `cache_pk` is its one-to-one key.
pub record Revocation : Type 0 where
  pub proof_value : Text
  pub cache_pk : ℕ

pub record Store : Type 0 where
  pub rows : List Row
  pub next_pk : ℕ
  pub revocations : List Revocation

pub data Failure : Type 0 where
  too_many_stamps : Failure
  invalid_delete_request : Failure
  integrity_error : Failure
  malformed_stamp : Failure

-- `CacheStampPayload`
pub record CacheStampPayload : Type 0 where
  pub provider : Text
  pub stamp : Option StampDoc

abbrev pub is_live : Row → Bool
is_live r = not (is_some r.deleted_at)

-- The address field is lowered when it is saved and when it is compared with.
abbrev pub has_address : Text → Row → Bool
has_address address r = text_eq r.address (lower address)

abbrev pub payload_providers : List CacheStampPayload → List Text
payload_providers [] = []
payload_providers (p ∷ ps) = p.provider ∷ payload_providers ps

-- The rows that `queryset.update(updated_at=now, deleted_at=now)` writes
unfoldable pub soft_delete : ℕ → (Row → Bool) → List Row → List Row
soft_delete now selected [] = []
soft_delete now selected (r ∷ rs) =
    (if selected r then record r { updated_at = now; deleted_at = some now } else r)
    ∷ soft_delete now selected rs

-- The same type, address and provider.
abbrev pub same_slot : Row → Row → Bool
same_slot r q =
    same_type r.type q.type && text_eq r.address q.address && text_eq r.provider q.provider

abbrev same_deletion : Option ℕ → Option ℕ → Bool
same_deletion none none = true
same_deletion (some t) (some u) = t == u
same_deletion none (some u) = false
same_deletion (some t) none = false

-- What the constraints forbid of two rows: one slot, and both live
-- (`unique_non_deleted_provider_for_address`) or both deleted at one time
-- (`unique_deleted_provider_for_address`, and `unique_together`, for which null differs from null).
abbrev pub clashes : Row → Row → Bool
clashes r q = same_slot r q && same_deletion r.deleted_at q.deleted_at

-- Whether an update may leave these rows; else it raises `IntegrityError`.
unfoldable pub meets_constraints : List Row → Bool
meets_constraints [] = true
meets_constraints (r ∷ rs) = not (any (clashes r) rs) && meets_constraints rs

unfoldable pub insert_row : Row → List Row → Option (List Row)
insert_row r rows = if any (clashes r) rows then none else some (rows ++ r ∷ [])

-- A row that is written by the handlers, as saved.
unfoldable pub new_row :
    ℕ → Text → ℕ → Option SourceApp → Option ℕ → CacheStampPayload → StampDoc → Text → Row
unfolding lower
new_row now address pk app scorer p doc proof = record {
  pk = pk;
  type = v1;
  address = lower address;
  provider = p.provider;
  stamp = doc;
  proof_value = proof;
  updated_at = now;
  deleted_at = none;
  status = pending;
  stream_id = [];
  issuance_date = doc.issuance_date;
  expiration_date = doc.expiration_date;
  source_app = app;
  source_scorer_id = scorer;
}

-- The objects of the list comprehension, each with the key that it will get;
-- `p.stamp["proof"]["proofValue"]` raises where there is no stamp or no proof.
unfoldable pub new_rows :
    ℕ → Text → Option SourceApp → Option ℕ → ℕ → List CacheStampPayload → Result Failure (List Row)
unfolding new_row
new_rows now address app scorer pk [] = ok []
new_rows now address app scorer pk (p ∷ ps) = do
  doc ← ok_or p.stamp malformed_stamp
  proof ← ok_or doc.proof_value malformed_stamp
  rest ← new_rows now address app scorer (suc pk) ps
  ok (new_row now address pk app scorer p doc proof ∷ rest)

-- `bulk_create`: all rows or none.
unfoldable pub bulk_create : List Row → List Row → Option (List Row)
unfolding insert_row
bulk_create [] rows = some rows
bulk_create (r ∷ rs) rows = elim (insert_row r rows) [
  | none ↦ none
  | some rows' ↦ bulk_create rs rows'
]

abbrev pub is_revoked : Store → Row → Bool
is_revoked s r = any (λ v. v.cache_pk == r.pk) s.revocations

-- The stamps of a response: live, V1, not revoked.
unfoldable pub passport_state : Text → Store → List Row
unfolding same_type lower
passport_state address s =
    filter (λ r. has_address address r && same_type r.type v1 && is_live r && not (is_revoked s r))
      s.rows
