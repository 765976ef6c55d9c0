-- ===== src/Cache/Status.antt =====
-- `handle_update_compose_db_status` (api/ceramic_cache/api/v1.py): the loop that takes updates off the
-- payload gives each row the first update with its key.
use passport_scorer.Common.{
  ltb, ◌==◌, if◌then◌else◌, length, any, find, Text, ℕ, ◌≡◌, refl, Bool, false, Option, List, [],
  ◌∷◌, arith,
}
use passport_scorer.Cache.{
  Row, Store, StatusUpdate, take_update, apply_update, awaits_update, update_ids, update_statuses,
  handle_update_compose_db_status,
}

abbrev pub first_update : ℕ → List StatusUpdate → Option StatusUpdate
first_update pk = find (λ u. pk == u.id)

-- The primary key is unique.
abbrev pub DistinctKeys : List Row → Type 0
DistinctKeys [] = Unit
DistinctKeys (r ∷ rs) = (any (λ q. q.pk == r.pk) rs ≡ false) × DistinctKeys rs

-- Each row as the payload says, read as a whole.
abbrev pub with_updates : ℕ → (Row → Bool) → List StatusUpdate → List Row → List Row
with_updates now sel us [] = []
with_updates now sel us (r ∷ rs) =
    (if sel r then apply_update now (first_update r.pk us) r else r) ∷ with_updates now sel us rs

take_update-first : (pk : ℕ) (us : List StatusUpdate) → (take_update pk us).0 ≡ first_update pk us
unfolding take_update
take_update-first pk [] = refl
take_update-first pk (u ∷ us) = ground (arith, take_update-first pk us)

take_update-rest :
    (pk k : ℕ) (us : List StatusUpdate)
    → (k == pk) ≡ false
    → first_update k (take_update pk us).1 ≡ first_update k us
unfolding take_update
take_update-rest pk k [] h = refl
take_update-rest pk k (u ∷ us) h = ground (arith, take_update-rest pk k us h)

with_updates-rest :
    (now : ℕ) (sel : Row → Bool) (pk : ℕ) (us : List StatusUpdate) (rs : List Row)
    → any (λ q. q.pk == pk) rs ≡ false
    → with_updates now sel (take_update pk us).1 rs ≡ with_updates now sel us rs
with_updates-rest now sel pk us [] h = refl
with_updates-rest now sel pk us (r ∷ rs) h =
    ground (arith, take_update-rest pk r.pk us, with_updates-rest now sel pk us rs)

update_statuses_lem :
    (now : ℕ) (sel : Row → Bool) (us : List StatusUpdate) (rs : List Row)
    → DistinctKeys rs
    → update_statuses now sel us rs ≡ with_updates now sel us rs
unfolding update_statuses
update_statuses_lem now sel us [] d = refl
update_statuses_lem now sel us (r ∷ rs) d = ground (
  arith,
  take_update-first r.pk us,
  update_statuses_lem now sel us rs d.1,
  update_statuses_lem now sel (take_update r.pk us).1 rs d.1,
  with_updates-rest now sel r.pk us rs d.0,
)

-- Within the limit, the caller's live V1 rows that are pending and named by the payload get the
-- first update for their key, though the code takes the updates off the payload as it goes; all
-- other rows, the keys and the revocations stay. Beyond the limit nothing changes.
pub update_compose_db_status_lem :
    (limit now : ℕ) (address : Text) (payload : List StatusUpdate) (s : Store)
    → DistinctKeys s.rows
    → (handle_update_compose_db_status limit now address payload s).1 ≡ (
        if ltb limit (length payload) then s else record s {
          rows = with_updates now (awaits_update address (update_ids payload)) payload s.rows;
        })
unfolding handle_update_compose_db_status
update_compose_db_status_lem limit now address payload s d =
    rw (update_statuses_lem now (awaits_update address (update_ids payload)) payload s.rows d)
      (ground arith)
