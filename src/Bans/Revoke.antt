-- ===== src/Bans/Revoke.antt =====
-- What `Ban.revoke_matching_credentials` revokes (api/ceramic_cache/models.py).
use passport_scorer.Common.{
  ◌==◌, if◌then◌else◌, Bool-cases, filter, any, All, any-append, All-map, text_eq, truthy, err, ok,
  ℕ, ◌≡◌, refl, inl, inr, Bool, false, not, ◌&&◌, ◌||◌, some, List, [], ◌∷◌, arith,
}
use passport_scorer.Cache.{Row, Revocation, Store, is_live, is_revoked, has_address}
use passport_scorer.Cache.Status.{DistinctKeys}
use passport_scorer.Bans.{
  Ban, equals_some, clean, has_valid_fields, full_clean, matches_ban, revoke_matching_credentials,
  revocations_of, account, hash, single_stamp, other, validation_error,
}

-- What a valid ban of each type is meant to revoke.
unfoldable pub targets : Ban → Row → Bool
targets b r = elim b.type [
  | account ↦ has_address b.address r
  | hash ↦ equals_some b.hash r.stamp.hash
  | single_stamp ↦ has_address b.address r && text_eq r.provider b.provider
  | other t ↦ false
]

matches_ban-targets :
    (b : Ban) (s : Store) (r : Row)
    → clean b ≡ ok tt
    → matches_ban b s r ≡ (targets b r && is_live r && not (is_revoked s r))
unfolding clean matches_ban targets
matches_ban-targets b s r c = ground arith

abbrev names : ℕ → List Revocation → Bool
names pk = any (λ v. v.cache_pk == pk)

names-revocations_of :
    (pk : ℕ) (rs : List Row) → names pk (revocations_of rs) ≡ any (λ r. r.pk == pk) rs
names-revocations_of pk [] = refl
names-revocations_of pk (r ∷ rs) = ground (arith, names-revocations_of pk rs)

any-filter :
    (m : Row → Bool) (pk : ℕ) (rs : List Row)
    → any (λ q. q.pk == pk) rs ≡ false
    → any (λ q. q.pk == pk) (filter m rs) ≡ false
any-filter m pk [] h = refl
any-filter m pk (r ∷ rs) h = ground (arith, any-filter m pk rs)

-- A key stands in a selection exactly if its row is selected.
abbrev Selects : (Row → Bool) → List Row → Row → Type 0
Selects m rs r = any (λ q. q.pk == r.pk) (filter m rs) ≡ m r

Selects-cons :
    (m : Row → Bool) (r : Row) (rs qs : List Row)
    → any (λ q. q.pk == r.pk) qs ≡ false
    → All (Selects m rs) qs
    → All (Selects m (r ∷ rs)) qs
Selects-cons m r rs [] h a = tt
Selects-cons m r rs (q ∷ qs) h a = ground (arith, Selects-cons m r rs qs)

Selects-keys : (m : Row → Bool) (rs : List Row) → DistinctKeys rs → All (Selects m rs) rs
Selects-keys m [] d = tt
Selects-keys m (r ∷ rs) d =
    (ground (arith, any-filter m r.pk rs d.0), Selects-cons m r rs rs d.0 (Selects-keys m rs d.1))

revoke_matching_credentials-matches :
    (now : ℕ) (b : Ban) (s : Store)
    → DistinctKeys s.rows
    → All
        (λ r.
          is_revoked (revoke_matching_credentials now b s).1 r
          ≡ (is_revoked s r || matches_ban b s r))
        s.rows
unfolding revoke_matching_credentials
revoke_matching_credentials-matches now b s d =
    All-map
      (λ (r : Row) (sel : Selects (matches_ban b s) s.rows r). ground (
        arith,
        sel,
        any-append (λ v. v.cache_pk == r.pk) s.revocations
            (revocations_of (filter (matches_ban b s) s.rows)),
        names-revocations_of r.pk (filter (matches_ban b s) s.rows),
      ))
      s.rows (Selects-keys (matches_ban b s) s.rows d)

-- A row is revoked afterwards if it was before, or is live and what the ban targets.
abbrev pub IsRevokedBy : Ban → Store → Store → Row → Type 0
IsRevokedBy b s s' r = is_revoked s' r ≡ (is_revoked s r || targets b r && is_live r)

-- A ban whose fields go with its type revokes exactly the live rows that it targets, and no
-- revocation is lost: an account ban all stamps of its address, a single-stamp ban those of its
-- provider as well, a hash ban those with its hash. The ban is then saved with the time of the run,
-- which raises if it is a hash ban, whose type is no choice, or has a field that is too long.
pub revoke_matching_credentials-IsRevokedBy :
    (now : ℕ) (b : Ban) (s : Store)
    → DistinctKeys s.rows
    → clean b ≡ ok tt
    → All (IsRevokedBy b s (revoke_matching_credentials now b s).1) s.rows
      × ((revoke_matching_credentials now b s).0 ≡ (
          if has_valid_fields b
          then ok (record b { last_run_revoke_matching = some now })
          else err validation_error))
unfolding revoke_matching_credentials full_clean
revoke_matching_credentials-IsRevokedBy now b s d c = (
  All-map {Q = IsRevokedBy b s (revoke_matching_credentials now b s).1}
      (λ (r : Row) e. ground (arith, e, matches_ban-targets b s r c)) s.rows
      (revoke_matching_credentials-matches now b s d),
  elim (Bool-cases (has_valid_fields b)) [ inl fine ↦ rw (fine, c) refl | inr bad ↦ rw bad refl ],
)

-- A ban with no provider, address and hash has no filter: it is invalid, but it has revoked every
-- live row by the time that saving it raises.
pub revoke_matching_credentials_blank :
    (now : ℕ) (b : Ban) (s : Store)
    → DistinctKeys s.rows
    → (truthy b.provider || truthy b.address || truthy b.hash) ≡ false
    → ((revoke_matching_credentials now b s).0 ≡ err validation_error)
      × All
          (λ r.
            is_revoked (revoke_matching_credentials now b s).1 r ≡ (is_revoked s r || is_live r))
          s.rows
unfolding revoke_matching_credentials full_clean clean
revoke_matching_credentials_blank now b s d blank = (
  ground arith,
  All-map
      {Q = λ r.
        is_revoked (revoke_matching_credentials now b s).1 r ≡ (is_revoked s r || is_live r)}
      (λ (r : Row) e. ground (arith, e)) s.rows (revoke_matching_credentials-matches now b s d),
)
