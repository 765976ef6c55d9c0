-- ===== src/Bans/Lookup.antt =====
-- The two steps of a ban check, the query and the test of each credential, against a reading of the
-- whole table of bans (api/ceramic_cache/models.py, api/internal/bans_revocations.py).
use passport_scorer.Common.{
  ltb, if◌then◌else◌, Bool-cases, Option-cases, is_some, get_or, length, filter, any, find, All,
  map_congr_All, All-map, Text, text_eq, text_eq_refl, text_eq_iff, text_in, lower, after_last,
  truthy, err, ok, ℕ, ◌≡◌, refl, ap, ◌∙◌, inl, inr, Bool, true, false, not, ◌&&◌, ◌||◌, Option,
  none, some, List, [], ◌∷◌, map, arith,
}
use passport_scorer.Cache.{Revocation}
use passport_scorer.Bans.{
  Ban, is_active, get_bans, equals_some, Verdict, check_bans_for, clean, Credential, CheckBanResult,
  unique_id, payload_hashes, ban_results, handle_check_bans, handle_check_revocations, account,
  hash, single_stamp, other, too_many_stamps, internal_server_error,
}

-- What a ban of each type bans.
unfoldable pub bans_stamp : Text → Option Text → Option Text → Ban → Bool
bans_stamp address stamp_hash provider b = elim b.type [
  | account ↦ text_eq (lower b.address) (lower address) && not (truthy b.provider)
  | hash ↦ equals_some b.hash stamp_hash
  | single_stamp ↦ text_eq (lower b.address) (lower address) && equals_some b.provider provider
  | other t ↦ false
]

-- The verdict that a ban gives.
abbrev pub verdict_of : Option Ban → Verdict
verdict_of none = (false, none, none)
verdict_of (some b) = (true, some b.type, some b)

check_bans_for-find :
    (bs : List Ban) (address : Text) (h p : Option Text)
    → check_bans_for bs address h p ≡ verdict_of (find (bans_stamp address h p) bs)
unfolding check_bans_for bans_stamp
check_bans_for-find [] address h p = refl
check_bans_for-find (b ∷ bs) address h p = ground (arith, check_bans_for-find bs address h p)

-- A ban that is valid and bans a stamp is found by the query, if the stamp's hash is asked for.
asked_for : Option Text → List Text → Bool
asked_for none hs = true
asked_for (some h) hs = not (truthy h) || text_in h hs

get_bans-finds :
    (address : Text) (h p : Option Text) (hs : List Text) (b : Ban)
    → clean b ≡ ok tt
    → asked_for h hs ≡ true
    → bans_stamp address h p b ≡ true
    → (text_in b.hash hs || text_eq (lower b.address) (lower address)) ≡ true
unfolding clean bans_stamp asked_for
get_bans-finds address none p hs b c a e = ground arith
get_bans-finds address (some h) p hs b c a e = ground (arith, text_eq_iff b.hash h)

find-get_bans :
    (now : ℕ) (address : Text) (h p : Option Text) (hs : List Text) (bs : List Ban)
    → All (λ b. clean b ≡ ok tt) bs
    → asked_for h hs ≡ true
    → find (bans_stamp address h p) (get_bans now address hs bs)
      ≡ find (λ b. is_active now b && bans_stamp address h p b) bs
unfolding get_bans
find-get_bans now address h p hs [] c a = refl
find-get_bans now address h p hs (b ∷ bs) c a =
    ground (arith, get_bans-finds address h p hs b c.0 a, find-get_bans now address h p hs bs c.1 a)

payload_hashes-asked :
    (cs : List Credential) → All (λ c. asked_for c.hash (payload_hashes cs) ≡ true) cs
unfolding payload_hashes asked_for
payload_hashes-asked cs = go cs (payload_hashes cs) (λ t h. h)
  where
    go :
        (ds : List Credential) (hs : List Text)
        → ((t : Text) → text_in t (payload_hashes ds) ≡ true → text_in t hs ≡ true)
        → All (λ c. asked_for c.hash hs ≡ true) ds
    go [] hs sub = tt
    go (d ∷ ds) hs sub = elim (Option-cases d.hash) [
      | inl no_hash ↦ (rw no_hash, go ds hs (λ t m. sub t (rw no_hash m)))
      | inr (h, e) ↦
          (rw e (ground (arith, text_eq_refl h, sub h)), go ds hs (λ t m. sub t (ground arith)))
    ]

-- The result with a verdict.
abbrev pub result_of : Credential → Verdict → CheckBanResult
result_of c (banned, type, ban) = record {
  hash = get_or c.hash [];
  is_banned = banned;
  ban_type = type;
  end_time = elim ban [ none ↦ none | some b ↦ b.end_time ];
  reason = elim ban [ none ↦ none | some b ↦ b.reason ];
}

abbrev pub lacks_hash : Credential → Bool
lacks_hash c = not (is_some c.hash)

ban_results-lacks_hash :
    (verdict : Credential → Verdict) (cs : List Credential)
    → ban_results verdict cs ≡ (
        if any lacks_hash cs
        then err internal_server_error
        else ok (map (λ c. result_of c (verdict c)) cs))
unfolding ban_results
ban_results-lacks_hash verdict [] = refl
ban_results-lacks_hash verdict (c ∷ cs) = elim (Option-cases c.hash) [
  | inl none1 ↦ rw (none1, ban_results) refl
  | inr (h, e) ↦ elim (Bool-cases (any lacks_hash cs)) [
    | inl b ↦ rw (e, ban_results, ban_results-lacks_hash verdict cs, b) refl
    | inr b ↦ rw (e, ban_results, ban_results-lacks_hash verdict cs, b) refl
  ]
]

-- What the table of bans says of a credential: the first active ban that bans it.
abbrev pub reading : ℕ → List Ban → Text → Credential → CheckBanResult
reading now bans address c =
    result_of c
      (verdict_of (find (λ b. is_active now b && bans_stamp address c.hash c.provider b) bans))

check_bans_for-reading :
    (now : ℕ) (bans : List Ban) (address : Text) (hs : List Text)
    → All (λ b. clean b ≡ ok tt) bans
    → (c : Credential) → asked_for c.hash hs ≡ true
    → result_of c (check_bans_for (get_bans now address hs bans) address c.hash c.provider)
      ≡ reading now bans address c
check_bans_for-reading now bans address hs valid c asked = rw (
  check_bans_for-find (get_bans now address hs bans) address c.hash c.provider,
  find-get_bans now address c.hash c.provider hs bans valid asked,
)

-- Where the fields of all bans go with their types and the credentials have one id: if a credential
-- has no hash, the answer is an internal server error. If all have one, the answer for each is what
-- the whole table says: the first ban that has not ended and that bans the address (without a
-- provider), the hash, or the address with the credential's provider. The query by address and
-- hashes loses no ban.
pub handle_check_bans-reading :
    (now : ℕ) (bans : List Ban) (payload : List Credential) {id : Text}
    → All (λ b. clean b ≡ ok tt) bans
    → unique_id payload ≡ ok id
    → handle_check_bans now bans payload ≡ (
        if any lacks_hash payload
        then err internal_server_error
        else ok (map (reading now bans (after_last b':' id)) payload))
unfolding handle_check_bans
handle_check_bans-reading now bans payload {id} valid same_id =
    let address = after_last b':' id in
    let hs = payload_hashes payload in
    let verdict : Credential → Verdict =
      λ c. check_bans_for (get_bans now address hs bans) address c.hash c.provider in
    rw same_id (
      ban_results-lacks_hash verdict payload
      ∙ ap (λ rs. if any lacks_hash payload then err internal_server_error else ok rs)
          (map_congr_All (λ c. result_of c (verdict c)) (reading now bans address) payload
            (All-map (check_bans_for-reading now bans address hs valid) payload
              (payload_hashes-asked payload))))

any-queried :
    (p : Text) (asked : List Text) (vs : List Revocation)
    → text_in p asked ≡ true
    → any (λ v. text_eq p v.proof_value) (filter (λ v. text_in v.proof_value asked) vs)
      ≡ any (λ v. text_eq p v.proof_value) vs
any-queried p asked [] h = refl
any-queried p asked (v ∷ vs) h =
    ground (arith, text_eq_iff p v.proof_value, any-queried p asked vs h)

each_asked : (ps : List Text) → All (λ p. text_in p ps ≡ true) ps
each_asked ps = go ps ps (λ t h. h)
  where
    go :
        (qs ps : List Text)
        → ((t : Text) → text_in t qs ≡ true → text_in t ps ≡ true)
        → All (λ p. text_in p ps ≡ true) qs
    go [] ps sub = tt
    go (q ∷ qs) ps sub =
        (sub q (ground (arith, text_eq_refl q)), go qs ps (λ t m. sub t (ground arith)))

-- Within the limit each proof value is answered with whether any revocation has it, in order and
-- with repetitions; beyond the limit the request is refused.
pub handle_check_revocations_lem :
    (limit : ℕ) (revocations : List Revocation) (ps : List Text)
    → handle_check_revocations limit revocations ps ≡ (
        if ltb limit (length ps)
        then err too_many_stamps
        else ok (map (λ p. (p, any (λ v. text_eq p v.proof_value) revocations)) ps))
unfolding handle_check_revocations
handle_check_revocations_lem limit revocations ps =
    ap (λ answers. if ltb limit (length ps) then err too_many_stamps else ok answers)
      (map_congr_All
        (λ p. (
          p,
          any (λ v. text_eq p v.proof_value) (filter (λ v. text_in v.proof_value ps) revocations),
        ))
        (λ p. (p, any (λ v. text_eq p v.proof_value) revocations)) ps
        (All-map (λ (p : Text) h. ap (λ b. (p, b)) (any-queried p ps revocations h)) ps
          (each_asked ps)))
