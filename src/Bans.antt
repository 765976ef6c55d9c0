-- ===== src/Bans.antt =====
-- Bans and revocations (api/ceramic_cache/models.py, class `Ban`, and
-- api/internal/bans_revocations.py).
pub mod Lookup
pub mod Revoke
mod Tests
use passport_scorer.Common.{
  ltb, leb, if◌then◌else◌, is_some, length, filter, any, Text, text_eq, text_in, lower, after_last,
  truthy, ok_or, ◌>>=◌, ◌>>◌, raise_if, Result, err, ok, ℕ, Bool, true, false, not, ◌&&◌, ◌||◌,
  Option, none, some, List, [], ◌∷◌, ◌++◌, map,
}
use passport_scorer.Cache.{Row, Revocation, Store, is_live, is_revoked, has_address}

-- The text of `Ban.type`; any other text is `other`.
pub data BanType : Type 0 where
  account : BanType
  hash : BanType
  single_stamp : BanType
  other : Text → BanType

pub record Ban : Type 0 where
  pub type : BanType
  pub provider : Text
  pub hash : Text
  pub address : Text
  pub end_time : Option ℕ
  pub reason : Option Text
  pub last_run_revoke_matching : Option ℕ

pub data Failure : Type 0 where
  validation_error : Failure
  invalid_ban_query : Failure
  attribute_error : Failure
  too_many_stamps : Failure
  internal_server_error : Failure

abbrev pub is_active : ℕ → Ban → Bool
is_active now b = elim b.end_time [ none ↦ true | some t ↦ ltb now t ]

-- `Ban.get_bans`; `iexact` compares without case.
unfoldable pub get_bans : ℕ → Text → List Text → List Ban → List Ban
unfolding lower
get_bans now address hashes =
    filter
      (λ b. is_active now b && (text_in b.hash hashes || text_eq (lower b.address) (lower address)))

-- `text == optional`
abbrev pub equals_some : Text → Option Text → Bool
equals_some t none = false
equals_some t (some u) = text_eq t u

abbrev is_account : BanType → Bool
is_account account = true
is_account _ = false

abbrev is_hash : BanType → Bool
is_hash hash = true
is_hash _ = false

abbrev is_single_stamp : BanType → Bool
is_single_stamp single_stamp = true
is_single_stamp _ = false

abbrev pub Verdict : Type 0
Verdict = Bool × Option BanType × Option Ban

-- `Ban.check_bans_for`
unfoldable pub check_bans_for : List Ban → Text → Option Text → Option Text → Verdict
unfolding lower
check_bans_for [] address stamp_hash provider = (false, none, none)
check_bans_for (b ∷ bs) address stamp_hash provider =
    if is_account b.type && text_eq (lower b.address) (lower address) && not (truthy b.provider)
    then (true, some account, some b)
    else if is_hash b.type && equals_some b.hash stamp_hash
    then (true, some hash, some b)
    else if is_single_stamp b.type
        && text_eq (lower b.address) (lower address)
        && equals_some b.provider provider
    then (true, some single_stamp, some b)
    else check_bans_for bs address stamp_hash provider

-- `Ban.clean`: the fields that go with each type.
unfoldable pub clean : Ban → Result Failure (Unit {0})
clean b = elim b.type [
  | account ↦
      raise_if (not (truthy b.address && not (truthy b.hash) && not (truthy b.provider)))
        validation_error
  | hash ↦
      raise_if (not (truthy b.hash && not (truthy b.address) && not (truthy b.provider)))
        validation_error
  | single_stamp ↦
      raise_if (not (truthy b.address && truthy b.provider && not (truthy b.hash))) validation_error
  | other t ↦ err validation_error
]

-- `BAN_TYPE_CHOICES`, in which "hash" is commented out.
abbrev is_choice : BanType → Bool
is_choice t = is_account t || is_single_stamp t

-- The validators of the fields: the choices of the type, and the lengths.
abbrev pub has_valid_fields : Ban → Bool
has_valid_fields b =
    is_choice b.type
    && leb (length b.provider) 256
    && leb (length b.hash) 100
    && leb (length b.address) 42

-- `full_clean`
unfoldable pub full_clean : Ban → Result Failure (Unit {0})
unfolding clean
full_clean b = do raise_if (not (has_valid_fields b)) validation_error; clean b

-- `Ban.save`: validates, and lowers the address as it is written.
unfoldable pub save : Ban → List Ban → Result Failure (List Ban)
unfolding full_clean lower
save b bans = do full_clean b; ok (bans ++ record b { address = lower b.address } ∷ [])

-- The filters of `revoke_matching_credentials`.
unfoldable pub matches_ban : Ban → Store → Row → Bool
unfolding lower
matches_ban b s r =
    (not (truthy b.provider) || text_eq r.provider b.provider)
    && (not (truthy b.address) || has_address b.address r)
    && (not (truthy b.hash) || equals_some b.hash r.stamp.hash)
    && is_live r
    && not (is_revoked s r)

abbrev revocations_of : List Row → List Revocation
revocations_of [] = []
revocations_of (r ∷ rs) =
    record { proof_value = r.proof_value; cache_pk = r.pk } ∷ revocations_of rs

-- `revoke_matching_credentials`; the ban is saved last, so an invalid ban has revoked when it raises.
unfoldable pub revoke_matching_credentials : ℕ → Ban → Store → Result Failure Ban × Store
unfolding matches_ban full_clean
revoke_matching_credentials now b s =
    let s' = record s {
      revocations = s.revocations ++ revocations_of (filter (matches_ban b s) s.rows);
    } in
    ((do full_clean b; ok (record b { last_run_revoke_matching = some now })), s')

-- `internal.schema.Credential`
pub record Credential : Type 0 where
  pub id : Option Text
  pub hash : Option Text
  pub provider : Option Text

-- `CheckBanResult`
pub record CheckBanResult : Type 0 where
  pub hash : Text
  pub is_banned : Bool
  pub ban_type : Option BanType
  pub end_time : Option ℕ
  pub reason : Option Text

abbrev all_same : Option Text → List Credential → Bool
all_same id [] = true
all_same none (c ∷ cs) = not (is_some c.id) && all_same none cs
all_same (some i) (c ∷ cs) = equals_some i c.id && all_same (some i) cs

-- The one id of the payload, by `set`.
unfoldable pub unique_id : List Credential → Result Failure Text
unique_id [] = err invalid_ban_query
unique_id (c ∷ cs) = if all_same c.id cs then ok_or c.id attribute_error else err invalid_ban_query

-- `[c.hash for c in payload if c.hash]`
unfoldable pub payload_hashes : List Credential → List Text
payload_hashes [] = []
payload_hashes (c ∷ cs) = elim c.hash [
  | none ↦ payload_hashes cs
  | some h ↦ if truthy h then h ∷ payload_hashes cs else payload_hashes cs
]

-- The result for a credential; one without a hash does not validate.
unfoldable pub ban_result : Credential → Verdict → Result Failure CheckBanResult
ban_result c (banned, type, ban) = do
  stamp_hash ← ok_or c.hash internal_server_error
  ok (record {
    hash = stamp_hash;
    is_banned = banned;
    ban_type = type;
    end_time = elim ban [ none ↦ none | some b ↦ b.end_time ];
    reason = elim ban [ none ↦ none | some b ↦ b.reason ];
  })

-- The list of the results, by the verdict on each credential.
unfoldable pub ban_results :
    (Credential → Verdict) → List Credential → Result Failure (List CheckBanResult)
unfolding ban_result
ban_results verdict [] = ok []
ban_results verdict (c ∷ cs) = do
  r ← ban_result c (verdict c)
  rs ← ban_results verdict cs
  ok (r ∷ rs)

-- `handle_check_bans`
unfoldable pub handle_check_bans :
    ℕ → List Ban → List Credential → Result Failure (List CheckBanResult)
unfolding unique_id payload_hashes get_bans check_bans_for ban_results after_last
handle_check_bans now bans payload = do
  id ← unique_id payload
  let address = after_last b':' id
  let relevant = get_bans now address (payload_hashes payload) bans
  ban_results (λ c. check_bans_for relevant address c.hash c.provider) payload

-- `handle_check_revocations`: each proof value with its status.
unfoldable pub handle_check_revocations :
    ℕ → List Revocation → List Text → Result Failure (List (Text × Bool))
handle_check_revocations limit revocations proof_values =
    if ltb limit (length proof_values)
    then err too_many_stamps
    else let revoked = filter (λ v. text_in v.proof_value proof_values) revocations in
      ok (map (λ p. (p, any (λ v. text_eq p v.proof_value) revoked)) proof_values)
