-- ===== src/Nonces/Once.antt =====
-- A nonce is accepted once (`Nonce` in api/account/models.py).
use passport_scorer.Common.{
  ◌==◌, if◌then◌else◌, Bool-cases, length, filter, any, Text, text_eq, text_eq_iff, lower,
  Result-cases, err, ok, ℕ, ◌+◌, ◌≤◌, ◌≡◌, refl, ap, inl, inr, Bool, true, false, not, ◌&&◌, Option,
  List, [], ◌∷◌, ◌++◌, arith,
}
use passport_scorer.Nonces.{
  get_one, Nonce, is_nonce, is_usable, create_nonce, validate_nonce, save_used, use_nonce,
}

-- The operations on nonces, with their times.
pub data Call : Type 0 where
  create : ℕ → Text → Option ℕ → Call
  use_ : ℕ → Text → Call

-- Whether a call is an accepted use of the nonce, and the table after it.
unfoldable pub serve : Text → Call → List Nonce → Bool × List Nonce
unfolding create_nonce use_nonce
serve n (create now token ttl) table = elim (create_nonce now token ttl table) [
  | ok table' ↦ (false, table')
  | err e ↦ (false, table)
]
serve n (use_ now m) table =
    ((use_nonce now m table).0 && text_eq (lower m) (lower n), (use_nonce now m table).1)

-- How many uses of the nonce are accepted.
unfoldable pub accepted : Text → List Call → List Nonce → ℕ
unfolding serve
accepted n [] table = 0
accepted n (c ∷ cs) table =
    (if (serve n c table).0 then 1 else 0) + accepted n cs (serve n c table).1

abbrev pub rows_of : Text → List Nonce → ℕ
rows_of n table = length (filter (is_nonce n) table)

abbrev unused : Text → List Nonce → ℕ
unused n table = length (filter (λ r. is_nonce n r && not r.was_used) table)

unused-le : (n : Text) (table : List Nonce) → unused n table ≤ rows_of n table
unused-le n [] = omega arith
unused-le n (r ∷ table) = ground (arith, unused-le n table)

save_used-rows_of :
    (now : ℕ) (m n : Text) (table : List Nonce)
    → rows_of n (save_used now m table) ≡ rows_of n table
unfolding save_used
save_used-rows_of now m n [] = refl
save_used-rows_of now m n (r ∷ table) = ground (arith, save_used-rows_of now m n table)

save_used-unused :
    (now : ℕ) (m n : Text) (table : List Nonce)
    → unused n (save_used now m table)
        + (if text_eq (lower m) (lower n) then length (filter (is_usable now m) table) else 0)
      ≡ unused n table
unfolding save_used
save_used-unused now m n [] = ground arith
save_used-unused now m n (r ∷ table) = ground (
  arith,
  text_eq_iff r.nonce (lower m),
  text_eq_iff r.nonce (lower n),
  text_eq_iff (lower m) (lower n),
  save_used-unused now m n table,
)

-- How often the nonce may yet be accepted.
left : Text → List Nonce → ℕ
left n table = if rows_of n table == 0 then 1 else unused n table

rows_of-snoc :
    (n : Text) (table : List Nonce) (r : Nonce)
    → rows_of n (table ++ r ∷ []) ≡ rows_of n table + (if is_nonce n r then 1 else 0)
rows_of-snoc n [] r = ground arith
rows_of-snoc n (x ∷ table) r = ground (arith, rows_of-snoc n table r)

unused-snoc :
    (n : Text) (table : List Nonce) (r : Nonce)
    → unused n (table ++ r ∷ [])
      ≡ unused n table + (if is_nonce n r && not r.was_used then 1 else 0)
unused-snoc n [] r = ground arith
unused-snoc n (x ∷ table) r = ground (arith, unused-snoc n table r)

any-rows_of : (n : Text) (table : List Nonce) → any (is_nonce n) table ≡ not (rows_of n table == 0)
any-rows_of n [] = refl
any-rows_of n (r ∷ table) = ground (arith, any-rows_of n table)

rows_of_same :
    (m n : Text) (table : List Nonce)
    → text_eq (lower m) (lower n) ≡ true
    → rows_of m table ≡ rows_of n table
rows_of_same m n table h =
    ap (λ t. length (filter (λ (r : Nonce). text_eq r.nonce t) table))
      ((text_eq_iff (lower m) (lower n)).0 h)

get_one-length : (rs : List Nonce) {r : Nonce} → get_one rs ≡ ok r → length rs ≡ 1
get_one-length [] h = cc
get_one-length (x ∷ []) h = refl
get_one-length (x ∷ y ∷ rs) h = cc

-- A call takes from what is left, and no call makes a second row of a nonce.
abbrev Spends : Text → List Nonce → Bool × List Nonce → Type 0
Spends n table (b, table') =
    ((if b then 1 else 0) + left n table' ≤ left n table) × (rows_of n table' ≤ 1)

idle-Spends : (n : Text) (table : List Nonce) → rows_of n table ≤ 1 → Spends n table (false, table)
idle-Spends n table h = (omega arith, h)

create-Spends :
    (n token : Text) (e : Option ℕ) (table : List Nonce)
    → any (is_nonce token) table ≡ false
    → rows_of n table ≤ 1
    → Spends n table
        (false, table ++ record { nonce = lower token; expires_on = e; was_used = false } ∷ [])
unfolding left
create-Spends n token e table new h =
    let r : Nonce = record { nonce = lower token; expires_on = e; was_used = false } in
    ground (
      arith,
      rows_of-snoc n table r,
      unused-snoc n table r,
      unused-le n table,
      any-rows_of token table,
      rows_of_same token n table,
    )

use-Spends :
    (n m : Text) (now : ℕ) (table : List Nonce) {r : Nonce}
    → validate_nonce now m table ≡ ok r
    → rows_of n table ≤ 1
    → Spends n table (text_eq (lower m) (lower n), save_used now m table)
unfolding validate_nonce left
use-Spends n m now table valid h =
    let one_row = get_one-length (filter (is_usable now m) table) valid in
    ground (
      arith,
      one_row,
      save_used-rows_of now m n table,
      save_used-unused now m n table,
      unused-le n table,
    )

serve-Spends :
    (n : Text) (c : Call) (table : List Nonce)
    → rows_of n table ≤ 1
    → Spends n table (serve n c table)
unfolding serve create_nonce use_nonce
serve-Spends n (create now token ttl) table h = elim (Bool-cases (any (is_nonce token) table)) [
  | inl e ↦ rw (e, serve, create_nonce) (idle-Spends n table h)
  | inr e ↦ rw (e, serve, create_nonce) (create-Spends n token _ table e h)
]
serve-Spends n (use_ now m) table h = elim (Result-cases (validate_nonce now m table)) [
  | inl (e, p) ↦ rw (p, serve, use_nonce) (idle-Spends n table h)
  | inr (r, p) ↦ rw (p, serve, use_nonce) (use-Spends n m now table p h)
]

accepted-le :
    (n : Text) (cs : List Call) (table : List Nonce)
    → rows_of n table ≤ 1
    → accepted n cs table ≤ left n table
unfolding accepted
accepted-le n [] table h = omega arith
accepted-le n (c ∷ cs) table h =
    let (spends, one_row) = serve-Spends n c table h in
    omega (arith, spends, accepted-le n cs (serve n c table).1 one_row)

-- The nonce has a row that is used.
abbrev pub is_spent : Text → List Nonce → Bool
is_spent n = any (λ r. is_nonce n r && r.was_used)

is_spent-unused :
    (n : Text) (table : List Nonce)
    → (if is_spent n table then 1 else 0) + unused n table ≤ rows_of n table
is_spent-unused n [] = omega arith
is_spent-unused n (r ∷ table) = ground (arith, is_spent-unused n table, unused-le n table)

left-le :
    (n : Text) (table : List Nonce)
    → rows_of n table ≤ 1
    → left n table ≤ (if is_spent n table then 0 else 1)
unfolding left
left-le n table h = ground (arith, unused-le n table, is_spent-unused n table)

-- Over any sequence of creations and uses of nonces, at any times, at most one use of a nonce is
-- accepted, and none if its row is there and is used already; the table has at most one row of the
-- nonce before.
pub accepted_once :
    (n : Text) (cs : List Call) (table : List Nonce)
    → rows_of n table ≤ 1
    → accepted n cs table ≤ (if is_spent n table then 0 else 1)
accepted_once n cs table h = omega (arith, accepted-le n cs table h, left-le n table h)
