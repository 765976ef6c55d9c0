-- ===== src/HumanPoints/Record.antt =====
-- The rows that `arecord_stamp_actions` writes (api/registry/human_points_utils.py).
use passport_scorer.Common.{
  if◌then◌else◌, Bool-cases, Option-cases, is_some, get_or, filter, any, filter-append, any-append,
  Text, text_eq, text_eq_refl, text_eq_iff, lower, truthy, ◌≡◌, refl, ◌∙◌, inl, inr, Bool, true,
  false, not, ◌&&◌, ◌||◌, List, [], ◌∷◌, ◌++◌, append-nil, arith,
}
use passport_scorer.HumanPoints.{
  action_code, Points, same_points, insert_ignore, has_action, latest_nullifier, human_key_points,
  provider_points, stamp_points, arecord_stamp_actions, human_keys,
}
use passport_scorer.Passport.{PassportStamp}

-- The test that `human_key_points` makes before it adds a row.
abbrev pub holds_key : Text → Text → Points → Bool
holds_key address provider p = has_action address human_keys p && text_eq p.provider provider

-- Whether a stamp has a nullifier for the human key of a provider.
abbrev pub gives_key : Text → PassportStamp → Bool
gives_key provider s =
    is_some (latest_nullifier (get_or s.credential.subject.nullifiers []))
    && text_eq (get_or s.credential.subject.provider []) provider

module _ (address provider : Text) where
  abbrev has_holder : List Points → Bool
  has_holder = any (holds_key address provider)

  holds_key-same_points :
      (p x : Points)
      → same_points p x ≡ true
      → holds_key address provider p ≡ true
      → holds_key address provider x ≡ true
  holds_key-same_points p x same h = ground (
    arith,
    text_eq_iff p.address x.address,
    text_eq_iff p.action x.action,
    text_eq_iff p.provider x.provider,
    same,
    h,
  )

  any-same_points :
      (p : Points) (table : List Points)
      → any (same_points p) table ≡ true
      → holds_key address provider p ≡ true
      → has_holder table ≡ true
  any-same_points p [] e h = cc
  any-same_points p (x ∷ table) e h =
      ground (arith, holds_key-same_points p x, any-same_points p table, e, h)

  has_holder-insert_ignore :
      (ps table : List Points)
      → has_holder (insert_ignore ps table) ≡ (has_holder table || has_holder ps)
  unfolding insert_ignore
  has_holder-insert_ignore [] table = ground arith
  has_holder-insert_ignore (p ∷ ps) table = elim (Bool-cases (any (same_points p) table)) [
    | inl known ↦ elim (Bool-cases (holds_key address provider p)) [
      | inl h ↦
          let before = any-same_points p table known h in
          rw (known, has_holder-insert_ignore ps table, before) refl
      | inr h ↦ rw (known, has_holder-insert_ignore ps table, h) refl
    ]
    | inr new ↦ rw new (
        has_holder-insert_ignore ps (table ++ p ∷ [])
        ∙ ground (arith, any-append (holds_key address provider) table (p ∷ [])))
  ]

  keys-insert_ignore :
      (ps table : List Points)
      → has_holder ps ≡ false
      → filter (holds_key address provider) (insert_ignore ps table)
        ≡ filter (holds_key address provider) table
  unfolding insert_ignore
  keys-insert_ignore [] table h = refl
  keys-insert_ignore (p ∷ ps) table h = ground (
    arith,
    keys-insert_ignore ps table,
    keys-insert_ignore ps (table ++ p ∷ []),
    filter-append (holds_key address provider) table (p ∷ []),
    append-nil (filter (holds_key address provider) table),
    h,
  )

  holds_key-human_key_points :
      (table : List Points) (s : PassportStamp)
      → truthy provider ≡ true
      → has_holder (human_key_points address table s)
        ≡ (gives_key provider s && not (has_holder table))
  unfolding human_key_points
  holds_key-human_key_points table s filled =
      let own = get_or s.credential.subject.provider [] in
      elim (Option-cases (latest_nullifier (get_or s.credential.subject.nullifiers []))) [
        | inl none1 ↦ rw (none1, human_key_points) refl
        | inr (n, e) ↦ elim (Bool-cases (text_eq own provider)) [
          | inl same ↦
              let p : own ≡ provider = (text_eq_iff own provider).0 same in
              rw (e, human_key_points, p, filled)
                (ground (
                  arith,
                  text_eq_refl (lower address),
                  text_eq_refl (action_code human_keys),
                  text_eq_refl provider,
                ))
          | inr other ↦ rw (e, human_key_points, other) (ground (arith, other))
        ]
      ]

  holds_key-provider_points :
      (s : PassportStamp) → truthy provider ≡ true → has_holder (provider_points address s) ≡ false
  unfolding provider_points
  holds_key-provider_points s filled = ground (arith, filled, text_eq_iff [] provider)

  holds_key-stamp_points :
      (table : List Points) (stamps : List PassportStamp)
      → truthy provider ≡ true
      → has_holder (stamp_points address table stamps)
        ≡ (any (gives_key provider) stamps && not (has_holder table))
  unfolding stamp_points
  holds_key-stamp_points table [] filled = refl
  holds_key-stamp_points table (s ∷ ss) filled =
      let key = human_key_points address table s in
      let points = provider_points address s in
      let rest = stamp_points address table ss in
      ground (
        arith,
        any-append (holds_key address provider) key (points ++ rest),
        any-append (holds_key address provider) points rest,
        holds_key-human_key_points table s filled,
        holds_key-provider_points s filled,
        holds_key-stamp_points table ss filled,
      )

-- After recording, the address has a row of a provider's human key just if it had one before or a
-- stamp of the provider has a nullifier. If it had one, its rows of the provider's human key stay
-- what they were, whatever nullifiers the stamps have now: a nullifier that has changed counts for
-- nothing.
pub arecord_stamp_actions-keeps_keys :
    (address provider : Text) (stamps : List PassportStamp) (table : List Points)
    → truthy provider ≡ true
    → let after = arecord_stamp_actions address stamps table in
      let holds = holds_key address provider in
      (any holds after ≡ (any holds table || any (gives_key provider) stamps))
      × (if any holds table then filter holds after ≡ filter holds table else Unit)
unfolding arecord_stamp_actions
arecord_stamp_actions-keeps_keys address provider stamps table filled =
    let points = stamp_points address table stamps in
    let recorded = holds_key-stamp_points address provider table stamps filled in
    (
      has_holder-insert_ignore address provider points table ∙ rw recorded (ground arith),
      elim (Bool-cases (any (holds_key address provider) table)) [
        | inr new ↦ rw new tt
        | inl known ↦
            let nothing : any (holds_key address provider) points ≡ false =
              recorded ∙ rw known (ground arith) in
            rw known (keys-insert_ignore address provider points table nothing)
      ],
    )
