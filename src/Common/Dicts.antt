-- ===== src/Common/Dicts.antt =====
-- A Python dict keyed by texts, in insertion order: writing to a key that is there keeps its place.
use mathlib.Core.Path.{◌≡◌, refl, ap}
use mathlib.Core.Bool.{Bool, false}
use mathlib.Core.Option.{Option, none, some}
use mathlib.Core.List.{List, [], ◌∷◌, ◌++◌}
use native.Mathlib.Omega.{arith}
use passport_scorer.Common.Tests.{if◌then◌else◌, is_some}
use passport_scorer.Common.Texts.{Text, text_eq, text_eq_iff, text_in}

abbrev pub Dict {ℓ} : Type ℓ → Type ℓ
Dict V = List (Text × V)

module _ {ℓ} {V : Type ℓ} where
  -- `d.get(k)`
  abbrev pub lookup : Text → Dict V → Option V
  lookup k [] = none
  lookup k ((j, v) ∷ d) = if text_eq k j then some v else lookup k d

  -- `k in d`
  abbrev pub has_key : Text → Dict V → Bool
  has_key k d = is_some (lookup k d)

  -- `d[k] = v`
  abbrev pub insert : Text → V → Dict V → Dict V
  insert k v [] = (k, v) ∷ []
  insert k v (e ∷ d) = if text_eq k e.0 then (k, v) ∷ d else e ∷ insert k v d

  -- `d.update(other)`
  abbrev pub update : Dict V → Dict V → Dict V
  update d [] = d
  update d ((k, v) ∷ more) = update (insert k v d) more

  abbrev pub keys : Dict V → List Text
  keys [] = []
  keys ((k, v) ∷ d) = k ∷ keys d

  abbrev pub values : Dict V → List V
  values [] = []
  values ((k, v) ∷ d) = v ∷ values d

  pub lookup-insert :
      (j k : Text) (v : V) (d : Dict V)
      → lookup j (insert k v d) ≡ (if text_eq j k then some v else lookup j d)
  lookup-insert j k v [] = refl
  lookup-insert j k v (e ∷ d) =
      ground (arith, text_eq_iff j k, text_eq_iff k e.0, text_eq_iff j e.0, lookup-insert j k v d)

  -- A key that is not there is written behind the others.
  pub insert_absent :
      (k : Text) (v : V) (d : Dict V) → text_in k (keys d) ≡ false → insert k v d ≡ d ++ (k, v) ∷ []
  insert_absent k v [] h = refl
  insert_absent k v (e ∷ d) h = ground (arith, insert_absent k v d)

  pub keys-append : (d e : Dict V) → keys (d ++ e) ≡ keys d ++ keys e
  keys-append [] e = refl
  keys-append (x ∷ d) e = ap (◌∷◌ x.0) (keys-append d e)

  pub values-append : (d e : Dict V) → values (d ++ e) ≡ values d ++ values e
  values-append [] e = refl
  values-append (x ∷ d) e = ap (◌∷◌ x.1) (values-append d e)
