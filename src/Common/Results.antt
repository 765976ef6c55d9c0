-- ===== src/Common/Results.antt =====
-- What code that may raise gives: a value, or the exception. A chain of such steps is a `do` block.
use mathlib.Core.Path.{◌≡◌, refl, ap}
use mathlib.Core.Logic.{◌⊎◌, inl, inr}
use mathlib.Core.Option.{Option, none, some}
use mathlib.Core.Bool.{Bool, true, false}
use passport_scorer.Common.Tests.{if◌then◌else◌}

pub data Result {ℓ κ} (E : Type ℓ) (V : Type κ) : Type (ℓ ⊔ κ) where
  err : E → Result E V
  ok : V → Result E V

module _ {ℓ κ} {E : Type ℓ} {V : Type κ} where
  -- A value that may be missing, and the exception if it is.
  abbrev pub ok_or : Option V → E → Result E V
  ok_or (some v) e = ok v
  ok_or none e = err e

  pub ok_or-ok : (e : E) (o : Option V) {v : V} → ok_or o e ≡ ok v → o ≡ some v
  ok_or-ok e none h = cc
  ok_or-ok e (some w) h = cc

  pub ok_inj : {x y : V} → ◌≡◌ {A = Result E V} (ok x) (ok y) → x ≡ y
  ok_inj {x} e = ap (λ r. elim r [ ok v ↦ v | err f ↦ x ]) e

  pub Result-cases : (r : Result E V) → ((e : E) × (r ≡ err e)) ⊎ ((v : V) × (r ≡ ok v))
  Result-cases (err e) = inl (e, refl)
  Result-cases (ok v) = inr (v, refl)

  module _ {μ} {W : Type μ} where
    infixl 5 ◌>>=◌
    abbrev pub ◌>>=◌ : Result E V → (V → Result E W) → Result E W
    err e >>= next = err e
    ok v >>= next = next v

    -- Both steps of a chain that succeeds have succeeded.
    pub >>=-ok :
        (first : Result E V) (next : V → Result E W) {w : W}
        → (first >>= next) ≡ ok w
        → (v : V) × (first ≡ ok v) × (next v ≡ ok w)
    >>=-ok (err e) next done = cc
    >>=-ok (ok v) next done = (v, refl, done)

module _ {ℓ κ} {E : Type ℓ} {W : Type κ} where
  infixl 5 ◌>>◌
  abbrev pub ◌>>◌ : Result E (Unit {0}) → Result E W → Result E W
  first >> next = first >>= λ _. next

-- `if b: raise e`
abbrev pub raise_if {ℓ} : {E : Type ℓ} → Bool → E → Result E (Unit {0})
raise_if b e = if b then err e else ok tt

-- What follows a check that lets pass.
pub raise_if-ok {ℓ κ} :
    {E : Type ℓ} {W : Type κ} (b : Bool) (e : E) (next : Result E W) {w : W}
    → (raise_if b e >> next) ≡ ok w
    → (b ≡ false) × (next ≡ ok w)
raise_if-ok true e next h = cc
raise_if-ok false e next h = (refl, h)
