-- ===== src/Common/Texts.antt =====
-- Python's `str` as the list of its code points. `lower` and the tests on characters are those
-- of ASCII text, which addresses, hashes and provider names are.
use Prim.Native.Nat.{ℕ, zero, suc, ◌+◌, ◌-◌, ◌*◌, ◌/◌, ◌%◌, ◌<◌}
use Prim.Native.Char.{code}
use Prim.Native.String.{String}
use mathlib.Core.Path.{◌≡◌, refl, sym, ap₂}
use mathlib.Core.Logic.{◌↔◌}
use mathlib.Core.Bool.{Bool, true, false, ◌&&◌, ◌||◌}
use mathlib.Core.Option.{Option, none, some}
use mathlib.Core.List.{List, [], ◌∷◌, ◌++◌, append-nil, append_assoc}
use native.Mathlib.Omega.{arith}
use passport_scorer.Common.Tests.{◌==◌, ==_iff, leb, ltb, if◌then◌else◌}

abbrev pub Text : Type 0
Text = List ℕ

abbrev pub codes : String → Text
codes String.[] = []
codes (String.◌∷◌ c s) = code c ∷ codes s

-- `s == t`
unfoldable pub text_eq : Text → Text → Bool
text_eq [] [] = true
text_eq [] (b ∷ t) = false
text_eq (a ∷ s) [] = false
text_eq (a ∷ s) (b ∷ t) = a == b && text_eq s t

eq_of_text_eq : (s t : Text) → text_eq s t ≡ true → s ≡ t
unfolding text_eq
eq_of_text_eq [] [] h = refl
eq_of_text_eq [] (b ∷ t) h = cc
eq_of_text_eq (a ∷ s) [] h = cc
eq_of_text_eq (a ∷ s) (b ∷ t) h = ap₂ ◌∷◌ (ground arith) (eq_of_text_eq s t (ground arith))

pub text_eq_refl : (s : Text) → text_eq s s ≡ true
unfolding text_eq
text_eq_refl [] = refl
text_eq_refl (a ∷ s) = ground (arith, text_eq_refl s)

pub text_eq_iff : (s t : Text) → (text_eq s t ≡ true) ↔ (s ≡ t)
text_eq_iff s t = (eq_of_text_eq s t, λ e. rw e (text_eq_refl t))

-- `t in ts`
abbrev pub text_in : Text → List Text → Bool
text_in t [] = false
text_in t (x ∷ xs) = text_eq t x || text_in t xs

pub text_in-snoc :
    (y x : Text) (seen : List Text) → text_in y (seen ++ x ∷ []) ≡ (text_eq y x || text_in y seen)
text_in-snoc y x [] = refl
text_in-snoc y x (z ∷ seen) = ground (arith, text_in-snoc y x seen)

lower_char : ℕ → ℕ
lower_char c = if leb b'A' c && leb c b'Z' then c + 32 else c

lower_char_idem : (c : ℕ) → lower_char (lower_char c) ≡ lower_char c
unfolding lower_char
lower_char_idem c = ground arith

-- `s.lower()`
unfoldable pub lower : Text → Text
unfolding lower_char
lower [] = []
lower (c ∷ s) = lower_char c ∷ lower s

pub lower-lower : (s : Text) → lower (lower s) ≡ lower s
unfolding lower
lower-lower [] = refl
lower-lower (c ∷ s) = ap₂ ◌∷◌ (unfold lower_char in lower_char_idem c) (lower-lower s)

-- `s.startswith(p)`, as `starts_with p s`
unfoldable pub starts_with : Text → Text → Bool
starts_with [] s = true
starts_with (c ∷ p) [] = false
starts_with (c ∷ p) (d ∷ s) = c == d && starts_with p s

after_last_from : ℕ → Text → Text → Text
after_last_from sep acc [] = acc
after_last_from sep acc (c ∷ s) = after_last_from sep (if c == sep then [] else acc ++ c ∷ []) s

-- `s.split(sep)[-1]`, for a separator of one character
unfoldable pub after_last : ℕ → Text → Text
unfolding after_last_from
after_last sep s = after_last_from sep [] s

-- `c in s`, for a single character
abbrev pub char_in : ℕ → Text → Bool
char_in c [] = false
char_in c (d ∷ s) = c == d || char_in c s

after_last_from-none :
    (sep : ℕ) (acc s : Text) → char_in sep s ≡ false → after_last_from sep acc s ≡ acc ++ s
unfolding after_last_from
after_last_from-none sep acc [] h = sym (append-nil acc)
after_last_from-none sep acc (c ∷ s) h =
    ground (arith, after_last_from-none sep (acc ++ c ∷ []) s, append_assoc acc (c ∷ []) s)

-- What stands behind a separator and has none.
pub after_last-behind :
    (sep : ℕ) (p s : Text) → char_in sep s ≡ false → after_last sep (p ++ sep ∷ s) ≡ s
unfolding after_last
after_last-behind sep p s h = from_last [] p
  where
    from_last : (acc p : Text) → after_last_from sep acc (p ++ sep ∷ s) ≡ s
    from_last acc [] =
        unfold after_last_from in ground (arith, ==_iff sep sep, after_last_from-none sep [] s h)
    from_last acc (c ∷ p) =
        unfold after_last_from in from_last (if c == sep then [] else acc ++ c ∷ []) p

-- Small letters are no other characters than the capital ones were.
pub char_in-lower :
    (c : ℕ) (s : Text) → c < b'A' → char_in c s ≡ false → char_in c (lower s) ≡ false
unfolding lower lower_char
char_in-lower c [] small h = refl
char_in-lower c (d ∷ s) small h = ground (arith, char_in-lower c s small)

-- `bool(s)`
abbrev pub truthy : Text → Bool
truthy [] = false
truthy (c ∷ s) = true

-- The decimal digits of a number before a text; a number has at most as many digits as it is great.
digits : ℕ → ℕ → Text → Text
digits zero n s = s
digits (suc fuel) n s =
    let more = digits fuel (n / 10) ((b'0' + n % 10) ∷ s) in
    if ltb n 10 then (b'0' + n) ∷ s else more

-- `str(n)`
unfoldable pub str : ℕ → Text
unfolding digits
str n = digits (suc n) n []

-- What digits read on from a number denote.
int_from : ℕ → Text → Option ℕ
int_from n [] = some n
int_from n (c ∷ s) =
    let rest = int_from (n * 10 + (c - b'0')) s in if leb b'0' c && leb c b'9' then rest else none

-- `int(s)` of a text without signs, spaces and underscores, and none if it raises
unfoldable pub int_of : Text → Option ℕ
unfolding int_from
int_of [] = none
int_of (c ∷ s) = int_from 0 (c ∷ s)
