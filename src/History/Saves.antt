-- ===== src/History/Saves.antt =====
-- Sequences of saves of scores (`score_updated` in api/registry/models.py).
use passport_scorer.Common.{
  leb, ◌==◌, if◌then◌else◌, Bool-cases, Option-cases, All, Text, text_eq, lower, ℕ, ◌≤◌, ◌≡◌, refl,
  sym, ap, ◌∙◌, subst, inl, inr, Bool, true, false, ◌&&◌, Option, none, some, List, [], ◌∷◌, arith,
}
use passport_scorer.Submission.{Score}
use passport_scorer.History.{Event, is_done, score_updated}

-- A score that is saved, with the time and the passport.
pub record Save : Type 0 where
  pub time : ℕ
  pub address : Text
  pub community : ℕ
  pub score : Score

-- The events of a sequence of saves.
unfoldable pub log_all : List Save → List Event → List Event
unfolding score_updated
log_all [] events = events
log_all (s ∷ saves) events =
    log_all saves (score_updated (λ _. true) s.time s.address s.community s.score events)

-- The save has the passport, is done and not later than the time.
abbrev pub is_relevant : ℕ → Text → ℕ → Save → Bool
is_relevant community address time s =
    is_done s.score
    && s.community == community
    && text_eq (lower s.address) (lower address)
    && leb s.time time

abbrev pub or_else : Option Save → Option Save → Option Save
or_else (some s) o = some s
or_else none o = o

abbrev pub last_save : (Save → Bool) → List Save → Option Save
last_save p [] = none
last_save p (s ∷ saves) = or_else (last_save p saves) (if p s then some s else none)

-- The times do not go back.
abbrev pub IsInOrder : List Save → Type 0
IsInOrder [] = Unit
IsInOrder (s ∷ saves) = All (λ t. s.time ≤ t.time) saves × IsInOrder saves

pub last_save-take :
    (p : Save → Bool) (s : Save) (saves : List Save)
    → last_save p saves ≡ none
    → last_save p (s ∷ saves) ≡ (if p s then some s else none)
last_save-take p s saves n = ap (λ o. or_else o (if p s then some s else none)) n

pub last_save-later :
    (p : Save → Bool) (s : Save) (saves : List Save) {w : Save}
    → last_save p saves ≡ some w
    → last_save p (s ∷ saves) ≡ some w
last_save-later p s saves k = ap (λ o. or_else o (if p s then some s else none)) k

or_else-none : (o : Option Save) → or_else o none ≡ o
or_else-none none = refl
or_else-none (some s) = refl

pub last_save-skip :
    (p : Save → Bool) (s : Save) (saves : List Save)
    → p s ≡ false
    → last_save p (s ∷ saves) ≡ last_save p saves
last_save-skip p s saves f =
    ap (λ b. or_else (last_save p saves) (if b then some s else none)) f
    ∙ or_else-none (last_save p saves)

pub last_save-after :
    (p : Save → Bool) (time : ℕ) (saves : List Save) {later : Save}
    → All (λ s. time ≤ s.time) saves
    → last_save p saves ≡ some later
    → time ≤ later.time
last_save-after p time [] h e = absurd (cc e)
last_save-after p time (s ∷ saves) {later} h e = elim (Option-cases (last_save p saves)) [
  | inl n ↦
      let own : (if p s then some s else none) ≡ some later =
        sym (last_save-take p s saves n) ∙ e in
      ground (arith, h.0, own)
  | inr (w, k) ↦
      let same : some w ≡ some later = sym (last_save-later p s saves k) ∙ e in
      last_save-after p time saves h.1 (k ∙ same)
]

pub last_save-holds :
    (Q : Save → Type 0) (p : Save → Bool) (saves : List Save) {s : Save}
    → All Q saves
    → last_save p saves ≡ some s
    → Q s × (p s ≡ true)
last_save-holds Q p [] h e = absurd (cc e)
last_save-holds Q p (x ∷ saves) {s} h e = elim (Option-cases (last_save p saves)) [
  | inr (w, k) ↦
      let same : some w ≡ some s = sym (last_save-later p x saves k) ∙ e in
      last_save-holds Q p saves h.1 (k ∙ same)
  | inl n ↦
      let own : (if p x then some x else none) ≡ some s = sym (last_save-take p x saves n) ∙ e in
      elim (Bool-cases (p x)) [
        | inr f ↦ absurd (ground (arith, own, f))
        | inl f ↦
            let same : x ≡ s = ground (arith, own, f) in
            (subst Q same h.0, subst (λ y. p y ≡ true) same f)
      ]
]
