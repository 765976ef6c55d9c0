-- ===== src/Analysis/Responses.antt =====
-- What the endpoints of the models answer (api/passport/api.py).
use passport_scorer.Common.{
  ◌==◌, ==_iff, Option-cases, get_or, All, Text, text_eq, text_eq_iff, text_in, Dict, lookup,
  insert, keys, ok_inj, err, ok, ◌≡◌, refl, sym, ap, ◌∙◌, subst, inl, inr, true, false, ◌||◌,
  Option, none, some, List, [], ◌∷◌, ◌++◌, arith,
}
use passport_scorer.Analysis.{
  Response, Payload, Settings, ModelScore, Asked, then_ask, fetch, urls_of, fetch_all,
  get_model_responses, all_ok, analysis_error,
}

-- Both parts of a chain that succeeds have succeeded.
pub then_ask-ok :
    {V W : Type 0} (first : Asked V) (next : V → Asked W) {w : W}
    → (then_ask first next).0 ≡ ok w
    → (v : V) × (first.0 ≡ ok v) × ((next v).0 ≡ ok w)
then_ask-ok (err e, asked) next h = cc
then_ask-ok (ok v, asked) next h = (v, refl, h)

pub text_in-append :
    (t : Text) (xs ys : List Text) → text_in t (xs ++ ys) ≡ (text_in t xs || text_in t ys)
text_in-append t [] ys = refl
text_in-append t (x ∷ xs) ys = ground (arith, text_in-append t xs ys)

pub text_in-keys-insert :
    (t k : Text) (v : ModelScore) (d : Dict ModelScore)
    → text_in t (keys (insert k v d)) ≡ (text_eq t k || text_in t (keys d))
text_in-keys-insert t k v [] = refl
text_in-keys-insert t k v (e ∷ d) =
    ground
      (arith, text_eq_iff k e.0, text_eq_iff t k, text_eq_iff t e.0, text_in-keys-insert t k v d)

module _ (settings : Settings) (post : Text → Payload → Option Response) where
  -- The endpoint of a model answered with the status 200.
  abbrev pub IsAnswered : Text → Text → Type 0
  IsAnswered address m =
      (url : Text) × (r : Response) × (lookup m settings.endpoints ≡ some url)
      × (post url (record { address = address; scores = none }) ≡ some r)
      × (r.status ≡ 200)

  fetch-answers :
      (url : Text) (p : Payload)
      → ((fetch settings post url p).status == 200) ≡ true
      → (r : Response) × (post url p ≡ some r) × (r.status ≡ 200)
  unfolding fetch
  fetch-answers url p h = elim (Option-cases (post url p)) [
    | inl failed ↦
        let k : ((fetch settings post url p).status == 200) ≡ false = rw (failed, fetch) refl in
        absurd (cc (h, k))
    | inr (r, e) ↦
        let k : (fetch settings post url p) ≡ r = rw (e, fetch) refl in
        (r, e, (==_iff r.status 200).0 (ap (λ x. x.status == 200) (sym k) ∙ h))
  ]

  urls_of-cons :
      (m : Text) (ms : List Text) {urls : List Text}
      → urls_of settings post (m ∷ ms) ≡ some urls
      → (url : Text) × (us : List Text) × (lookup m settings.endpoints ≡ some url)
        × (urls_of settings post ms ≡ some us)
        × (url ∷ us ≡ urls)
  unfolding urls_of
  urls_of-cons m ms {urls} h = elim (Option-cases (lookup m settings.endpoints)) [
    | inl none1 ↦
        let k : urls_of settings post (m ∷ ms) ≡ none = rw (none1, urls_of) refl in
        absurd (cc (h, k))
    | inr (url, e) ↦ elim (Option-cases (urls_of settings post ms)) [
      | inl none2 ↦
          let k : urls_of settings post (m ∷ ms) ≡ none = rw (e, urls_of, none2) refl in
          absurd (cc (h, k))
      | inr (us, f) ↦
          let k : urls_of settings post (m ∷ ms) ≡ some (url ∷ us) = rw (e, urls_of, f) refl in
          (url, us, e, f, ap (λ o. get_or o urls) (sym k ∙ h))
    ]
  ]

  -- The responses have the models' names, and if all are fine, each was answered.
  fetch_all-answers :
      (address : Text) (models urls : List Text)
      → urls_of settings post models ≡ some urls
      → let responses =
          fetch_all settings post models urls (record { address = address; scores = none }) in
        (keys responses ≡ models)
        × (all_ok settings post responses ≡ true → All (IsAnswered address) models)
  unfolding fetch_all
  fetch_all-answers address [] urls h = (refl, λ x. tt)
  fetch_all-answers address (m ∷ ms) urls h =
      let (url, us, e, f, same) = urls_of-cons m ms h in
      let p : Payload = record { address = address; scores = none } in
      let (names, answers) = fetch_all-answers address ms us f in
      subst
        (λ u.
          (keys (fetch_all settings post (m ∷ ms) u p) ≡ m ∷ ms)
          × (all_ok settings post (fetch_all settings post (m ∷ ms) u p) ≡ true
              → All (IsAnswered address) (m ∷ ms)))
        same
        (
          ap (λ x. m ∷ x) names,
          λ fine.
              let (r, g, fine1) = fetch-answers url p (ground (arith, fine)) in
              ((url, r, e, g, fine1), answers (ground (arith, fine))),
        )

  pub get_model_responses-answers :
      (address : Text) (models : List Text) {responses : List (Text × Response)}
      → (get_model_responses settings post models address).0 ≡ ok responses
      → (keys responses ≡ models)
        × (all_ok settings post responses ≡ true → All (IsAnswered address) models)
  unfolding get_model_responses
  get_model_responses-answers address models {responses} h =
      elim (Option-cases (urls_of settings post models)) [
        | inl none1 ↦
            let k : (get_model_responses settings post models address).0 ≡ err analysis_error =
              rw (none1, get_model_responses) refl in
            absurd (cc (h, k))
        | inr (urls, e) ↦
            let p : Payload = record { address = address; scores = none } in
            let k : (get_model_responses settings post models address).0
                ≡ ok (fetch_all settings post models urls p) =
              rw (e, get_model_responses) refl in
            subst
              (λ rs.
                (keys rs ≡ models)
                × (all_ok settings post rs ≡ true → All (IsAnswered address) models))
              (ok_inj (sym k ∙ h)) (fetch_all-answers address models urls e)
      ]
