-- ===== src/Analysis/Scored.antt =====
-- Which scores an analysis gives (`handle_get_analysis` of api/passport/api.py).
use passport_scorer.Common.{
  ltb, ◌==◌, if◌then◌else◌, Bool-cases, Option-cases, get_or, length, filter, all, All, head?, Text,
  text_eq, text_eq_iff, text_in, Dict, has_key, insert, keys, keys-append, ok_or-ok, ok_inj,
  Result-cases, ◌>>◌, raise_if, raise_if-ok, Result, err, ok, ◌≡◌, refl, sym, ap, ◌∙◌, subst, inl,
  inr, Bool, true, not, ◌&&◌, ◌||◌, Option, none, some, List, [], ◌∷◌, ◌++◌, arith,
}
use passport_scorer.Analysis.{
  Response, Payload, Settings, Failure, ModelScore, score_of, details_of, requested_models, Asked,
  then_ask, get_model_responses, all_ok, get_aggregate_model_response, with_aggregate, scores_of,
  answer_of, checked_models, analyse, handle_get_analysis, invalid_address, bad_model_name,
  analysis_error,
}
use passport_scorer.Analysis.Responses.{
  then_ask-ok, text_in-append, text_in-keys-insert, IsAnswered, get_model_responses-answers,
}

module _ (settings : Settings) (post : Text → Payload → Option Response) where
  -- What follows the aggregate's response.
  abbrev after : List (Text × Response) → Response → Asked (List (Text × Response))
  after responses r =
      if r.status == 200
      then (ok (responses ++ (settings.aggregate_model, r) ∷ []), [])
      else (err analysis_error, [])

  with_aggregate-names :
      (address : Text) (models : List Text) (responses : List (Text × Response))
      {given : List (Text × Response)}
      → (with_aggregate settings post address models responses).0 ≡ ok given
      → (all_ok settings post responses ≡ true)
        × ((t : Text)
            → text_in t (keys given) ≡ (
                text_in t (keys responses)
                || text_in settings.aggregate_model models && text_eq t settings.aggregate_model))
  unfolding with_aggregate
  with_aggregate-names address models responses {given} h =
      let call = with_aggregate settings post address models responses in
      let agg = settings.aggregate_model in
      elim (Bool-cases (all_ok settings post responses)) [
        | inr bad ↦
            let k : call.0 ≡ err analysis_error = rw (bad, with_aggregate) refl in
            absurd (cc (h, k))
        | inl fine ↦ elim (Bool-cases (text_in agg models)) [
          | inr absent ↦
              let k : call.0 ≡ ok responses = rw (fine, with_aggregate, absent) refl in
              let same : responses ≡ given = ok_inj (sym k ∙ h) in
              (fine, λ t. ground (arith, absent, ap (λ x. text_in t (keys x)) same))
          | inl there ↦
              let k : call.0
                  ≡ (then_ask (get_aggregate_model_response settings post address responses)
                      (after responses)).0 =
                rw (fine, with_aggregate, there) refl in
              let (r, asked, next) =
                then_ask-ok (get_aggregate_model_response settings post address responses)
                  (after responses) (sym k ∙ h) in
              elim (Bool-cases (r.status == 200)) [
                | inr bad ↦
                    let l : (after responses r).0 ≡ err analysis_error = rw bad refl in
                    absurd (cc (next, l))
                | inl good ↦
                    let l : (after responses r).0 ≡ ok (responses ++ (agg, r) ∷ []) =
                      rw good refl in
                    let same = ok_inj (sym l ∙ next) in
                    (
                      fine,
                      λ t.
                          ap (λ x. text_in t (keys x)) (sym same)
                          ∙ ap (text_in t) (keys-append responses ((agg, r) ∷ []))
                          ∙ text_in-append t (keys responses) (agg ∷ [])
                          ∙ ground (arith, there),
                    )
              ]
        ]
      ]

  scores_of-keys :
      (detailed : Bool) (rs : List (Text × Response)) (d : Dict ModelScore) {s : Dict ModelScore}
      → scores_of settings post detailed rs d ≡ some s
      → (t : Text) → text_in t (keys s) ≡ (text_in t (keys rs) || text_in t (keys d))
  unfolding scores_of
  scores_of-keys detailed [] d {s} h t = ap (λ o. text_in t (keys (get_or o d))) (sym h)
  scores_of-keys detailed ((m, r) ∷ rs) d {s} h t = elim (Option-cases r.body) [
    | inl none1 ↦
        let k : scores_of settings post detailed ((m, r) ∷ rs) d ≡ none =
          rw (none1, scores_of) refl in
        absurd (cc (h, k))
    | inr (b, e) ↦
        let v : ModelScore = if detailed then details_of b else score_of b in
        let k : scores_of settings post detailed ((m, r) ∷ rs) d
            ≡ scores_of settings post detailed rs (insert m v d) =
          rw (e, scores_of) refl in
        ground (
          arith,
          scores_of-keys detailed rs (insert m v d) (sym k ∙ h) t,
          text_in-keys-insert t m v d,
        )
  ]

  -- Without the aggregate, and with it if it is there, the names are the same.
  others-and-aggregate :
      (t : Text) (models : List Text)
      → (text_in t (filter (λ m. not (text_eq m settings.aggregate_model)) models)
          || text_in settings.aggregate_model models && text_eq t settings.aggregate_model)
        ≡ text_in t models
  others-and-aggregate t [] = ground arith
  others-and-aggregate t (m ∷ ms) = ground (
    arith,
    text_eq_iff m settings.aggregate_model,
    text_eq_iff settings.aggregate_model m,
    text_eq_iff t settings.aggregate_model,
    text_eq_iff t m,
    others-and-aggregate t ms,
  )

  analyse-scores :
      (detailed : Bool) (address : Text) (models : List Text) {scores : Dict ModelScore}
      → (analyse settings post detailed address models).0 ≡ ok scores
      → All
          (IsAnswered settings post address)
          (filter (λ m. not (text_eq m settings.aggregate_model)) models)
        × ((t : Text) → text_in t (keys scores) ≡ text_in t models)
  unfolding analyse
  analyse-scores detailed address models {scores} h =
      let others = filter (λ m. not (text_eq m settings.aggregate_model)) models in
      let first = get_model_responses settings post others address in
      let (all_given, h1, h2) =
        then_ask-ok (then_ask first (with_aggregate settings post address models))
          (answer_of settings post detailed) h in
      let (responses, h3, h4) =
        then_ask-ok first (with_aggregate settings post address models) h1 in
      let (names, answers) = get_model_responses-answers settings post address others h3 in
      let (fine, given) = with_aggregate-names address models responses h4 in
      let found = ok_or-ok analysis_error (scores_of settings post detailed all_given []) h2 in
      (
        answers fine,
        λ t. ground (
          arith,
          scores_of-keys detailed all_given [] found t,
          given t,
          ap (text_in t) names,
          others-and-aggregate t models,
        ),
      )

  checked_models-ok :
      (is_valid_address : Text → Bool) (address : Text) (given : Option Text)
      (only_one : Option Bool) {models : List Text}
      → checked_models settings post is_valid_address address given only_one ≡ ok models
      → (is_valid_address address ≡ true) × (requested_models settings given ≡ models)
  unfolding checked_models
  checked_models-ok is_valid_address address given only_one {models} h =
      let names = requested_models settings given in
      let many = get_or only_one settings.only_one_model && ltb 1 (length names) in
      let empty = text_eq (get_or (head? names) []) [] in
      let unknown = not (all (λ m. has_key m settings.endpoints) names) in
      let known : Result Failure (List Text) = raise_if unknown bad_model_name >> ok names in
      let named : Result Failure (List Text) = raise_if empty bad_model_name >> known in
      let single : Result Failure (List Text) = raise_if many bad_model_name >> named in
      let (valid, h1) = raise_if-ok (not (is_valid_address address)) invalid_address single h in
      let (few, h2) = raise_if-ok many bad_model_name named h1 in
      let (some_name, h3) = raise_if-ok empty bad_model_name known h2 in
      let (all_known, h4) = raise_if-ok unknown bad_model_name (ok names) h3 in
      (ground (arith, valid), ok_inj h4)

  -- An analysis that succeeds is of a valid address, and has a score for just the models that are
  -- in the list, or in the default one if none is given. The endpoint of each of them but the
  -- aggregate answered a request for the address with its checksum with the status 200.
  pub handle_get_analysis-IsAnswered :
      (is_valid_address : Text → Bool) (to_checksum_address : Text → Text) (address : Text)
      (given : Option Text) (only_one : Option Bool) (detailed : Bool) {scores : Dict ModelScore}
      → (handle_get_analysis settings post is_valid_address to_checksum_address address given
          only_one detailed).0
        ≡ ok scores
      → (is_valid_address address ≡ true)
        × All (IsAnswered settings post (to_checksum_address address)) (
            filter
              (λ m. not (text_eq m settings.aggregate_model))
              (requested_models settings given))
        × ((t : Text) → text_in t (keys scores) ≡ text_in t (requested_models settings given))
  unfolding handle_get_analysis
  handle_get_analysis-IsAnswered is_valid_address to_checksum_address address given only_one
        detailed {scores} h =
      let call =
        handle_get_analysis settings post is_valid_address to_checksum_address address given
          only_one detailed in
      let checked = checked_models settings post is_valid_address address given only_one in
      elim (Result-cases checked) [
        | inl (e, refused) ↦
            let k : call.0 ≡ err e = rw (refused, handle_get_analysis) refl in absurd (cc (h, k))
        | inr (models, passed) ↦
            let k : call ≡ analyse settings post detailed (to_checksum_address address) models =
              rw (passed, handle_get_analysis) refl in
            let (valid, same) = checked_models-ok is_valid_address address given only_one passed in
            let result =
              analyse-scores detailed (to_checksum_address address) models
                (ap (λ x. x.0) (sym k) ∙ h) in
            let (answers, names) =
              subst
                (λ ms.
                  All (IsAnswered settings post (to_checksum_address address))
                    (filter (λ m. not (text_eq m settings.aggregate_model)) ms)
                  × ((t : Text) → text_in t (keys scores) ≡ text_in t ms))
                (sym same) result in
            (valid, answers, names)
      ]
