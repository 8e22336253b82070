-- ===== src/Handler/Readyz/Laws.antt =====
-- The answer of the readiness endpoint.
use cargohold.Exec.{Result, is_ok}
use cargohold.Failure.{GoError}
use cargohold.Handler.Readyz.{
  Detail, convert_results_to_map, detail_of, handle_readyz, readyz_answer, status_ok,
  status_service_unavailable, text_of,
}
use cargohold.Prelude.{
  Bool, List, Option, [], all, ap, false, if◌then◌else◌, map, none, refl, some, true, ◌↔◌, ◌∙◌, ◌∷◌,
  ◌≡◌,
}
use cargohold.Prelude.Text.{Text}
use cargohold.Usecase.Readiness.{HealthCheckResult, HealthChecker, error_of, execute_details}
use cargohold.Usecase.Readiness.Laws.{answers, execute_details-IsReport, passed, result_for}

module _ (error_text : GoError → Text) where
  -- One entry for a check, with the text of its error.
  abbrev pub detail_for : Text × Result (Unit {0}) → Detail
  detail_for (name, r) = record {
    name = name;
    healthy = is_ok r;
    error = text_of error_text (error_of r);
  }

  convert-results :
      (l : List (Text × Result (Unit {0})))
      → convert_results_to_map error_text (map result_for l) ≡ map detail_for l
  unfolding convert_results_to_map detail_of
  convert-results [] = refl
  convert-results ((name, r) ∷ l) =
      ap (λ (d : List Detail). detail_for (name, r) ∷ d) (convert-results l)

  readyz_answer-status :
      (b : Bool) (report : List HealthCheckResult × Option GoError)
      → ((report.1 ≡ none) ↔ (b ≡ true))
      → (readyz_answer error_text report).0 ≡ (if b then status_ok else status_service_unavailable)
  unfolding readyz_answer
  readyz_answer-status true (results, none) h = refl
  readyz_answer-status false (results, none) h = cc (h.0 refl)
  readyz_answer-status true (results, some e) h = cc (h.1 refl)
  readyz_answer-status false (results, some e) h = refl

  readyz_answer-details :
      (report : List HealthCheckResult × Option GoError)
      → (readyz_answer error_text report).1.details ≡ convert_results_to_map error_text report.0
  unfolding readyz_answer
  readyz_answer-details (results, none) = refl
  readyz_answer-details (results, some e) = refl

  -- Whatever the checkers answer: the endpoint says 200 exactly if all of them passed, and 503
  -- otherwise, and lists each checker with its outcome, in order.
  pub handle_readyz-answers :
      {W : Type 0} (cs : List (HealthChecker W)) (w : W)
      → ((handle_readyz error_text cs w).0.0
          ≡ (if all passed (answers cs w) then status_ok else status_service_unavailable))
        × ((handle_readyz error_text cs w).0.1.details ≡ map detail_for (answers cs w))
  unfolding handle_readyz
  handle_readyz-answers cs w =
      let report = execute_details-IsReport error_text cs w in
      (
        readyz_answer-status (all passed (answers cs w)) (execute_details error_text cs w).0
            report.ready_iff,
        readyz_answer-details (execute_details error_text cs w).0
            ∙ (ap (convert_results_to_map error_text) report.each ∙ convert-results (answers cs w)),
      )
