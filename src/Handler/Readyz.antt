-- ===== src/Handler/Readyz.antt =====
-- internal/handler/readyz_handler.go. The body is what is handed to c.JSON.
pub mod Laws
use cargohold.Failure.{GoError}
use cargohold.Prelude.{Bool, List, Option, [], none, some, ℕ, ◌∷◌}
use cargohold.Prelude.Text.{Text, codes}
use cargohold.Usecase.Readiness.{HealthCheckResult, HealthChecker, execute_details}

-- one entry of convertResultsToMap
pub record Detail : Type 0 where
  pub name : Text
  pub healthy : Bool
  pub error : Option Text

pub record ReadyzBody : Type 0 where
  pub status : Text
  pub details : List Detail

abbrev pub status_ok : ℕ
status_ok = 200

abbrev pub status_service_unavailable : ℕ
status_service_unavailable = 503

-- the text of an error that is not nil
abbrev pub text_of : (GoError → Text) → Option GoError → Option Text
text_of error_text none = none
text_of error_text (some e) = some (error_text e)

module _ (error_text : GoError → Text) where
  unfoldable pub detail_of : HealthCheckResult → Detail
  detail_of r = record { name = r.name; healthy = r.healthy; error = text_of error_text r.error }

  unfoldable pub convert_results_to_map : List HealthCheckResult → List Detail
  unfolding detail_of
  convert_results_to_map [] = []
  convert_results_to_map (r ∷ results) = detail_of r ∷ convert_results_to_map results

  readyz_answer : List HealthCheckResult × Option GoError → ℕ × ReadyzBody
  unfolding convert_results_to_map
  readyz_answer (results, some e) = (
    status_service_unavailable,
    record { status = codes "not ready"; details = convert_results_to_map results },
  )
  readyz_answer (results, none) =
      (status_ok, record { status = codes "ready"; details = convert_results_to_map results })

  unfoldable pub handle_readyz : {W : Type 0} → List (HealthChecker W) → W → (ℕ × ReadyzBody) × W
  unfolding execute_details readyz_answer
  handle_readyz checkers w =
      let (report, w') = execute_details error_text checkers w in (readyz_answer report, w')
