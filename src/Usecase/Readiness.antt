-- ===== src/Usecase/Readiness.antt =====
-- internal/usecase/readiness_usecase.go and health_checker.go. `error_text` is what an error prints.
pub mod Laws
use cargohold.Exec.{Exec, Result, err, is_ok, ok}
use cargohold.Failure.{GoError, health_check_failed, sentinel, wrapped}
use cargohold.Prelude.{Bool, List, Option, [], none, some, ◌++◌, ◌∷◌}
use cargohold.Prelude.Text.{Text, codes}

-- usecase.HealthChecker
pub record HealthChecker (W : Type 0) : Type 0 where
  pub name : Text
  pub check : Exec W (Unit {0})

pub record HealthCheckResult : Type 0 where
  pub name : Text
  pub healthy : Bool
  pub error : Option GoError

abbrev pub error_of : Result (Unit {0}) → Option GoError
error_of (ok u) = none
error_of (err e) = some e

pub result_of : Text → Result (Unit {0}) → HealthCheckResult
result_of name r = record { name = name; healthy = is_ok r; error = error_of r }

-- the text of a failed check, after those before it
pub add_failure : (GoError → Text) → Text → Result (Unit {0}) → List Text → List Text
add_failure error_text name (ok u) failed = failed
add_failure error_text name (err e) failed = failed ++ ((name ++ (codes ": " ++ error_text e)) ∷ [])

-- if len(failedCheckers) > 0
pub verdict : List Text → Option GoError
verdict [] = none
verdict (f ∷ failed) = some (wrapped "%w: %s" (sentinel health_check_failed))

module _ {W : Type 0} (error_text : GoError → Text) where
  -- the loop, with what it has gathered
  check_all :
      List (HealthChecker W)
      → List HealthCheckResult
      → List Text
      → W
      → (List HealthCheckResult × Option GoError) × W
  unfolding result_of add_failure verdict
  check_all [] results failed w = ((results, verdict failed), w)
  check_all (checker ∷ checkers) results failed w =
      let (r, w') = checker.check w in
      check_all checkers (results ++ (result_of checker.name r ∷ []))
        (add_failure error_text checker.name r failed) w'

  -- The results come back beside the error.
  unfoldable pub execute_details :
      List (HealthChecker W) → W → (List HealthCheckResult × Option GoError) × W
  unfolding check_all
  execute_details checkers w = check_all checkers [] [] w

  -- ReadinessUseCase.Execute
  unfoldable pub execute : List (HealthChecker W) → W → Option GoError × W
  unfolding execute_details
  execute checkers w = let (answer, w') = execute_details checkers w in (answer.1, w')
