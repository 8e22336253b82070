-- ===== src/Usecase/Readiness/Laws.antt =====
-- A readiness report against the checks run one after the other.
use mathlib.Core.Path.{subst}
use cargohold.Exec.{Result, err, is_ok, ok}
use cargohold.Failure.{GoError, Sentinel, health_check_failed, is_error, sentinel, wrapped}
use cargohold.Failure.Laws.{is_error_self}
use cargohold.Prelude.{
  Bool, List, Option, String, [], all, append-nil, append_assoc, map, none, refl, some, some_inj,
  sym, true, ◌&&◌, ◌++◌, ◌↔◌, ◌∙◌, ◌∷◌, ◌≡◌, ◌≢◌,
}
use cargohold.Prelude.Text.{Text, codes}
use cargohold.Usecase.Readiness.{
  HealthCheckResult, HealthChecker, add_failure, check_all, error_of, execute_details, result_of,
  verdict,
}

module _ {W : Type 0} where
  -- What each checker answers, run in order.
  abbrev pub answers : List (HealthChecker W) → W → List (Text × Result (Unit {0}))
  answers [] w = []
  answers (c ∷ cs) w = let (r, w') = c.check w in (c.name, r) ∷ answers cs w'

abbrev pub result_for : Text × Result (Unit {0}) → HealthCheckResult
result_for (name, r) = record { name = name; healthy = is_ok r; error = error_of r }

abbrev pub passed : Text × Result (Unit {0}) → Bool
passed (name, r) = is_ok r

verdict-none_iff : (l : List Text) → (verdict l ≡ none) ↔ (l ≡ [])
unfolding verdict
verdict-none_iff [] = ((λ h. refl), λ h. refl)
verdict-none_iff (f ∷ l) = ((λ h. cc h), λ h. cc h)

append_some : {A : Type 0} (l : List A) (a : A) → l ++ (a ∷ []) ≢ []
append_some [] a h = cc h
append_some (x ∷ l) a h = cc h

wrapped_sentinel : (m : String) (s : Sentinel) → is_error (wrapped m (sentinel s)) s ≡ true
unfolding is_error
wrapped_sentinel m s = is_error_self s

verdict-health_check_failed :
    (l : List Text) (e : GoError) → verdict l ≡ some e → is_error e health_check_failed ≡ true
unfolding verdict
verdict-health_check_failed [] e h = cc h
verdict-health_check_failed (f ∷ l) e h =
    subst (λ x. is_error x health_check_failed ≡ true) (some_inj h)
      (wrapped_sentinel "%w: %s" health_check_failed)

module _ {W : Type 0} (error_text : GoError → Text) where
  check_all-results :
      (cs : List (HealthChecker W)) (results : List HealthCheckResult) (failed : List Text) (w : W)
      → (check_all error_text cs results failed w).0.0 ≡ results ++ map result_for (answers cs w)
  unfolding check_all result_of
  check_all-results [] results failed w = sym (append-nil results)
  check_all-results (c ∷ cs) results failed w =
      check_all-results cs (results ++ (result_for (c.name, (c.check w).0) ∷ []))
        (add_failure error_text c.name (c.check w).0 failed) (c.check w).1
      ∙ append_assoc results (result_for (c.name, (c.check w).0) ∷ []) _

  -- Once a check has failed, the rest does not mend it.
  check_all-verdict :
      (cs : List (HealthChecker W)) (results : List HealthCheckResult) (failed : List Text) (w : W)
      → ((check_all error_text cs results failed w).0.1 ≡ none)
        ↔ ((failed ≡ []) × (all passed (answers cs w) ≡ true))
  unfolding check_all all result_of add_failure
  check_all-verdict [] results failed w =
      ((λ h. ((verdict-none_iff failed).0 h, refl)), λ h. (verdict-none_iff failed).1 h.0)
  check_all-verdict (c ∷ cs) results failed w =
      go (c.check w).0 (λ rs l. check_all-verdict cs rs l (c.check w).1)
    where
      go :
          (r : Result (Unit {0}))
          → ((rs : List HealthCheckResult) (l : List Text)
              → ((check_all error_text cs rs l (c.check w).1).0.1 ≡ none)
                ↔ ((l ≡ []) × (all passed (answers cs (c.check w).1) ≡ true)))
          → ((check_all error_text cs
                (results ++ (result_of c.name r ∷ []))
                (add_failure error_text c.name r failed)
                (c.check w).1).0.1
              ≡ none)
            ↔ ((failed ≡ []) × ((is_ok r && all passed (answers cs (c.check w).1)) ≡ true))
      go (ok u) rest = rest (results ++ (result_of c.name (ok u) ∷ [])) failed
      go (err e) rest =
          let (stuck, _) =
            rest (results ++ (result_of c.name (err e) ∷ []))
              (failed ++ ((c.name ++ (codes ": " ++ error_text e)) ∷ [])) in
          ((λ h. absurd (append_some failed _ (stuck h).0)), λ h. cc h.1)

  check_all-error :
      (cs : List (HealthChecker W)) (results : List HealthCheckResult) (failed : List Text) (w : W)
      (e : GoError)
      → (check_all error_text cs results failed w).0.1 ≡ some e
      → is_error e health_check_failed ≡ true
  unfolding check_all
  check_all-error [] results failed w e h = verdict-health_check_failed failed e h
  check_all-error (c ∷ cs) results failed w e h =
      check_all-error cs (results ++ (result_of c.name (c.check w).0 ∷ []))
        (add_failure error_text c.name (c.check w).0 failed) (c.check w).1 e h

  pub record IsReport (cs : List (HealthChecker W)) (w : W)
      (r : List HealthCheckResult × Option GoError) : Type 0 where
    pub each : r.0 ≡ map result_for (answers cs w)
    pub ready_iff : (r.1 ≡ none) ↔ (all passed (answers cs w) ≡ true)
    pub failure : (e : GoError) → r.1 ≡ some e → is_error e health_check_failed ≡ true

  -- Whatever the checkers answer: `ExecuteDetails` runs each of them once and in order, gives one
  -- result for each, healthy exactly where there was no error, and returns an error exactly if some
  -- checker failed, which is ErrHealthCheckFailed.
  pub execute_details-IsReport :
      (cs : List (HealthChecker W)) (w : W) → IsReport cs w (execute_details error_text cs w).0
  unfolding execute_details
  execute_details-IsReport cs w =
      let verdict_iff = check_all-verdict cs [] [] w in
      record {
        each = check_all-results cs [] [] w;
        ready_iff = ((λ h. (verdict_iff.0 h).1), λ h. verdict_iff.1 (refl, h));
        failure = λ e h. check_all-error cs [] [] w e h;
      }
