-- ===== src/Reliability/Assess/Stale.antt =====
-- Operations in sequence after `record_assessment` recorded a required assessment.
use awoki.Base.{
  ◌≡◌, ◌≢◌, refl, true, String, Option, List, [], ◌∷◌, all, text_equality, Raises, ok, err, arith,
}
use awoki.Reliability.State.{RelationType, Run, RunError, RunStatus}
use awoki.Reliability.Budget.{Consumption, rejected, consumed}
use awoki.Reliability.Assess.Barred.{assess-IsBarred}
use awoki.Reliability.Events.{
  Assessing, id_of, keeps_required, Event, checks, claims, assesses, relates, consumes, finishes,
  saved, saved_budget, assess, perform, run_events,
}
use awoki.Reliability.Events.Barred.{
  IsBarred, Spares-IsBarred, record_check-Spares, record_claim-Spares, record_relation-Spares,
  consume-Spares, finish_run-IsBarred,
}

-- what holds of the run before and of every run that an operation writes holds after it
saved_lem :
    {V : Type 0} (P : Run V → Type 0) (r : Raises RunError (Run V)) (run : Run V)
    → P run
    → ((run' : Run V) → r ≡ ok run' → P run')
    → P (saved r run)
saved_lem P (ok run') run before after = after run' refl
saved_lem P (err e) run before after = before

saved_budget_lem :
    {V : Type 0} (P : Run V → Type 0) (r : Raises RunError (Consumption V)) (run : Run V)
    → P run
    → ((run' : Run V) → r ≡ ok (consumed run') → P run')
    → P (saved_budget r run)
saved_budget_lem P (ok (consumed run')) run before after = after run' refl
saved_budget_lem P (ok (rejected budget)) run before after = before
saved_budget_lem P (err e) run before after = before

module _ {V : Type 0} (legacy : String → RelationType → String → String) (canon : V → String)
    (resolve : List String → Option (List String)) where
  module _ (redact : String → String) where
    perform-IsBarred :
        (id : String) (event : Event V) (run : Run V)
        → keeps_required id event ≡ true
        → IsBarred id run
        → IsBarred id (perform legacy canon redact resolve event run)
    unfolding perform
    perform-IsBarred id (checks name status required) run kept barred =
        saved_lem (IsBarred id) _ run barred (λ run' h.
          Spares-IsBarred id run run' (record_check-Spares canon run run' name status required h)
            barred)
    perform-IsBarred id (claims raw) run kept barred =
        saved_lem (IsBarred id) _ run barred
          (λ run' h. Spares-IsBarred id run run' (record_claim-Spares canon run run' raw h) barred)
    perform-IsBarred id (assesses a) run kept barred =
        saved_lem (IsBarred id) (assess legacy canon redact resolve a run) run barred
          (λ run' h. (assess-IsBarred legacy canon resolve redact a run run' h).1 id kept barred)
    perform-IsBarred id (relates fresh_from fresh_to from type target rel) run kept barred =
        saved_lem (IsBarred id) _ run barred (λ run' h.
          Spares-IsBarred id run run'
            (record_relation-Spares canon run run' legacy fresh_from fresh_to from type target rel
              h)
            barred)
    perform-IsBarred id (consumes drawn action) run kept barred =
        saved_budget_lem (IsBarred id) _ run barred (λ run' h.
          Spares-IsBarred id run run' (consume-Spares canon redact drawn action run run' h) barred)
    perform-IsBarred id (finishes requested_status risks) run kept barred =
        saved_lem (IsBarred id) _ run barred
          (λ run' h. finish_run-IsBarred canon run run' id requested_status risks h barred)

    run_events-IsBarred :
        (id : String) (events : List (Event V)) (run : Run V)
        → all (keeps_required id) events ≡ true
        → IsBarred id run
        → IsBarred id (run_events legacy canon redact resolve events run)
    unfolding run_events
    run_events-IsBarred id [] run kept barred = barred
    run_events-IsBarred id (event ∷ events) run kept barred =
        run_events-IsBarred id events (perform legacy canon redact resolve event run) (ground arith)
          (perform-IsBarred id event run (ground arith) barred)

    -- After an assessment is recorded as required, no sequence of checks, claims, assessments,
    -- relations, budget consumptions and finishes leaves the run passed, as long as none of them
    -- records the assessment of the same identity again as one that is not required. A verification
    -- checkpoint is not among them.
    pub assessment_bars_passing :
        (a : Assessing) (run run' : Run V)
        → assess legacy canon redact resolve a run ≡ ok run'
        → a.required ≡ true
        → (events : List (Event V)) → all (keeps_required (id_of a)) events ≡ true
        → (run_events legacy canon redact resolve events run').status ≢ RunStatus.passed
    assessment_bars_passing a run run' h needed events kept =
        (run_events-IsBarred (id_of a) events run' kept
          ((assess-IsBarred legacy canon resolve redact a run run' h).0 needed)).open_still
