-- ===== src/Reliability/Finish/Passing.antt =====
-- When a run finishes as passed.
use mathlib.Core.Path.{subst}
use awoki.Base.Member.{In, In-filter, In-filter_of, filter-nil}
use awoki.Base.{
  ◌≡◌, ◌↔◌, sym, ap, ◌∙◌, Bool, true, false, String, none, some, List, filter, is_nonempty, strip,
  lower, arith, ok, bind-eq-ok, Option-cases, inl, inr,
}
use awoki.ClaimGraph.Gate.{Gate, GateStatus}
use awoki.Reliability.State.{RunStatus, Check, CheckStatus, Run}
use awoki.Reliability.Records.{claim_gate, write_all-same}
use awoki.Reliability.Finish.{
  final_status_of, is_failed_check, is_missing_check, required_checks, required_assessments,
  is_passing, final_status, finish, finish_run,
}

-- the gate's status lets a run pass
abbrev pub is_gate_open : GateStatus → Bool
is_gate_open GateStatus.passed = true
is_gate_open GateStatus.not_applicable = true
is_gate_open _ = false

-- What a run needs to pass, besides the caller's request.
pub record IsEarned {V : Type 0} (run : Run V) (judged : Gate V) : Type 0 where
  -- required assessments have a checkpoint that is current and passes
  pub assessed :
      is_nonempty (required_assessments run) ≡ true
      → (run.verification_stale ≡ false) × (is_passing run.latest_verification_checkpoint ≡ true)
  -- the structured claims pass, or there are none to judge
  pub gated : is_gate_open judged.status ≡ true
  -- every required check was observed to pass
  pub checked : (c : Check) → In c run.checks → c.required ≡ true → c.status ≡ CheckStatus.passed

module _ {V : Type 0} (run : Run V) where
  abbrev Conditions : RunStatus → GateStatus → Type 0
  Conditions requested g =
      (requested ≡ RunStatus.passed)
      × (is_nonempty (required_assessments run) ≡ true
          → (run.verification_stale ≡ false)
            × (is_passing run.latest_verification_checkpoint ≡ true))
      × (is_gate_open g ≡ true)
      × (is_nonempty (filter is_failed_check (required_checks run)) ≡ false)
      × (is_nonempty (filter is_missing_check (required_checks run)) ≡ false)

  final_status_sound :
      (requested : RunStatus) (g : GateStatus)
      → final_status requested run g ≡ RunStatus.passed
      → Conditions requested g
  unfolding final_status
  final_status_sound requested g h = ground arith

  final_status_complete :
      (requested : RunStatus) (g : GateStatus)
      → Conditions requested g
      → final_status requested run g ≡ RunStatus.passed
  unfolding final_status
  final_status_complete requested g h = ground (arith, h.1)

  passed_of_neither :
      (c : Check)
      → is_failed_check c ≡ false
      → is_missing_check c ≡ false
      → c.status ≡ CheckStatus.passed
  passed_of_neither c f m = ground arith

  neither_of_passed :
      (c : Check)
      → c.status ≡ CheckStatus.passed
      → (is_failed_check c ≡ false) × (is_missing_check c ≡ false)
  neither_of_passed c p = ground arith

  module _ (canon : V → String) (risks : List String) (run' : Run V) where
    finish-status :
        (requested : RunStatus)
        → finish canon (some requested) risks run ≡ ok run'
        → (judged : Gate V) × (claim_gate canon none run ≡ ok judged)
          × (run'.status ≡ final_status requested run judged.status)
    finish-status requested h =
        let (judged, e, written) = bind-eq-ok _ (claim_gate canon none run) run' h in
        (judged, e, ap (λ r. r.status) (sym (write_all-same canon _ run' written)))

    -- Where `finish_run` returns, the gate on the run's claims has a verdict, and the run is passed exactly
    -- when the caller asked for "passed" and the run has earned it: required assessments have a current
    -- checkpoint that passes, the gate passes or has nothing to judge, and every required check passed.
    pub finish_passed_iff :
        (requested_status : String)
        → finish_run canon requested_status risks run ≡ ok run'
        → (judged : Gate V) × (claim_gate canon none run ≡ ok judged)
          × ((run'.status ≡ RunStatus.passed) ↔ (
              (final_status_of (lower (strip requested_status)) ≡ some RunStatus.passed)
              × IsEarned run judged))
    unfolding finish_run
    finish_passed_iff requested_status h =
        elim (Option-cases (final_status_of (lower (strip requested_status)))) [
          | inl unknown ↦ absurd (cc (ap (λ o. finish canon o risks run) unknown))
          | inr (requested, known) ↦
              let (judged, e, same) =
                finish-status requested (subst (λ o. finish canon o risks run ≡ ok run') known h) in
              (judged, e, (sound requested known judged same, complete requested known judged same))
        ]
      where
        sound :
            (requested : RunStatus)
            → final_status_of (lower (strip requested_status)) ≡ some requested
            → (judged : Gate V) → run'.status ≡ final_status requested run judged.status
            → run'.status ≡ RunStatus.passed
            → (final_status_of (lower (strip requested_status)) ≡ some RunStatus.passed)
              × IsEarned run judged
        sound requested known judged same p =
            let (asked, assessed, open_gate, none_failed, none_missing) =
              final_status_sound requested judged.status (sym same ∙ p) in
            (
              known ∙ ap some asked,
              record {
                assessed = assessed;
                gated = open_gate;
                checked = λ c m r.
                    let req = In-filter_of (λ d. d.required) c run.checks m r in
                    passed_of_neither c ((filter-nil _ (required_checks run)).0 none_failed c req)
                      ((filter-nil _ (required_checks run)).0 none_missing c req);
              },
            )

        clear :
            (judged : Gate V)
            → IsEarned run judged
            → (c : Check) → In c (required_checks run)
            → (is_failed_check c ≡ false) × (is_missing_check c ≡ false)
        clear judged earned c m =
            let (there, r) = In-filter (λ d. d.required) c run.checks m in
            neither_of_passed c (earned.checked c there r)

        complete :
            (requested : RunStatus)
            → final_status_of (lower (strip requested_status)) ≡ some requested
            → (judged : Gate V) → run'.status ≡ final_status requested run judged.status
            → (final_status_of (lower (strip requested_status)) ≡ some RunStatus.passed)
              × IsEarned run judged
            → run'.status ≡ RunStatus.passed
        complete requested known judged same (asked, earned) =
            let req : requested ≡ RunStatus.passed = cc in
            same
            ∙ final_status_complete requested judged.status (
              req,
              earned.assessed,
              earned.gated,
              (filter-nil _ (required_checks run)).1 (λ c m. (clear judged earned c m).0),
              (filter-nil _ (required_checks run)).1 (λ c m. (clear judged earned c m).1),
            )
