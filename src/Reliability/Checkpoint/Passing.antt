-- ===== src/Reliability/Checkpoint/Passing.antt =====
-- What a checkpoint is worth when the run finishes.
use mathlib.Core.Path.{subst}
use awoki.Base.Member.{In}
use awoki.Base.{
  ◌≡◌, ◌↔◌, refl, sym, ap, ◌∙◌, true, false, not, String, Option, none, some, List, [], ◌∷◌, filter,
  is_nonempty, strip, lower, ok, bind-eq-ok, ok-injective, inl, arith, raise_if,
}
use awoki.ClaimGraph.Gate.{Gate}
use awoki.Reliability.State.{
  Node, RelationType, Check, CheckStatus, Checkpoint, Run, RunStatus, already_finalized,
}
use awoki.Reliability.Records.{subject_contract, claim_gate, write_all-same, is_in_progress}
use awoki.Reliability.Assess.{normalize_relations}
use awoki.Reliability.Finish.{is_passing, required_assessments, final_status_of, finish_run}
use awoki.Reliability.Finish.Passing.{is_gate_open, finish_passed_iff}
use awoki.Reliability.Evidence.{Evidence}
use awoki.Reliability.Checkpoint.{result_of, checkpoint_of, verification_checkpoint}
use awoki.Reliability.Checkpoint.Coherence.{IsCoherent, passes, clear_iff, result_passes}

passing_result : (c : Checkpoint) → is_passing (some c) ≡ passes c.result
passing_result c = ground arith

some_node :
    (nodes : List Node)
    → is_nonempty (filter (λ n. n.required) nodes) ≡ true
    → is_nonempty nodes ≡ true
some_node [] h = cc
some_node (n ∷ nodes) h = refl

module _ {V : Type 0} (evidence : String → Option Evidence)
    (legacy : String → RelationType → String → String) (canon : V → String) (run run' : Run V) where
  -- what a checkpoint writes
  checkpoint_writes :
      verification_checkpoint evidence legacy canon run ≡ ok run'
      → (judged : Gate V) × (claim_gate canon none run ≡ ok judged)
        × (claim_gate canon none run' ≡ ok judged)
        × (run'.assessments ≡ run.assessments)
        × (run'.checks ≡ run.checks)
        × (run'.verification_stale ≡ false)
        × (is_passing run'.latest_verification_checkpoint
            ≡ passes
                (result_of evidence run.assessments (normalize_relations legacy run) judged.status))
  unfolding verification_checkpoint claim_gate subject_contract
  checkpoint_writes h =
      let (u, open_, rest) =
        bind-eq-ok _ (raise_if (not (is_in_progress run.status)) already_finalized) run' h in
      let (judged, gate, written) = bind-eq-ok _ (claim_gate canon none run) run' rest in
      let (gate', nodes, checks, fresh, passing) =
        subst
          (λ (r : Run V).
            (claim_gate canon none r ≡ ok judged)
            × (r.assessments ≡ run.assessments)
            × (r.checks ≡ run.checks)
            × (r.verification_stale ≡ false)
            × (is_passing r.latest_verification_checkpoint
                ≡ passes (
                    result_of evidence run.assessments (normalize_relations legacy run)
                      judged.status)))
          (write_all-same canon _ run' written)
          (
            gate,
            refl,
            refl,
            refl,
            passing_result (
                checkpoint_of evidence run.verification_checkpoints run.assessments
                  (normalize_relations legacy run) judged.status),
          ) in
      (judged, gate, gate', nodes, checks, fresh, passing)

  -- After a checkpoint of a run, with nothing recorded since, finishing it as "passed" passes exactly when
  -- the gate on its claims passes or has nothing to judge, every required check passed, and, where an
  -- assessment is required, the assessments and relations are coherent with the evidence that is available.
  pub checkpoint_then_finish :
      (requested_status : String) (risks : List String) (run'' : Run V)
      → verification_checkpoint evidence legacy canon run ≡ ok run'
      → finish_run canon requested_status risks run' ≡ ok run''
      → (judged : Gate V) × (claim_gate canon none run ≡ ok judged)
        × ((run''.status ≡ RunStatus.passed) ↔ (
            (final_status_of (lower (strip requested_status)) ≡ some RunStatus.passed)
            × (is_gate_open judged.status ≡ true)
            × ((c : Check) → In c run.checks → c.required ≡ true → c.status ≡ CheckStatus.passed)
            × (is_nonempty (required_assessments run) ≡ true
                → IsCoherent evidence run.assessments (normalize_relations legacy run))))
  checkpoint_then_finish requested_status risks run'' checked finished =
      let (judged, gate, gate', nodes, checks, fresh, passing) = checkpoint_writes checked in
      let (judged', again, exactly) =
        finish_passed_iff run' canon risks run'' requested_status finished in
      let same : judged' ≡ judged = ok-injective judged' judged (sym again ∙ gate') in
      let relations = normalize_relations legacy run in
      let (passes_of, of_passes) = result_passes evidence run.assessments relations judged.status in
      let (coherent, clear) = clear_iff evidence run.assessments relations in
      let required : required_assessments run' ≡ required_assessments run =
        ap (filter (λ n. n.required)) nodes in
      (
        judged,
        gate,
        (
          λ p.
              let (asked, earned) = exactly.0 p in
              (
                asked,
                ap (λ j. is_gate_open j.status) (sym same) ∙ earned.gated,
                λ c m r. earned.checked c (subst (In c) (sym checks) m) r,
                λ needed.
                    let (current, passed) = earned.assessed (ap is_nonempty required ∙ needed) in
                    coherent (passes_of (sym passing ∙ passed)).0,
              ),
          λ q.
              let (asked, open_, all_passed, assessed) = q in
              exactly.1 (
                asked,
                record {
                  gated = ap (λ j. is_gate_open j.status) same ∙ open_;
                  checked = λ c m r. all_passed c (subst (In c) checks m) r;
                  assessed = λ needed'.
                      let needed = ap is_nonempty (sym required) ∙ needed' in
                      (
                        fresh,
                        passing
                            ∙ of_passes (
                              clear (assessed needed),
                              open_,
                              inl (some_node run.assessments needed),
                            ),
                      );
                },
              ),
        ),
      )
