-- ===== src/Reliability/Checkpoint.antt =====
-- `verification_checkpoint`: what stands in the way of relying on the assessments of a run.
pub mod Coherence
pub mod Passing
use Prim.Native.String.{compare}
use text.Mathlib.Text.{is_le}
use awoki.Base.{
  ℕ, ◌+◌, Bool, true, false, not, ◌&&◌, ◌||◌, String, Option, none, some, List, [], ◌∷◌, ◌++◌, map,
  filter, take, take_last, any, contains, unique, length, is_nonempty, is_some, nonempty, prefix,
  ltb, leb, text_equality, number_equality, ◌==◌, if◌then◌else◌, Raises, ok, err, raise_if, ◌>>=◌,
  ◌>>◌,
}
use awoki.ClaimGraph.Gate.{Gate, GateStatus}
use awoki.Reliability.State.{
  Node, NodeKind, NodeStatus, Authority, Requirement, Relation, RelationType, Checkpoint,
  CheckpointResult, contradicted, blocked, incomplete, not_applicable, verified_with_findings,
  verified, Run, RunError, already_finalized,
}
use awoki.Reliability.Records.{is_in_progress, claim_gate, write_all}
use awoki.Reliability.Assess.{normalize_relations, same_requirement}
use awoki.Reliability.Budget.{budget_state}
use awoki.Reliability.Finish.{is_gate_failed, is_gate_blocked}
use awoki.Reliability.Evidence.{
  Evidence, demands, is_open_kind, is_assertion, is_contradiction, is_gap, is_resolved,
  is_supported, is_evidential, is_inference, is_derived_from, is_supports, is_not_applicable,
  concat_map, is_missing, is_available, is_degraded, is_backed, node_scopes, backed_ids,
  is_degraded_node, is_mixed_node, is_dangling, is_broken, is_unsettled,
}

-- `sorted(set(texts))`
unfoldable pub insert : String → List String → List String
insert x [] = x ∷ []
insert x (y ∷ ys) =
    let rest = insert x ys in
    if x == y then y ∷ ys else if is_le (compare x y) then x ∷ y ∷ ys else y ∷ rest

unfoldable pub sorted_set : List String → List String
sorted_set [] = []
sorted_set (x ∷ xs) = insert x (sorted_set xs)

-- `open_gap_or_question_nodes`
abbrev open_gaps : List Node → List Node
open_gaps nodes = filter (λ n. is_gap n.kind && not (is_resolved n.status)) nodes

abbrev pub unresolved : List Node → List Node
unresolved nodes = filter (λ n. is_contradiction n.kind && not (is_resolved n.status)) nodes

abbrev node_ids : List Node → List String
node_ids nodes = sorted_set (map (λ (n : Node). n.node_id) nodes)

module _ (evidence : String → Option Evidence) where
  abbrev pub missing_refs : List Node → List String
  missing_refs nodes = concat_map (λ (n : Node). filter (is_missing evidence) n.evidence_refs) nodes

  abbrev scopes : List Node → List String
  scopes nodes = unique (concat_map (node_scopes evidence) nodes)

  abbrev has_mixed_scopes : List Node → Bool
  has_mixed_scopes nodes = ltb 1 (length (scopes nodes))

  -- `backend_reliability_findings`, each as its node and its reference
  abbrev degraded : List Node → List (String × String)
  degraded nodes =
      concat_map
        (λ (n : Node).
          map (λ ref. (n.node_id, ref)) (filter (is_degraded evidence) n.evidence_refs))
        nodes

  abbrev pub unsettled : List Node → List Relation → List Node
  unsettled nodes relations = filter (is_unsettled (backed_ids evidence nodes) relations) nodes

  abbrev pub has_findings : List Node → Bool
  has_findings nodes =
      is_nonempty (unresolved nodes)
      || is_nonempty (open_gaps nodes)
      || is_nonempty (degraded nodes)
      || has_mixed_scopes nodes

  -- the ladder of `result`
  unfoldable pub result_of : List Node → List Relation → GateStatus → CheckpointResult
  result_of nodes relations gate_status =
      if is_nonempty (filter (λ n. n.required) (unresolved nodes)) || is_gate_failed gate_status
      then contradicted
      else if is_nonempty (missing_refs nodes) || is_nonempty (filter (is_broken nodes) relations)
      then blocked
      else if is_nonempty (unsettled nodes relations)
          || is_nonempty (filter (is_degraded_node evidence) nodes)
          || is_nonempty (filter (is_mixed_node evidence) nodes)
          || is_gate_blocked gate_status
      then incomplete
      else if not (is_nonempty nodes) && is_not_applicable gate_status
      then not_applicable
      else if has_findings nodes
      then verified_with_findings
      else verified

  abbrev pub next_iteration : List Checkpoint → ℕ
  next_iteration previous = elim (take_last 1 previous) [ [] ↦ 1 | c ∷ _ ↦ c.iteration + 1 ]

  abbrev pub checkpoint_of : List Checkpoint → List Node → List Relation → GateStatus → Checkpoint
  checkpoint_of previous nodes relations gate_status = record {
    iteration = next_iteration previous;
    result = result_of nodes relations gate_status;
    missing_evidence_refs = sorted_set (missing_refs nodes);
    broken_relations =
        take 32 (map (λ (r : Relation). r.relation_id) (filter (is_broken nodes) relations));
    multiple_evidence_scopes = has_mixed_scopes nodes;
    scope_requirement_violations = node_ids (filter (is_mixed_node evidence) nodes);
    required_unresolved_nodes = node_ids (unsettled nodes relations);
    unresolved_contradictions = node_ids (unresolved nodes);
    required_contradictions = node_ids (filter (λ n. n.required) (unresolved nodes));
    open_gap_or_question_nodes = node_ids (open_gaps nodes);
    degraded_required_nodes = node_ids (filter (is_degraded_node evidence) nodes);
    backend_findings = take 32 (degraded nodes);
    next_check_candidates = take 8 (map (λ (n : Node). prefix 500 n.statement) (open_gaps nodes));
  }

  -- `legacy` and `canon` as for `record_relation`
  unfoldable pub verification_checkpoint :
      {V : Type 0}
      → (legacy : String → RelationType → String → String) → (canon : V → String) → Run V
      → Raises RunError (Run V)
  verification_checkpoint legacy canon run = do
    raise_if (not (is_in_progress run.status)) already_finalized
    judged ← claim_gate canon none run
    let relations = normalize_relations legacy run
    let checkpoint =
        checkpoint_of run.verification_checkpoints run.assessments relations judged.status
    write_all canon (record run {
      relations = relations;
      corrective_budget = budget_state run.corrective_budget;
      claim_gate = some judged;
      verification_checkpoints = take_last 32 (run.verification_checkpoints ++ checkpoint ∷ []);
      latest_verification_checkpoint = some checkpoint;
      verification_stale = false;
    })
