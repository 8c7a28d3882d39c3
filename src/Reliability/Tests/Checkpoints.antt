-- ===== src/Reliability/Tests/Checkpoints.antt =====
-- A run with a required claim that rests on a source, checked and finished.
use awoki.Base.Groups.{group_by}
use awoki.Base.{
  ◌≡◌, ◌↔◌, refl, true, false, String, Option, none, some, [], ◌∷◌, strip, lower, upper, prefix,
  is_space, unique, is_nonempty, ok, text_equality, ◌==◌, if◌then◌else◌, dash_runs,
}
use awoki.Base.Member.{In}
use awoki.ClaimGraph.{normalize_all, normalize_claim, claim_of, demote}
use awoki.ClaimGraph.Contradictions.{
  conflicts_of, contradictions, by_id, add_all_negations, add_negations, group_conflicts,
}
use awoki.ClaimGraph.Gate.{Gate, gate, judge, mark_required, expected_ids}
use awoki.Reliability.State.{
  Check, CheckStatus, Node, NodeKind, NodeStatus, source_evidence, Relation, RelationType,
  reranker_complete, Checkpoint, CheckpointResult, Run, RunStatus,
}
use awoki.Reliability.Texts.{clean_id}
use awoki.Reliability.Assess.{normalize_relations, normalize_from}
use awoki.Reliability.Records.{subject_contract, claim_gate, write_all}
use awoki.Reliability.Budget.{budget_state}
use awoki.Reliability.Finish.{final_status, final_status_of, finish_run, required_assessments}
use awoki.Reliability.Finish.Passing.{is_gate_open}
use awoki.Reliability.Evidence.{Evidence}
use awoki.Reliability.Checkpoint.{insert, sorted_set, result_of, verification_checkpoint}
use awoki.Reliability.Checkpoint.Coherence.{IsCoherent}
use awoki.Reliability.Checkpoint.Passing.{checkpoint_then_finish}
use awoki.Reliability.Tests.{same, complete}
use awoki.Reliability.Tests.Assessments.{no_hash}

-- what the evidence store holds: one piece of evidence
abbrev store : String → Option Evidence
store ref =
    if ref == "ev_1" then some (record { scope = "{}"; attempted = true; applied = true }) else none

abbrev parses : Node
parses = record {
  node_id = "n1";
  kind = NodeKind.claim;
  statement = "The parser reads 1.";
  status = NodeStatus.supported;
  authority = source_evidence;
  analysis_summary = "";
  evidence_refs = "ev_1" ∷ [];
  relation_ids = "r1" ∷ [];
  required = true;
  confidence = "provisional";
  requirements = reranker_complete ∷ [];
}

abbrev gap : Node
gap = record parses {
  node_id = "n2";
  kind = NodeKind.gap;
  statement = "Other inputs.";
  status = NodeStatus.opened;
  evidence_refs = [];
  relation_ids = [];
  required = false;
  requirements = [];
}

abbrev link : Relation
link = record {
  relation_id = "r1";
  from_node_id = "n1";
  kind = RelationType.answers;
  to_node_id = "n2";
}

abbrev assessed : Run String
assessed = record complete { assessments = parses ∷ gap ∷ []; relations = link ∷ [] }

abbrev checkpoint : Checkpoint
checkpoint = record {
  iteration = 1;
  result = CheckpointResult.verified_with_findings;
  missing_evidence_refs = [];
  broken_relations = [];
  multiple_evidence_scopes = false;
  scope_requirement_violations = [];
  required_unresolved_nodes = [];
  unresolved_contradictions = [];
  required_contradictions = [];
  open_gap_or_question_nodes = "n2" ∷ [];
  degraded_required_nodes = [];
  backend_findings = [];
  next_check_candidates = "Other inputs." ∷ [];
}

abbrev verified_run : Run String
verified_run = record assessed {
  verification_checkpoints = checkpoint ∷ [];
  latest_verification_checkpoint = some checkpoint;
  verification_stale = false;
}

verifies : verification_checkpoint store no_hash same assessed ≡ ok verified_run
unfolding verification_checkpoint result_of sorted_set insert budget_state normalize_relations
    normalize_from clean_id dash_runs claim_gate write_all subject_contract gate judge mark_required
    expected_ids contradictions conflicts_of normalize_all normalize_claim claim_of demote strip
    lower prefix is_space upper unique add_all_negations add_negations group_conflicts group_by
    by_id
verifies = refl

abbrev passed_run : Run String
passed_run = record verified_run {
  status = RunStatus.passed;
  requested_status = some RunStatus.passed;
  risks = [];
}

passes_it : finish_run same "passed" [] verified_run ≡ ok passed_run
unfolding finish_run final_status claim_gate write_all subject_contract gate judge mark_required
    expected_ids contradictions conflicts_of normalize_all normalize_claim claim_of demote strip
    lower is_space upper unique add_all_negations add_negations group_conflicts group_by by_id
passes_it = refl

checkpoint_then_finish_example :
    (judged : Gate String) × (claim_gate same none assessed ≡ ok judged)
    × ((RunStatus.passed ≡ RunStatus.passed) ↔ (
        (final_status_of (lower (strip "passed")) ≡ some RunStatus.passed)
        × (is_gate_open judged.status ≡ true)
        × ((c : Check) → In c assessed.checks → c.required ≡ true → c.status ≡ CheckStatus.passed)
        × (is_nonempty (required_assessments assessed) ≡ true
            → IsCoherent store assessed.assessments (normalize_relations no_hash assessed))))
checkpoint_then_finish_example =
    checkpoint_then_finish store no_hash same assessed verified_run "passed" [] passed_run verifies
      passes_it
