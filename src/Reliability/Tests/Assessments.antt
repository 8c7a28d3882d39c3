-- ===== src/Reliability/Tests/Assessments.antt =====
-- A required assessment, recorded in a run that starts and then finishes.
use awoki.Base.Groups.{group_by}
use awoki.Base.{
  dash_runs, ◌≡◌, ◌≢◌, refl, true, String, Option, some, [], ◌∷◌, strip, lower, prefix, List,
  is_space, unique, ok, text_equality,
}
use awoki.ClaimGraph.{normalize_all}
use awoki.ClaimGraph.Contradictions.{
  conflicts_of, contradictions, by_id, add_all_negations, group_conflicts,
}
use awoki.ClaimGraph.Gate.{GateStatus, gate, judge, mark_required, expected_ids}
use awoki.Reliability.State.{NodeKind, NodeStatus, model_inference, RelationType, RunStatus, Run}
use awoki.Reliability.Texts.{clean_node_id, clean_id, bounded_text, newlines}
use awoki.Reliability.Assess.{
  record_assessment, put_assessment, add_relations, normalize_relations, normalize_from,
  clean_requirements, clean_confidence,
}
use awoki.Reliability.Assess.Stale.{assessment_bars_passing}
use awoki.Reliability.Events.{Assessing, Event, checks, assesses, finishes, assess, run_events}
use awoki.Reliability.Records.{subject_contract, claim_gate, write_all}
use awoki.Reliability.Finish.{final_status, finish_run}
use awoki.Reliability.Tests.{same, started}

abbrev pub no_hash : String → RelationType → String → String
no_hash from kind target = from

abbrev no_evidence : List String → Option (List String)
no_evidence refs = some refs

-- the run with a required question
abbrev asked : Run String
asked = record started {
  assessments =
      record {
        node_id = "q1";
        kind = NodeKind.question;
        statement = "Is it total?";
        status = NodeStatus.opened;
        authority = model_inference;
        analysis_summary = "";
        evidence_refs = [];
        relation_ids = [];
        required = true;
        confidence = "provisional";
        requirements = [];
      }
      ∷ [];
  verification_stale = true;
}

abbrev asking : Assessing
asking = record {
  fresh = "asn_1";
  kind = "question";
  statement = "Is it total?";
  node_id = "q1";
  status = "";
  authority = "";
  analysis_summary = "";
  evidence_refs = [];
  relations = [];
  required = true;
  confidence = "";
  requirements = [];
}

asks : assess no_hash same same no_evidence asking started ≡ ok asked
unfolding record_assessment put_assessment add_relations normalize_relations normalize_from
    clean_requirements clean_confidence clean_node_id clean_id dash_runs bounded_text newlines
    claim_gate write_all subject_contract gate judge mark_required expected_ids contradictions
    conflicts_of normalize_all strip lower prefix is_space unique add_all_negations group_conflicts
    group_by by_id
asks = refl

abbrev barred : Run String
barred = record asked {
  claim_gate = some (record {
    status = GateStatus.blocked;
    reason = "declared required structured claims have not been recorded";
    missing_required_claims = "c1" ∷ [];
    conflicts = [];
    failed_claims = [];
    blocked_claims = [];
    claims = [];
  });
  status = RunStatus.blocked;
  requested_status = some RunStatus.passed;
}

bars : finish_run same "passed" [] asked ≡ ok barred
unfolding finish_run final_status claim_gate write_all subject_contract gate judge mark_required
    expected_ids contradictions conflicts_of normalize_all strip lower is_space unique
    add_all_negations group_conflicts group_by by_id
bars = refl

-- the check is then reported as passed, the question is answered but still required, and the run finishes
abbrev goes_on : List (Event String)
goes_on =
    checks "unit" "passed" true
    ∷ assesses (record asking { status = "resolved" })
    ∷ finishes "passed" []
    ∷ []

assessment_bars_passing_example :
    (run_events no_hash same same no_evidence goes_on asked).status ≢ RunStatus.passed
unfolding clean_node_id clean_id dash_runs prefix strip
assessment_bars_passing_example =
    assessment_bars_passing no_hash same no_evidence same asking started asked asks refl goes_on
      refl
