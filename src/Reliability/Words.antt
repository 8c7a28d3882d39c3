-- ===== src/Reliability/Words.antt =====
-- The words of assessments and relations.
use awoki.Base.{String, text_equality, number_equality, ◌==◌, if◌then◌else◌, Raises, ok, err}
use awoki.Reliability.State.{
  NodeKind, NodeStatus, Authority, tool_evidence, source_evidence, user_supplied_evidence,
  environment_observation, analyst_observation, model_inference, external_reference,
  legacy_observation, runtime_observation, Requirement, reranker_complete, single_evidence_scope,
  RelationType, supports, refutes, derived_from, conflicts_with, requires, answers,
  motivates_followup, RunError, bad_kind, bad_status, bad_authority, bad_requirement,
  bad_relation_type,
}

-- membership in `_ALLOWED_ASSESSMENT_KINDS`
abbrev pub kind_of : String → Raises RunError NodeKind
kind_of s =
    if s == "claim"
    then ok NodeKind.claim
    else if s == "hypothesis"
    then ok NodeKind.hypothesis
    else if s == "observation"
    then ok NodeKind.observation
    else if s == "question"
    then ok NodeKind.question
    else if s == "contradiction"
    then ok NodeKind.contradiction
    else if s == "gap"
    then ok NodeKind.gap
    else if s == "decision"
    then ok NodeKind.decision
    else if s == "note"
    then ok NodeKind.note
    else err bad_kind

-- membership in `_ALLOWED_ASSESSMENT_STATUS`
abbrev pub node_status_of : String → Raises RunError NodeStatus
node_status_of s =
    if s == "open"
    then ok NodeStatus.opened
    else if s == "supported"
    then ok NodeStatus.supported
    else if s == "contradicted"
    then ok NodeStatus.contradicted
    else if s == "resolved"
    then ok NodeStatus.resolved
    else if s == "incomplete"
    then ok NodeStatus.incomplete
    else if s == "not_established"
    then ok NodeStatus.not_established
    else err bad_status

-- membership in `_ALLOWED_AUTHORITIES`
abbrev pub authority_of : String → Raises RunError Authority
authority_of s =
    if s == "tool_evidence"
    then ok tool_evidence
    else if s == "source_evidence"
    then ok source_evidence
    else if s == "user_supplied_evidence"
    then ok user_supplied_evidence
    else if s == "environment_observation"
    then ok environment_observation
    else if s == "analyst_observation"
    then ok analyst_observation
    else if s == "model_inference"
    then ok model_inference
    else if s == "external_reference"
    then ok external_reference
    else if s == "legacy_observation"
    then ok legacy_observation
    else if s == "runtime_observation"
    then ok runtime_observation
    else err bad_authority

-- membership in `_ALLOWED_RELATIONS`
abbrev pub relation_type_of : String → Raises RunError RelationType
relation_type_of s =
    if s == "supports"
    then ok supports
    else if s == "refutes"
    then ok refutes
    else if s == "derived_from"
    then ok derived_from
    else if s == "conflicts_with"
    then ok conflicts_with
    else if s == "requires"
    then ok requires
    else if s == "answers"
    then ok answers
    else if s == "motivates_followup"
    then ok motivates_followup
    else err bad_relation_type

abbrev pub requirement_of : String → Raises RunError Requirement
requirement_of s =
    if s == "reranker_complete"
    then ok reranker_complete
    else if s == "single_evidence_scope"
    then ok single_evidence_scope
    else err bad_requirement
