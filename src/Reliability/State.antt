-- ===== src/Reliability/State.antt =====
-- The JSON document of a run (`start_run` makes it), as records. `V` is the type of the values of
-- structured claims. Keys that only echo an argument into the report are left out: the identities of
-- run and project, the command and evidence texts of a check, the times.
use awoki.Base.{ℕ, Bool, String, Option, List}
use awoki.ClaimGraph.{Claim, ClaimError}
use awoki.ClaimGraph.Gate.{Gate}

pub data Mode : Type 0 where
  verify reliability ship : Mode

pub data RunStatus : Type 0 where
  in_progress passed failed blocked reliably_paused : RunStatus

pub data CheckStatus : Type 0 where
  passed failed blocked skipped : CheckStatus

pub record Check : Type 0 where
  pub name : String
  pub required : Bool
  pub status : CheckStatus

pub record Contract : Type 0 where
  pub subject : String
  pub required_claims : List String
  pub required_properties : List String

pub data NodeKind : Type 0 where
  claim hypothesis observation question contradiction gap decision note : NodeKind

pub data NodeStatus : Type 0 where
  opened supported contradicted resolved incomplete not_established : NodeStatus

pub data Authority : Type 0 where
  tool_evidence source_evidence user_supplied_evidence environment_observation : Authority
  analyst_observation model_inference external_reference legacy_observation : Authority
  runtime_observation : Authority

pub data Requirement : Type 0 where
  reranker_complete single_evidence_scope : Requirement

pub record Node : Type 0 where
  pub node_id : String
  pub kind : NodeKind
  pub statement : String
  pub status : NodeStatus
  pub authority : Authority
  pub analysis_summary : String
  -- the `evidence_ref` of each resolved reference
  pub evidence_refs : List String
  pub relation_ids : List String
  pub required : Bool
  pub confidence : String
  pub requirements : List Requirement

pub data RelationType : Type 0 where
  supports refutes derived_from conflicts_with requires answers motivates_followup : RelationType

pub record Relation : Type 0 where
  pub relation_id : String
  pub from_node_id : String
  pub kind : RelationType
  pub to_node_id : String

pub record Event : Type 0 where
  pub event_id : String
  pub action : String

pub record Budget : Type 0 where
  pub total : ℕ
  pub used : ℕ
  pub remaining : ℕ
  pub events : List Event

pub data CheckpointResult : Type 0 where
  contradicted blocked incomplete not_applicable verified_with_findings verified : CheckpointResult

-- a checkpoint, less its identity and the fields that repeat the run's gate, budget and relation count
pub record Checkpoint : Type 0 where
  pub iteration : ℕ
  pub result : CheckpointResult
  pub missing_evidence_refs : List String
  pub broken_relations : List String
  pub multiple_evidence_scopes : Bool
  pub scope_requirement_violations : List String
  pub required_unresolved_nodes : List String
  pub unresolved_contradictions : List String
  pub required_contradictions : List String
  pub open_gap_or_question_nodes : List String
  pub degraded_required_nodes : List String
  -- a node and its reference
  pub backend_findings : List (String × String)
  pub next_check_candidates : List String

pub record Run (V : Type 0) : Type 0 where
  pub mode : Mode
  pub subject_contract : Contract
  pub claim : String
  pub status : RunStatus
  pub requested_status : Option RunStatus
  pub checks : List Check
  pub claims : List (Claim V)
  pub claim_gate : Option (Gate V)
  pub assessments : List Node
  pub relations : List Relation
  pub corrective_budget : Budget
  pub verification_checkpoints : List Checkpoint
  pub latest_verification_checkpoint : Option Checkpoint
  pub verification_stale : Bool
  pub risks : List String

-- the messages of the `ValueError`s
pub data RunError : Type 0 where
  text_too_long text_too_multiline no_obligation bad_status already_finalized : RunError
  bad_kind bad_authority note_required statement_required bad_requirement node_limit : RunError
  bad_relation_type no_relation_target evidence_unavailable endpoints_required no_endpoint :
      RunError
  relation_limit action_required bad_requested_status no_component : RunError
  claim_error : ClaimError → RunError
