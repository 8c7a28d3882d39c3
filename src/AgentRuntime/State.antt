-- ===== src/AgentRuntime/State.antt =====
-- The dict that `_base` makes and `_write` stores, as records; a key whose value may be an empty
-- dict is an `Option`.
use awoki.Base.{
  ℕ, Bool, false, true, String, Option, none, some, is_some, text_equality, if◌then◌else◌, ◌&&◌,
  not,
}

pub data Classification : Type 0 where
  provider_error_terminal_turn : Classification
  reasoning_only_terminal_turn : Classification
  tool_execution_without_followup : Classification
  incomplete_terminal_turn : Classification
  normal_or_unclassified_terminal_turn : Classification

pub record Continuation : Type 0 where
  pub user_message_id : String
  pub summary_message_id : String
  pub marker_message_id : String

-- `terminal`; a summary has no classification, and only the last anomaly has the time of a recovery
pub record TerminalTurn : Type 0 where
  pub message_id : String
  pub parent_message_id : String
  pub is_summary : Bool
  pub finish_reason : String
  pub reasoning_present : Bool
  pub text_present : Bool
  pub tool_present : Bool
  pub provider_id : String
  pub model_id : String
  pub agent_mode : String
  pub error_type : String
  pub step_finish_seen : Bool
  pub input_tokens : ℕ
  pub output_tokens : ℕ
  pub reasoning_tokens : ℕ
  pub tool_executions_completed : ℕ
  pub observed_at : String
  pub compaction_continuation : Option Continuation
  pub classification : Option Classification
  pub recovered_at : Option String

pub data TurnStatus : Type 0 where
  awaiting_terminal incomplete completed : TurnStatus

pub record CurrentTurn : Type 0 where
  pub user_message_id : String
  pub status : TurnStatus
  pub terminal_message_id : String

pub record Runtime : Type 0 where
  pub anomaly_count : ℕ
  pub manual_recovery_attempts : ℕ
  pub automatic_recovery_attempts : ℕ
  pub recovered_count : ℕ
  pub unresolved_anomaly : Bool
  pub last_terminal_turn : Option TerminalTurn
  pub last_compaction_turn : Option TerminalTurn
  pub current_turn : Option CurrentTurn
  pub last_anomaly : Option TerminalTurn
  pub last_user_recovery_message_id : String
  pub updated_at : String

-- `_base`
abbrev pub base : String → Runtime
base now = record {
  anomaly_count = 0;
  manual_recovery_attempts = 0;
  automatic_recovery_attempts = 0;
  recovered_count = 0;
  unresolved_anomaly = false;
  last_terminal_turn = none;
  last_compaction_turn = none;
  current_turn = none;
  last_anomaly = none;
  last_user_recovery_message_id = "";
  updated_at = now;
}

-- `{**_base(), **_read(path)}`
abbrev pub load : String → Option Runtime → Runtime
load now none = base now
load now (some s) = s

pub data RuntimeState : Type 0 where
  unknown ok degraded incomplete : RuntimeState

abbrev pub is_completed : Option CurrentTurn → Bool
is_completed none = false
is_completed (some t) = elim t.status [ completed ↦ true | _ ↦ false ]

-- the `runtime_state` of `public_status`
abbrev pub runtime_state : Runtime → RuntimeState
runtime_state s =
    if is_some s.current_turn && not (is_completed s.current_turn)
    then RuntimeState.incomplete
    else if s.unresolved_anomaly
    then RuntimeState.degraded
    else if is_some s.current_turn
    then RuntimeState.ok
    else RuntimeState.unknown

-- `public_status`, less its two constant texts
pub record PublicStatus : Type 0 where
  pub runtime_state : RuntimeState
  pub current_turn : Option CurrentTurn
  pub current_turn_complete : Bool
  pub unresolved_anomaly : Bool
  pub anomaly_count : ℕ
  pub agent_turn_recovery_attempts : ℕ
  pub automatic_recovery_attempts : ℕ
  pub recovered_count : ℕ
  pub last_terminal_turn : Option TerminalTurn
  pub last_compaction_turn : Option TerminalTurn
  pub last_anomaly : Option TerminalTurn

unfoldable pub public_status : Runtime → PublicStatus
public_status s = record {
  runtime_state = runtime_state s;
  current_turn = s.current_turn;
  current_turn_complete = is_completed s.current_turn;
  unresolved_anomaly = s.unresolved_anomaly;
  anomaly_count = s.anomaly_count;
  agent_turn_recovery_attempts = s.manual_recovery_attempts;
  automatic_recovery_attempts = s.automatic_recovery_attempts;
  recovered_count = s.recovered_count;
  last_terminal_turn = s.last_terminal_turn;
  last_compaction_turn = s.last_compaction_turn;
  last_anomaly = s.last_anomaly;
}

-- the word under `status` in a reply
pub data Outcome : Type 0 where
  ignored : Outcome
  duplicate : PublicStatus → Outcome
  summary_recorded : PublicStatus → Outcome
  recorded : PublicStatus → Outcome
  user_turn_recorded : PublicStatus → Outcome
  recovery_attempt_recorded : PublicStatus → Outcome
  rejected : Outcome
  absent : PublicStatus → Outcome
  known : PublicStatus → Outcome
