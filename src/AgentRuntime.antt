-- ===== src/AgentRuntime.antt =====
-- .harness/agent_runtime.py: what one session's state file records of terminal turns and of user
-- turns. An operation takes the file (`none`: missing or unreadable, which `_read` returns as an
-- empty dict) and gives the reply with the file that is left. `now` is the time that `_now` returns.
pub mod State
pub mod Runs
pub mod Progress
pub mod Counters
pub mod Anomalies
mod Tests
use awoki.Base.Int.{ℤ, pos_part}
use awoki.Base.{
  ℕ, ◌+◌, Bool, true, false, not, ◌&&◌, ◌||◌, String, Option, none, some, [], ◌∷◌, nonempty, strip,
  lower, prefix, one_of, text_equality, ◌==◌, if◌then◌else◌,
}
use State.{
  Classification, provider_error_terminal_turn, reasoning_only_terminal_turn,
  tool_execution_without_followup, incomplete_terminal_turn, normal_or_unclassified_terminal_turn,
  Continuation, TerminalTurn, TurnStatus, awaiting_terminal, completed, CurrentTurn, Runtime, base,
  load, public_status, Outcome, ignored, duplicate, summary_recorded, recorded, user_turn_recorded,
  recovery_attempt_recorded, rejected, absent, known,
}

-- the keyword arguments of `terminal_turn`
pub record TerminalEvent : Type 0 where
  pub message_id : String
  pub finish_reason : String
  pub has_reasoning : Bool
  pub has_text : Bool
  pub has_tool : Bool
  pub provider_id : String
  pub model_id : String
  pub agent_mode : String
  pub error_type : String
  pub step_finish_seen : Bool
  pub input_tokens : ℤ
  pub output_tokens : ℤ
  pub reasoning_tokens : ℤ
  pub tool_executions_completed : ℤ
  pub parent_message_id : String
  pub is_summary : Bool
  pub compaction_continuation_of : String
  pub compaction_summary_message_id : String
  pub compaction_marker_message_id : String

-- `_count`: `max(0, int(value or 0))`
abbrev count : ℤ → ℕ
count = pos_part

pub finish_of : TerminalEvent → String
finish_of e = prefix 80 (lower (strip e.finish_reason))

abbrev continuation_of : TerminalEvent → Option Continuation
continuation_of e =
    if nonempty e.compaction_continuation_of
    then some (record {
      user_message_id = prefix 240 e.compaction_continuation_of;
      summary_message_id = prefix 240 e.compaction_summary_message_id;
      marker_message_id = prefix 240 e.compaction_marker_message_id;
    })
    else none

-- the ladder of conditions that names a turn that is no summary
pub classify : TerminalEvent → Classification
unfolding finish_of
classify e =
    if nonempty (strip e.error_type)
    then provider_error_terminal_turn
    else if e.has_reasoning && not e.has_text && not e.has_tool
    then reasoning_only_terminal_turn
    else if finish_of e == "tool-calls" || (e.has_tool && not e.has_text)
    then tool_execution_without_followup
    else if not e.has_text || not (one_of (finish_of e) ("stop" ∷ "end_turn" ∷ []))
    then incomplete_terminal_turn
    else normal_or_unclassified_terminal_turn

abbrev pub is_anomaly : Classification → Bool
is_anomaly normal_or_unclassified_terminal_turn = false
is_anomaly _ = true

-- the dict `terminal`
pub terminal_of : String → TerminalEvent → Option Classification → TerminalTurn
unfolding finish_of
terminal_of now e classification = record {
  message_id = prefix 240 e.message_id;
  parent_message_id = prefix 240 e.parent_message_id;
  is_summary = e.is_summary;
  finish_reason = finish_of e;
  reasoning_present = e.has_reasoning;
  text_present = e.has_text;
  tool_present = e.has_tool;
  provider_id = prefix 240 e.provider_id;
  model_id = prefix 240 e.model_id;
  agent_mode = prefix 120 e.agent_mode;
  error_type = prefix 160 e.error_type;
  step_finish_seen = e.step_finish_seen;
  input_tokens = count e.input_tokens;
  output_tokens = count e.output_tokens;
  reasoning_tokens = count e.reasoning_tokens;
  tool_executions_completed = count e.tool_executions_completed;
  observed_at = now;
  compaction_continuation = continuation_of e;
  classification = classification;
  recovered_at = none;
}

-- `value == current.get("user_message_id")`
abbrev is_current : String → Option CurrentTurn → Bool
is_current id none = false
is_current id (some t) = id == t.user_message_id

-- `matches`: the event is attributed to the current user turn
pub attributed : TerminalEvent → Option CurrentTurn → Bool
attributed e current =
    if nonempty e.compaction_continuation_of
    then nonempty e.compaction_summary_message_id
      && nonempty e.compaction_marker_message_id
      && is_current e.compaction_continuation_of current
      && nonempty e.parent_message_id
      && not (e.parent_message_id == e.compaction_continuation_of)
      && not (e.parent_message_id == e.compaction_marker_message_id)
      && not (e.message_id == e.compaction_summary_message_id)
    else nonempty e.parent_message_id && is_current e.parent_message_id current

abbrev close_current : Bool → String → Option CurrentTurn → Option CurrentTurn
close_current anomaly id none = none
close_current anomaly id (some t) = some (record t {
  status = if anomaly then TurnStatus.incomplete else completed;
  terminal_message_id = prefix 240 id;
})

abbrev mark_recovered : String → Option TerminalTurn → Option TerminalTurn
mark_recovered now none = none
mark_recovered now (some t) = some (record t { recovered_at = some now })

-- the counters and flags, once `last_terminal_turn` and `current_turn` are written
pub settle : String → Bool → Bool → TerminalTurn → Runtime → Runtime
settle now anomaly matches terminal s =
    if anomaly
    then record s {
      anomaly_count = s.anomaly_count + 1;
      unresolved_anomaly = true;
      last_anomaly = some terminal;
      last_user_recovery_message_id = "";
      updated_at = now;
    }
    else if matches && s.unresolved_anomaly && nonempty s.last_user_recovery_message_id
    then record s {
      unresolved_anomaly = false;
      recovered_count = s.recovered_count + 1;
      last_anomaly = mark_recovered now s.last_anomaly;
      updated_at = now;
    }
    else record s { updated_at = now }

-- the state after a turn that is neither a repetition nor a summary
pub after_terminal : String → TerminalEvent → Runtime → Runtime
after_terminal now e s =
    let anomaly = is_anomaly (classify e) in
    let matches = attributed e s.current_turn in
    let terminal = terminal_of now e (some (classify e)) in
    settle now anomaly matches terminal (record s {
      last_terminal_turn = some terminal;
      current_turn =
          if matches then close_current anomaly e.message_id s.current_turn else s.current_turn;
    })

-- `str(prior_terminal.get("message_id") or "") == message_id`
abbrev pub is_repeated : String → Option TerminalTurn → Bool
is_repeated id none = "" == id
is_repeated id (some t) = t.message_id == id

pub terminal_turn : String → String → TerminalEvent → Option Runtime → Outcome × Option Runtime
terminal_turn now session_id e file =
    if not (nonempty (strip session_id)) || not (nonempty (strip e.message_id))
    then (ignored, file)
    else let s = load now file in
      let summary = record s {
        last_compaction_turn = some (terminal_of now e none);
        updated_at = now;
      } in
      let next = after_terminal now e s in
      if is_repeated e.message_id s.last_terminal_turn
      then (duplicate (public_status s), file)
      else if e.is_summary
      then (summary_recorded (public_status summary), some summary)
      else (recorded (public_status next), some next)

abbrev started : String → CurrentTurn
started id = record { user_message_id = id; status = awaiting_terminal; terminal_message_id = "" }

-- the file after a user turn that is no repetition, and whether it counts as a recovery attempt
pub after_user : String → String → Runtime → Runtime × Bool
after_user now id s =
    let s' = record s { current_turn = some (started id); updated_at = now } in
    if s.unresolved_anomaly && (not (nonempty id) || not (id == s.last_user_recovery_message_id))
    then (
      record s' {
        manual_recovery_attempts = s.manual_recovery_attempts + 1;
        last_user_recovery_message_id = id;
      },
      true,
    )
    else (s', false)

pub user_turn : String → String → String → Option Runtime → Outcome × Option Runtime
user_turn now session_id message_id file =
    if not (nonempty (strip session_id))
    then (ignored, file)
    else let s = load now file in
      let id = prefix 240 message_id in
      let (next, recovery) = after_user now id s in
      if nonempty id && is_current id s.current_turn
      then (duplicate (public_status s), file)
      else if recovery
      then (recovery_attempt_recorded (public_status next), some next)
      else (user_turn_recorded (public_status next), some next)

pub status : String → String → Option Runtime → Outcome
status now session_id file =
    if not (nonempty (strip session_id))
    then rejected
    else elim file [ none ↦ absent (public_status (base now)) | some s ↦ known (public_status s) ]
