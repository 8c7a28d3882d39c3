-- ===== src/AgentRuntime/Tests.antt =====
-- Runs of one session's file, and the theorems at concrete events.
use awoki.Base.Int.{pos}
use awoki.Base.{
  ◌≡◌, ◌≢◌, refl, Bool, true, false, String, none, some, List, [], ◌∷◌, strip, lower, is_space,
  prefix, one_of, arith,
}
use awoki.AgentRuntime.State.{Runtime, RuntimeState, ok, is_completed, public_status}
use awoki.AgentRuntime.{
  TerminalEvent, classify, attributed, is_anomaly, terminal_of, settle, after_terminal,
  terminal_turn, after_user, user_turn,
}
use awoki.AgentRuntime.Runs.{Event, terminal, user, step, run, current}
use awoki.AgentRuntime.Progress.{Cause, run_completed_by_answer}
use awoki.AgentRuntime.Counters.{FileIsCounted, run-IsCounted}
use awoki.AgentRuntime.Anomalies.{
  file_state, run_terminals, anomaly_outlives_turns, terminal_turn_again,
  long_identity_counts_twice, anomalies, user_turn_reopens, user_turn_again,
}

abbrev answer : String → String → Bool → TerminalEvent
answer id parent has_text = record {
  message_id = id;
  finish_reason = " STOP";
  has_reasoning = true;
  has_text = has_text;
  has_tool = false;
  provider_id = "p";
  model_id = "m";
  agent_mode = "build";
  error_type = "";
  step_finish_seen = true;
  input_tokens = pos 10;
  output_tokens = pos 2;
  reasoning_tokens = pos 1;
  tool_executions_completed = pos 0;
  parent_message_id = parent;
  is_summary = false;
  compaction_continuation_of = "";
  compaction_summary_message_id = "";
  compaction_marker_message_id = "";
}

-- a turn of reasoning only, the user's follow-up, and an answer to it
abbrev story : List Event
story =
    user "t0" "s" "u1"
    ∷ terminal "t1" "s" (answer "a1" "u1" false)
    ∷ user "t2" "s" "u2"
    ∷ terminal "t3" "s" (answer "a2" "u2" true)
    ∷ []

story_completes : is_completed (current (run story none)) ≡ true
unfolding run step user_turn after_user terminal_turn after_terminal settle classify attributed
    terminal_of strip lower is_space prefix one_of
story_completes = refl

story_recovers : file_state (run story none) ≡ ok
unfolding run step user_turn after_user terminal_turn after_terminal settle classify attributed
    terminal_of strip lower is_space prefix one_of
story_recovers = refl

run_completed_by_answer_example : Cause story none
run_completed_by_answer_example = run_completed_by_answer story none refl story_completes

run-IsCounted_example : FileIsCounted (run story none)
run-IsCounted_example = run-IsCounted story none tt

anomaly_outlives_turns_example :
    file_state (
      run_terminals "s"
        (("t2", answer "a2" "" true) ∷ [])
        (terminal_turn "t1" "s" (answer "a1" "u1" false) none).1)
    ≢ ok
unfolding strip is_space classify
anomaly_outlives_turns_example =
    anomaly_outlives_turns "t1" "s" (answer "a1" "u1" false) none (("t2", answer "a2" "" true) ∷ [])
      (refl, refl, refl, refl) refl

terminal_turn_again_example :
    (terminal_turn "t2" "s"
      (answer "a1" "u1" true)
      (terminal_turn "t1" "s" (answer "a1" "u1" true) none).1).1
    ≡ (terminal_turn "t1" "s" (answer "a1" "u1" true) none).1
terminal_turn_again_example =
    terminal_turn_again "t1" "t2" "s" (answer "a1" "u1" true) none (omega arith) refl

abbrev ten : String → String
ten s = Prim.Native.String.◌++◌ (Prim.Native.String.◌++◌ s s) (Prim.Native.String.◌++◌ s s)

-- 256 characters
abbrev long_id : String
long_id = ten (ten (ten (ten "a")))

abbrev fresh : Runtime
fresh = awoki.AgentRuntime.State.base "t0"

long_identity_counts_twice_example :
    anomalies
      (terminal_turn "t2" "s"
        (answer long_id "u1" false)
        (terminal_turn "t1" "s" (answer long_id "u1" false) (some fresh)).1).1
    ≡ 2
unfolding strip is_space classify
long_identity_counts_twice_example =
    long_identity_counts_twice "t1" "t2" "s" (answer long_id "u1" false) fresh (omega arith)
      (refl, refl, refl, refl) refl

user_turn_reopens_example :
    file_state (user_turn "t4" "s" "u3" (run story none)).1 ≡ RuntimeState.incomplete
unfolding run step user_turn after_user terminal_turn after_terminal settle classify attributed
    terminal_of strip lower is_space prefix one_of
user_turn_reopens_example = user_turn_reopens "t4" "s" "u3" refl refl (run story none) refl

user_turn_again_example :
    (user_turn "t5" "s" "u3" (user_turn "t4" "s" "u3" none).1).1 ≡ (user_turn "t4" "s" "u3" none).1
unfolding strip is_space
user_turn_again_example = user_turn_again "t4" "t5" "s" "u3" none refl refl
