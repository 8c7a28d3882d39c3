-- ===== src/AgentRuntime/Runs.antt =====
-- Sequences of events on one session's file, as the host delivers them.
use awoki.Base.{String, Option, none, some, List, [], ◌∷◌}
use awoki.AgentRuntime.State.{CurrentTurn, Runtime}
use awoki.AgentRuntime.{TerminalEvent, terminal_turn, user_turn}

pub data Event : Type 0 where
  -- the time, the session and the arguments of the call
  terminal : String → String → TerminalEvent → Event
  user : String → String → String → Event

unfoldable pub step : Event → Option Runtime → Option Runtime
step (terminal now session_id e) file = (terminal_turn now session_id e file).1
step (user now session_id message_id) file = (user_turn now session_id message_id file).1

unfoldable pub run : List Event → Option Runtime → Option Runtime
run [] file = file
run (ev ∷ events) file = run events (step ev file)

abbrev pub current : Option Runtime → Option CurrentTurn
current none = none
current (some s) = s.current_turn
