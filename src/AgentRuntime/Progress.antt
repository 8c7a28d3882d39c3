-- ===== src/AgentRuntime/Progress.antt =====
-- When the current user turn counts as completed.
use awoki.Base.{
  ◌≡◌, refl, ap, true, false, String, Option, none, some, List, [], ◌∷◌, ◌++◌, nonempty, strip,
  one_of, arith, Bool-cases, inl, inr, text_equality,
}
use awoki.AgentRuntime.State.{Runtime, base, is_completed}
use awoki.AgentRuntime.{
  TerminalEvent, classify, finish_of, is_anomaly, attributed, settle, after_terminal, terminal_turn,
  after_user, user_turn,
}
use awoki.AgentRuntime.Runs.{Event, terminal, user, step, run, current}

-- a text answer, with no error and a normal finish, that is no summary and answers the current user turn
pub record Answers (e : TerminalEvent) (file : Option Runtime) : Type 0 where
  pub text : e.has_text ≡ true
  pub no_error : nonempty (strip e.error_type) ≡ false
  pub finished : one_of (finish_of e) ("stop" ∷ "end_turn" ∷ []) ≡ true
  pub no_summary : e.is_summary ≡ false
  pub attribution : attributed e (current file) ≡ true

-- A turn that is no anomaly has text, no error and a normal finish.
classify_normal :
    (e : TerminalEvent)
    → is_anomaly (classify e) ≡ false
    → (e.has_text ≡ true)
      × (nonempty (strip e.error_type) ≡ false)
      × (one_of (finish_of e) ("stop" ∷ "end_turn" ∷ []) ≡ true)
unfolding classify
classify_normal e h = ground arith

after_terminal_completes :
    (now : String) (e : TerminalEvent) (s : Runtime)
    → is_completed s.current_turn ≡ false
    → is_completed (after_terminal now e s).current_turn ≡ true
    → (attributed e s.current_turn ≡ true) × (is_anomaly (classify e) ≡ false)
unfolding after_terminal settle
after_terminal_completes now e s h done = ground arith

-- A terminal turn completes the current turn only if it answers it.
pub completed_by_answer :
    (now session_id : String) (e : TerminalEvent) (file : Option Runtime)
    → is_completed (current file) ≡ false
    → is_completed (current (terminal_turn now session_id e file).1) ≡ true
    → Answers e file
unfolding terminal_turn
completed_by_answer now session_id e none h done =
    ground (arith, after_terminal_completes now e (base now), classify_normal e)
completed_by_answer now session_id e (some s) h done =
    ground (arith, after_terminal_completes now e s, classify_normal e)

-- A user turn completes nothing.
user_turn_open :
    (now session_id message_id : String) (file : Option Runtime)
    → is_completed (current file) ≡ false
    → is_completed (current (user_turn now session_id message_id file).1) ≡ false
unfolding user_turn after_user
user_turn_open now session_id message_id none h = ground arith
user_turn_open now session_id message_id (some s) h = ground arith

-- The events up to a terminal turn that answers the user turn of that moment.
pub record Cause (events : List Event) (file : Option Runtime) : Type 0 where
  pub before : List Event
  pub now : String
  pub session_id : String
  pub answer : TerminalEvent
  pub after : List Event
  pub split : events ≡ before ++ (terminal now session_id answer ∷ after)
  pub answers : Answers answer (run before file)

later :
    (ev : Event) (events : List Event) (file : Option Runtime)
    → Cause events (step ev file)
    → Cause (ev ∷ events) file
unfolding run
later ev events file c = record {
  before = ev ∷ c.before;
  now = c.now;
  session_id = c.session_id;
  answer = c.answer;
  after = c.after;
  split = ap (λ l. ev ∷ l) c.split;
  answers = c.answers;
}

step-Cause :
    (ev : Event) (events : List Event) (file : Option Runtime)
    → is_completed (current file) ≡ false
    → is_completed (current (step ev file)) ≡ true
    → Cause (ev ∷ events) file
unfolding step run
step-Cause (user now sid id) events file h done = cc (user_turn_open now sid id file h)
step-Cause (terminal now sid e) events file h done = record {
  before = [];
  now = now;
  session_id = sid;
  answer = e;
  after = events;
  split = refl;
  answers = completed_by_answer now sid e file h done;
}

-- If a run of events, from a file whose current turn is not completed, ends with a completed current
-- turn, then the run holds a terminal turn with text, a normal finish and no error that is attributed
-- to the user turn that was current when it arrived.
pub run_completed_by_answer :
    (events : List Event) (file : Option Runtime)
    → is_completed (current file) ≡ false
    → is_completed (current (run events file)) ≡ true
    → Cause events file
unfolding run
run_completed_by_answer [] file h done = cc
run_completed_by_answer (ev ∷ events) file h done =
    elim (Bool-cases (is_completed (current (step ev file)))) [
      | inl now_done ↦ step-Cause ev events file h now_done
      | inr still_open ↦
          later ev events file (run_completed_by_answer events (step ev file) still_open done)
    ]
