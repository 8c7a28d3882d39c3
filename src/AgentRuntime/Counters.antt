-- ===== src/AgentRuntime/Counters.antt =====
-- What the counters of a session's file say of one another.
use awoki.Base.{
  ℕ, ◌+◌, ◌≤◌, ◌≡◌, Bool, true, false, ◌&&◌, String, Option, none, some, List, [], ◌∷◌, nonempty,
  is_some, prefix, Bool-cases, Option-cases, inl, inr, arith, if◌then◌else◌,
}
use awoki.AgentRuntime.State.{TerminalTurn, Runtime, base, load}
use awoki.AgentRuntime.{
  TerminalEvent, is_anomaly, classify, attributed, terminal_of, settle, after_terminal,
  terminal_turn, after_user, user_turn,
}
use awoki.AgentRuntime.Runs.{Event, terminal, user, step, run}

-- one, while an attempt to recover is under way
abbrev pending : Runtime → ℕ
pending s = if s.unresolved_anomaly && nonempty s.last_user_recovery_message_id then 1 else 0

abbrev open_anomaly : Runtime → ℕ
open_anomaly s = if s.unresolved_anomaly then 1 else 0

pub record IsCounted (s : Runtime) : Type 0 where
  -- each recovery was an attempt of its own
  pub attempts : s.recovered_count + pending s ≤ s.manual_recovery_attempts
  -- each recovery closed an anomaly of its own
  pub anomalies : s.recovered_count + open_anomaly s ≤ s.anomaly_count
  -- an open anomaly is on record
  pub kept : s.unresolved_anomaly ≡ true → is_some s.last_anomaly ≡ true
  -- nothing recovers by itself
  pub manual : s.automatic_recovery_attempts ≡ 0

abbrev pub FileIsCounted : Option Runtime → Type 0
FileIsCounted none = Unit
FileIsCounted (some s) = IsCounted s

IsCounted-base : (now : String) → IsCounted (base now)
IsCounted-base now = ground arith

IsCounted-load :
    (now : String) (file : Option Runtime) → FileIsCounted file → IsCounted (load now file)
IsCounted-load now none h = IsCounted-base now
IsCounted-load now (some s) h = h

settle-IsCounted :
    (now : String) (anomaly matches : Bool) (t : TerminalTurn) (s : Runtime)
    → IsCounted s
    → IsCounted (settle now anomaly matches t s)
unfolding settle
settle-IsCounted now true matches t s h = ground arith
settle-IsCounted now false false t s h = record {
  attempts = h.attempts;
  anomalies = h.anomalies;
  kept = h.kept;
  manual = h.manual;
}
settle-IsCounted now false true t s h = elim (Bool-cases s.unresolved_anomaly) [
  | inl unresolved ↦ elim (Option-cases s.last_anomaly) [
    | inl missing ↦ cc (h.kept unresolved)
    | inr (last, found) ↦ ground (arith, h.kept)
  ]
  | inr resolved ↦ ground (arith, h.kept)
]

after_terminal-IsCounted :
    (now : String) (e : TerminalEvent) (s : Runtime)
    → IsCounted s
    → IsCounted (after_terminal now e s)
unfolding after_terminal
after_terminal-IsCounted now e s h =
    settle-IsCounted now (is_anomaly (classify e)) (attributed e s.current_turn)
      (terminal_of now e (some (classify e))) _
      (record { attempts = h.attempts; anomalies = h.anomalies; kept = h.kept; manual = h.manual })

after_user-IsCounted :
    (now id : String) (s : Runtime) → IsCounted s → IsCounted (after_user now id s).0
unfolding after_user
after_user-IsCounted now id s h = elim (Bool-cases s.unresolved_anomaly) [
  | inl unresolved ↦ ground (arith, h.kept unresolved)
  | inr resolved ↦ ground arith
]

terminal_turn-IsCounted :
    (now sid : String) (e : TerminalEvent) (file : Option Runtime)
    → FileIsCounted file
    → FileIsCounted (terminal_turn now sid e file).1
unfolding terminal_turn
terminal_turn-IsCounted now sid e file h =
    let s = load now file in
    ground (
      arith,
      IsCounted-load now file h,
      after_terminal-IsCounted now e s (IsCounted-load now file h),
    )

user_turn-IsCounted :
    (now sid id : String) (file : Option Runtime)
    → FileIsCounted file
    → FileIsCounted (user_turn now sid id file).1
unfolding user_turn
user_turn-IsCounted now sid id file h =
    let s = load now file in
    ground (arith, after_user-IsCounted now (prefix 240 id) s (IsCounted-load now file h))

-- Every terminal turn and every user turn, whatever its arguments, keeps the relations of `IsCounted`.
pub step-IsCounted :
    (ev : Event) (file : Option Runtime) → FileIsCounted file → FileIsCounted (step ev file)
unfolding step
step-IsCounted (terminal now sid e) file h = terminal_turn-IsCounted now sid e file h
step-IsCounted (user now sid id) file h = user_turn-IsCounted now sid id file h

-- After any events from no file: there are at most as many recoveries as attempts by the user (one
-- attempt more, while one is under way), at most as many as anomalies, an open anomaly is on record,
-- and nothing has recovered by itself.
pub run-IsCounted :
    (events : List Event) (file : Option Runtime)
    → FileIsCounted file
    → FileIsCounted (run events file)
unfolding run
run-IsCounted [] file h = h
run-IsCounted (ev ∷ events) file h = run-IsCounted events (step ev file) (step-IsCounted ev file h)
