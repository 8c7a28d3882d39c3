-- ===== src/AgentRuntime/Anomalies.antt =====
-- How long an anomaly stays open, and what a repeated delivery of an event does.
use Prim.Native.String.{count}
use awoki.Base.{
  ℕ, ◌+◌, ◌≤◌, ◌<◌, ◌≡◌, ◌≢◌, refl, ap, Bool, true, false, ◌&&◌, String, Option, none, some, List,
  [], ◌∷◌, nonempty, strip, prefix, prefix_of_short, nonempty-prefix, count-prefix-le, Bool-cases,
  inl, inr, eq_iff, text_equality, ◌==◌, arith,
}
use awoki.AgentRuntime.State.{Runtime, load, RuntimeState, ok, runtime_state}
use awoki.AgentRuntime.{
  TerminalEvent, is_anomaly, classify, terminal_of, settle, after_terminal, terminal_turn,
  after_user, user_turn, is_repeated, is_current,
}

-- An open anomaly that no user turn has followed.
pub record IsStuck (s : Runtime) : Type 0 where
  pub unresolved : s.unresolved_anomaly ≡ true
  pub unanswered : nonempty s.last_user_recovery_message_id ≡ false

abbrev pub FileIsStuck : Option Runtime → Type 0
FileIsStuck none = ⊥
FileIsStuck (some s) = IsStuck s

after_terminal-IsStuck :
    (now : String) (e : TerminalEvent) (s : Runtime) → IsStuck s → IsStuck (after_terminal now e s)
unfolding after_terminal settle
after_terminal-IsStuck now e s h = ground arith

terminal_turn-IsStuck :
    (now sid : String) (e : TerminalEvent) (file : Option Runtime)
    → FileIsStuck file
    → FileIsStuck (terminal_turn now sid e file).1
unfolding terminal_turn
terminal_turn-IsStuck now sid e none h = absurd h
terminal_turn-IsStuck now sid e (some s) h = ground (arith, after_terminal-IsStuck now e s h)

-- the turns of one session that arrive while the user says nothing
unfoldable pub run_terminals :
    String → List (String × TerminalEvent) → Option Runtime → Option Runtime
run_terminals sid [] file = file
run_terminals sid ((now, e) ∷ events) file =
    run_terminals sid events (terminal_turn now sid e file).1

run_terminals-IsStuck :
    (sid : String) (events : List (String × TerminalEvent)) (file : Option Runtime)
    → FileIsStuck file
    → FileIsStuck (run_terminals sid events file)
unfolding run_terminals
run_terminals-IsStuck sid [] file h = h
run_terminals-IsStuck sid ((now, e) ∷ events) file h =
    run_terminals-IsStuck sid events (terminal_turn now sid e file).1
      (terminal_turn-IsStuck now sid e file h)

after_anomaly-IsStuck :
    (now : String) (e : TerminalEvent) (s : Runtime)
    → is_anomaly (classify e) ≡ true
    → IsStuck (after_terminal now e s)
unfolding after_terminal settle
after_anomaly-IsStuck now e s bad = rw bad (record { unresolved = refl; unanswered = refl })

-- what the file's state is called; a missing file is that of a new session
abbrev pub file_state : Option Runtime → RuntimeState
file_state none = RuntimeState.unknown
file_state (some s) = runtime_state s

IsStuck-ne-ok : (s : Runtime) → IsStuck s → runtime_state s ≢ ok
IsStuck-ne-ok s h = ground arith

FileIsStuck-ne-ok : (file : Option Runtime) → FileIsStuck file → file_state file ≢ ok
FileIsStuck-ne-ok none h = absurd h
FileIsStuck-ne-ok (some s) h = IsStuck-ne-ok s h

-- the file's last turn has the identity of the event
abbrev pub is_known : TerminalEvent → Option Runtime → Bool
is_known e none = "" == e.message_id
is_known e (some s) = is_repeated e.message_id s.last_terminal_turn

repeated-eq-known :
    (now : String) (e : TerminalEvent) (file : Option Runtime)
    → is_repeated e.message_id (load now file).last_terminal_turn ≡ is_known e file
repeated-eq-known now e none = refl
repeated-eq-known now e (some s) = refl

module _ (now sid : String) (e : TerminalEvent) (file : Option Runtime) where
  -- the conditions under which `terminal_turn` goes on to classify the turn
  abbrev pub IsRecorded : Type 0
  IsRecorded =
      (nonempty (strip sid) ≡ true)
      × (nonempty (strip e.message_id) ≡ true)
      × (e.is_summary ≡ false)
      × (is_known e file ≡ false)

  terminal_turn_recorded :
      IsRecorded → (terminal_turn now sid e file).1 ≡ some (after_terminal now e (load now file))
  unfolding terminal_turn
  terminal_turn_recorded (has_session, has_id, no_summary, is_new) =
      rw (has_session, has_id, repeated-eq-known now e file, is_new, no_summary)

  terminal_turn_repeated : is_known e file ≡ true → (terminal_turn now sid e file).1 ≡ file
  unfolding terminal_turn
  terminal_turn_repeated old = ground (arith, repeated-eq-known now e file)

  terminal_turn_refused :
      (nonempty (strip sid) && nonempty (strip e.message_id)) ≡ false
      → (terminal_turn now sid e file).1 ≡ file
  unfolding terminal_turn
  terminal_turn_refused h = ground arith

-- After an abnormal turn that is recorded (it has a session and an identity, and is neither a summary
-- nor a repetition), no number of further terminal turns makes the session `ok`: that takes a user turn.
pub anomaly_outlives_turns :
    (now sid : String) (e : TerminalEvent) (file : Option Runtime)
    (events : List (String × TerminalEvent))
    → IsRecorded now sid e file
    → is_anomaly (classify e) ≡ true
    → file_state (run_terminals sid events (terminal_turn now sid e file).1) ≢ ok
anomaly_outlives_turns now sid e file events new bad = FileIsStuck-ne-ok _ (
    run_terminals-IsStuck sid events _ (
      rw (terminal_turn_recorded now sid e file new)
        (after_anomaly-IsStuck now e (load now file) bad)))

after_terminal-last :
    (now : String) (e : TerminalEvent) (s : Runtime)
    → (after_terminal now e s).last_terminal_turn ≡ some (terminal_of now e (some (classify e)))
unfolding after_terminal settle
after_terminal-last now e s = ground arith

-- once recorded, a turn with a short identity is known again
after_terminal-repeated :
    (now : String) (e : TerminalEvent) (s : Runtime)
    → count e.message_id ≤ 240
    → is_repeated e.message_id (after_terminal now e s).last_terminal_turn ≡ true
after_terminal-repeated now e s short = rw (after_terminal-last now e s) (
    unfold terminal_of in
    (eq_iff (prefix 240 e.message_id) e.message_id).1 (prefix_of_short 240 e.message_id short))

-- The host may deliver a terminal turn again: with an identity of at most 240 characters the second
-- delivery of a turn that is no summary changes nothing.
pub terminal_turn_again :
    (now now' sid : String) (e : TerminalEvent) (file : Option Runtime)
    → count e.message_id ≤ 240
    → e.is_summary ≡ false
    → (terminal_turn now' sid e (terminal_turn now sid e file).1).1
      ≡ (terminal_turn now sid e file).1
terminal_turn_again now now' sid e file short no_summary =
    elim (Bool-cases (nonempty (strip sid) && nonempty (strip e.message_id))) [
      | inr refused ↦ terminal_turn_refused now' sid e _ refused
      | inl valid ↦ elim (Bool-cases (is_known e file)) [
        | inl old ↦
            rw (terminal_turn_repeated now sid e file old)
              (terminal_turn_repeated now' sid e file old)
        | inr new ↦
            rw (terminal_turn_recorded now sid e file (ground arith, ground arith, no_summary, new))
              (terminal_turn_repeated now' sid e _
                (after_terminal-repeated now e (load now file) short))
      ]
    ]

abbrev pub anomalies : Option Runtime → ℕ
anomalies none = 0
anomalies (some s) = s.anomaly_count

prefix-ne_long : (n : ℕ) (s : String) → n < count s → (prefix n s == s) ≡ false
prefix-ne_long n s long = elim (Bool-cases (prefix n s == s)) [
  | inl same ↦
      absurd (omega (arith, count-prefix-le n s, ap count ((eq_iff (prefix n s) s).0 same)))
  | inr differ ↦ differ
]

after_anomaly-count :
    (now : String) (e : TerminalEvent) (s : Runtime)
    → is_anomaly (classify e) ≡ true
    → (after_terminal now e s).anomaly_count ≡ s.anomaly_count + 1
unfolding after_terminal settle
after_anomaly-count now e s bad = rw bad

after_terminal-unknown :
    (now : String) (e : TerminalEvent) (s : Runtime)
    → 240 < count e.message_id
    → is_repeated e.message_id (after_terminal now e s).last_terminal_turn ≡ false
after_terminal-unknown now e s long =
    rw (after_terminal-last now e s) (unfold terminal_of in prefix-ne_long 240 e.message_id long)

-- An abnormal turn whose identity is longer than 240 characters is stored under a clipped identity, so
-- that a second delivery is not recognised: it counts as one more anomaly.
pub long_identity_counts_twice :
    (now now' sid : String) (e : TerminalEvent) (s : Runtime)
    → 240 < count e.message_id
    → IsRecorded now sid e (some s)
    → is_anomaly (classify e) ≡ true
    → anomalies (terminal_turn now' sid e (terminal_turn now sid e (some s)).1).1
      ≡ s.anomaly_count + 2
long_identity_counts_twice now now' sid e s long new bad =
    let t = after_terminal now e s in
    rw (terminal_turn_recorded now sid e (some s) new) (
      rw
        (terminal_turn_recorded now' sid e (some t)
          (new.0, new.1, new.2, after_terminal-unknown now e s long))
        (omega (arith, after_anomaly-count now' e t bad, after_anomaly-count now e s bad)))

-- the user turn is the one that the file holds as current
abbrev pub is_same_user : String → Option Runtime → Bool
is_same_user id none = false
is_same_user id (some s) = is_current (prefix 240 id) s.current_turn

module _ (now sid id : String) (session : nonempty (strip sid) ≡ true)
    (named : nonempty id ≡ true) where
  -- A user turn that is not the current one reopens the session, whatever was completed or recovered before.
  pub user_turn_reopens :
      (file : Option Runtime)
      → is_same_user id file ≡ false
      → file_state (user_turn now sid id file).1 ≡ RuntimeState.incomplete
  unfolding user_turn after_user
  user_turn_reopens none other = ground arith
  user_turn_reopens (some s) other = ground arith

  user_turn_repeated :
      (file : Option Runtime) → is_same_user id file ≡ true → (user_turn now sid id file).1 ≡ file
  unfolding user_turn
  user_turn_repeated none same = cc
  user_turn_repeated (some s) same = ground (arith, nonempty-prefix 239 id)

  user_turn_is_current :
      (file : Option Runtime) → is_same_user id (user_turn now sid id file).1 ≡ true
  unfolding user_turn after_user
  user_turn_is_current none = ground (arith, eq_iff (prefix 240 id) (prefix 240 id))
  user_turn_is_current (some s) = ground (arith, eq_iff (prefix 240 id) (prefix 240 id))

-- The host may deliver a user turn again: the second delivery of a named turn changes nothing, however
-- long its name is, and so counts no further attempt to recover.
pub user_turn_again :
    (now now' sid id : String) (file : Option Runtime)
    → nonempty (strip sid) ≡ true
    → nonempty id ≡ true
    → (user_turn now' sid id (user_turn now sid id file).1).1 ≡ (user_turn now sid id file).1
user_turn_again now now' sid id file session named =
    user_turn_repeated now' sid id session named _
      (user_turn_is_current now sid id session named file)
