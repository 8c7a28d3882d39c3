-- ===== src/Continuations/State.antt =====
-- The continuation of a session (`schedule` makes it), as a record. A point in time is a number of
-- microseconds, `none` where the text is empty.
use awoki.Base.{ℕ, ◌*◌, Bool, String, Option, none, some, List, ltb, leb}

pub data Status : Type 0 where
  waiting ready claimed done cancelled blocked : Status

pub record Continuation : Type 0 where
  pub continuation_id : String
  pub status : Status
  pub workflow : String
  pub phase : String
  pub project_id : String
  pub origin_project_id : String
  pub direction_fingerprint : String
  pub repo : String
  pub source_id : String
  pub wait_tool : String
  pub wait_job_id : String
  pub not_before : Option ℕ
  pub deadline_at : Option ℕ
  pub poll_after_seconds : ℕ
  pub poll_count : ℕ
  pub last_job_status : String
  pub last_progress : List (String × String)
  pub next_action : String
  pub resume_goal : String
  pub auto_resume : Bool
  pub generation : ℕ
  pub attempts : ℕ
  pub claimed_at : Option ℕ
  pub lease_until : Option ℕ
  pub blocked_reason : String
  pub created_at : ℕ
  pub updated_at : ℕ

-- `timedelta(seconds=n)`
abbrev pub seconds : ℕ → ℕ
seconds n = 1000000 * n

-- `state_name in {"done", "cancelled", "blocked"}`
abbrev pub is_closed : Status → Bool
is_closed Status.done = Bool.true
is_closed Status.cancelled = Bool.true
is_closed Status.blocked = Bool.true
is_closed _ = Bool.false

abbrev pub is_waiting : Status → Bool
is_waiting Status.waiting = Bool.true
is_waiting _ = Bool.false

abbrev pub is_ready : Status → Bool
is_ready Status.ready = Bool.true
is_ready _ = Bool.false

abbrev pub is_claimed : Status → Bool
is_claimed Status.claimed = Bool.true
is_claimed _ = Bool.false

-- `now >= moment`, `now < moment` for a point in time that may be missing
abbrev pub is_past : ℕ → Option ℕ → Bool
is_past now none = Bool.false
is_past now (some t) = leb t now

abbrev pub is_before : ℕ → Option ℕ → Bool
is_before now none = Bool.false
is_before now (some t) = ltb now t

-- why a call is rejected
pub data Rejection : Type 0 where
  missing_session_id unsupported_workflow unsupported_wait_tool wait_job_id_required : Rejection
  unknown_project unmanaged direction_state_unavailable : Rejection

-- the replies; every one but the first two and `rejected` shows the continuation, without the binding
-- to a direction (`_public`)
pub data Reply : Type 0 where
  rejected : Rejection → Reply
  no_continuation : Reply
  scheduled manual superseded scope_conflict leased due released finalized was_cancelled :
      Continuation → Reply
  -- the status of the continuation, which is left as it is
  unchanged : Continuation → Reply
  -- it waits for a point in time, a number of seconds away
  waits : ℕ → Continuation → Reply
  became_blocked : Continuation → Reply
  polled : Continuation → Reply
  report : String → Bool → Continuation → Reply

-- the reply hands the continuation out
abbrev pub is_due : Reply → Bool
is_due (Reply.due r) = Bool.true
is_due _ = Bool.false

-- `_public`
abbrev pub public : Continuation → Continuation
public r = record r { direction_fingerprint = "" }

-- What the rest of the harness says at a call: the session's name and its current project ("" for none),
-- `clean_project_id` (`none` where it raises), `project_exists`, the hash that names a generation, and the
-- fingerprint of a project's saved direction ("" where it is unknown).
pub record Harness : Type 0 where
  pub session_id : String
  pub current_project : String
  pub clean_project_id : String → Option String
  pub project_exists : String → Bool
  pub identity : ℕ → String
  pub fingerprint : String → String
