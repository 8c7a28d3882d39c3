-- ===== src/Continuations.antt =====
-- .harness/continuations.py: the continuation of a session that waits for a detached job. An operation
-- takes the continuation that the session's document holds (`none` where it holds none) and gives its
-- reply with the continuation that is left. `now` is the time; each operation runs under the session's
-- lock, except that `poll_due` reads the job between two locked parts, `poll_begin` and `poll_end`.
pub mod State
pub mod Texts
pub mod Claim
pub mod Poll
pub mod Events
use Prim.Native.Nat.{min, max}
use awoki.Base.Int.{ℤ, pos_part}
use awoki.Base.{
  ℕ, zero, ◌+◌, Bool, true, false, not, ◌&&◌, ◌||◌, String, Option, none, some, List, [], ◌∷◌,
  nonempty, strip, one_of, text_equality, number_equality, ◌==◌, if◌then◌else◌, Raises, ok, err,
  raise_if, ◌>>=◌, ◌>>◌,
}
use State.{
  Continuation, Status, waiting, done, cancelled, seconds, is_closed, is_claimed, Rejection,
  missing_session_id, unsupported_workflow, unsupported_wait_tool, wait_job_id_required,
  unknown_project, unmanaged, direction_state_unavailable, Reply, rejected, no_continuation,
  scheduled, superseded, released, finalized, was_cancelled, unchanged, report, public, Harness,
}
use Texts.{clean_id, clean_text}

-- `_ALLOWED_WAIT_TOOLS`
abbrev wait_tools : List String
wait_tools =
    "code_index_refresh_status" ∷ "code_vector_refresh_status" ∷ "repository_prepare_status" ∷ []

-- `_normalize_project`
unfoldable pub normalize_project : Harness → String → Raises Rejection String
normalize_project h project_id =
    let explicit = clean_id 120 project_id in
    if nonempty explicit
    then elim (h.clean_project_id explicit) [
      | none ↦ err unknown_project
      | some id ↦ if h.project_exists id then ok id else err unknown_project
    ]
    else ok h.current_project

-- the keyword arguments of `schedule`
pub record Request : Type 0 where
  pub workflow : String
  pub phase : String
  pub wait_tool : String
  pub wait_job_id : String
  pub wait_seconds : ℤ
  pub project_id : String
  pub repo : String
  pub source_id : String
  pub next_action : String
  pub resume_goal : String
  pub auto_resume : Bool

-- `max(MIN_WAIT_SECONDS, min(MAX_WAIT_SECONDS, ...))`
abbrev pub clamp_wait : ℤ → ℕ
clamp_wait n = max 2 (min 3600 (pos_part n))

abbrev or_generic : String → String
or_generic s = if nonempty s then s else "generic"

-- `same_chain`
abbrev pub same_chain : String → String → Option Continuation → Bool
same_chain workflow project none = false
same_chain workflow project (some prior) =
    prior.workflow == workflow && prior.project_id == project && not (is_closed prior.status)

abbrev pub next_generation : Option Continuation → ℕ
next_generation none = 1
next_generation (some prior) = prior.generation + 1

-- the prior continuation, where the chain goes on
abbrev pub chain : Bool → Option Continuation → Option Continuation
chain true prior = prior
chain false prior = none

abbrev pub or_deadline : ℕ → Option ℕ → Option ℕ
or_deadline now none = some (now + seconds 172800)
or_deadline now (some t) = some t

-- the continuation that `schedule` writes
unfoldable pub planned :
    Harness
    → ℕ
    → Request
    → (workflow project direction : String) → Option Continuation
    → Continuation
planned h now r workflow project direction file =
    let prior = chain (same_chain workflow project file) file in
    let wait = clamp_wait r.wait_seconds in
    record {
      continuation_id = h.identity (next_generation file);
      status = waiting;
      workflow = workflow;
      phase = clean_id 120 r.phase;
      project_id = project;
      origin_project_id = elim prior [ none ↦ h.current_project | some p ↦ p.origin_project_id ];
      direction_fingerprint = direction;
      repo = clean_id 160 r.repo;
      source_id = clean_id 160 r.source_id;
      wait_tool = clean_id 120 r.wait_tool;
      wait_job_id = clean_id 240 r.wait_job_id;
      not_before = some (now + seconds wait);
      deadline_at = or_deadline now (elim prior [ none ↦ none | some p ↦ p.deadline_at ]);
      poll_after_seconds = wait;
      poll_count = elim prior [ none ↦ 0 | some p ↦ p.poll_count ];
      last_job_status = "";
      last_progress = [];
      next_action = clean_text 1000 r.next_action;
      resume_goal = clean_text 1000 r.resume_goal;
      auto_resume = r.auto_resume;
      generation = next_generation file;
      attempts = elim prior [ none ↦ 0 | some p ↦ p.attempts ];
      claimed_at = none;
      lease_until = none;
      blocked_reason = "";
      created_at = elim prior [ none ↦ now | some p ↦ p.created_at ];
      updated_at = now;
    }

-- the guards of `schedule`: workflow, project and direction
unfoldable pub admit : Harness → Request → Raises Rejection (String × String × String)
admit h r = do
  raise_if (not (nonempty (strip h.session_id))) missing_session_id
  let workflow = or_generic (clean_id 80 (or_generic r.workflow))
  raise_if (not (one_of workflow ("repository-readiness" ∷ "generic" ∷ []))) unsupported_workflow
  raise_if (not (one_of (clean_id 120 r.wait_tool) wait_tools)) unsupported_wait_tool
  raise_if (not (nonempty (clean_id 240 r.wait_job_id))) wait_job_id_required
  project ← normalize_project h r.project_id
  raise_if (not (nonempty project)) unmanaged
  let direction = h.fingerprint project
  raise_if (not (nonempty direction)) direction_state_unavailable
  ok (workflow, project, direction)

abbrev pub scheduled_or :
    Harness
    → ℕ
    → Request
    → Option Continuation
    → Raises Rejection (String × String × String)
    → Reply × Option Continuation
scheduled_or h now r file (err reason) = (rejected reason, file)
scheduled_or h now r file (ok (workflow, project, direction)) =
    let next = planned h now r workflow project direction file in
    (scheduled (public next), some next)

unfoldable pub schedule : Harness → ℕ → Request → Option Continuation → Reply × Option Continuation
schedule h now r file = scheduled_or h now r file (admit h r)

unfoldable pub status : Harness → Option Continuation → Reply
status h file =
    let answer : Reply = elim file [
      | none ↦ no_continuation
      | some r ↦
          report h.current_project
            (nonempty r.project_id
              && nonempty h.current_project
              && not (h.current_project == r.project_id))
            (public r)
    ] in
    if not (nonempty (strip h.session_id)) then rejected missing_session_id else answer

-- `max(MIN_WAIT_SECONDS, min(300, int(retry_seconds or 60)))`
abbrev retry_wait : ℤ → ℕ
retry_wait (ℤ.pos zero) = 60
retry_wait n = max 2 (min 300 (pos_part n))

-- `release` of the continuation of a generation
unfoldable pub release :
    ℕ
    → (generation : ℕ) → (retry_seconds : ℤ) → (reason : String) → Option Continuation
    → Reply × Option Continuation
release now generation retry_seconds reason none = (no_continuation, none)
release now generation retry_seconds reason (some r) =
    let next = record r {
      status = Status.ready;
      lease_until = none;
      claimed_at = none;
      blocked_reason = clean_text 200 reason;
      updated_at = now;
      not_before = some (now + seconds (retry_wait retry_seconds));
    } in
    if not (r.generation == generation)
    then (superseded (public r), some r)
    else if not (is_claimed r.status)
    then (unchanged (public r), some r)
    else (released (public next), some next)

-- a continuation that is over, for a reason
abbrev closed : ℕ → Status → String → Continuation → Continuation
closed now status reason r = record r {
  status = status;
  blocked_reason = clean_text 200 reason;
  lease_until = none;
  updated_at = now;
}

unfoldable pub finalize : ℕ → String → Option Continuation → Reply × Option Continuation
finalize now reason none = (no_continuation, none)
finalize now reason (some r) =
    (finalized (public (closed now done reason r)), some (closed now done reason r))

unfoldable pub cancel : ℕ → String → Option Continuation → Reply × Option Continuation
cancel now reason none = (no_continuation, none)
cancel now reason (some r) =
    (was_cancelled (public (closed now cancelled reason r)), some (closed now cancelled reason r))

-- the sessions whose document `pending` reports: the session's name is known, and its continuation resumes
-- by itself and is not over
unfoldable pub pending : List (String × Option Continuation) → List (String × Continuation)
pending [] = []
pending ((session, none) ∷ rows) = pending rows
pending ((session, some r) ∷ rows) =
    if nonempty session && r.auto_resume && not (is_closed r.status)
    then (session, public r) ∷ pending rows
    else pending rows
