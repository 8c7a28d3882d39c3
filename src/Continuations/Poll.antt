-- ===== src/Continuations/Poll.antt =====
-- `poll_due`: the job that the continuation waits for is read without the model. `poll_begin` is the part
-- up to the read, under the lock, and `poll_end` the part behind it, under the lock again: other
-- operations may come between them.
use awoki.Base.Int.{ℤ}
use awoki.Base.{
  ℕ, ◌+◌, Bool, false, not, ◌||◌, String, Option, none, some, List, [], ◌∷◌, filter, nonempty,
  one_of, text_equality, number_equality, ◌==◌, if◌then◌else◌,
}
use awoki.Continuations.State.{
  Continuation, waiting, ready, blocked, seconds, is_waiting, is_past, is_before, Reply,
  no_continuation, manual, superseded, unchanged, waits, became_blocked, polled, public,
}
use awoki.Continuations.{clamp_wait}
use awoki.Continuations.Claim.{seconds_left}

-- what `_poll_job` gives: `none` where the answer holds no job
pub record Observation : Type 0 where
  pub status : String
  pub job_status : Option String
  pub progress : List (String × String)
  pub retry_after_seconds : ℤ
  pub recommended_poll_after_seconds : ℤ

-- what the first part comes to: an answer, or a read for a generation
pub data Begun : Type 0 where
  answered : Reply → Begun
  reads : (generation : ℕ) → Begun

unfoldable pub poll_begin : ℕ → Option Continuation → Begun × Option Continuation
poll_begin now none = (answered no_continuation, none)
poll_begin now (some r) =
    let late = record r {
      status = blocked;
      blocked_reason = "continuation_deadline_exceeded";
      updated_at = now;
    } in
    if not r.auto_resume
    then (answered (manual (public r)), some r)
    else if not (is_waiting r.status)
    then (answered (unchanged (public r)), some r)
    else if is_past now r.deadline_at
    then (answered (became_blocked (public late)), some late)
    else if is_before now r.not_before
    then (answered (waits (seconds_left now r.not_before) (public r)), some r)
    else (reads r.generation, some r)

abbrev or_unknown : String → String
or_unknown s = if nonempty s then s else "unknown"

-- `str(job.get("status") or observed.get("status") or "unknown")`
abbrev pub observed_status : Observation → String
observed_status o = elim o.job_status [
  | none ↦ or_unknown o.status
  | some s ↦ if nonempty s then s else or_unknown o.status
]

-- the job is over, or cannot be found
abbrev pub is_terminal : Observation → Bool
is_terminal o =
    one_of (observed_status o)
      ("completed" ∷ "blocked" ∷ "failed" ∷ "cancelled" ∷ "interrupted" ∷ [])
    || one_of o.status ("not_found" ∷ "rejected" ∷ [])

-- the metrics that are kept
abbrev progress_keys : List String
progress_keys =
    "phase" ∷ "progress_percent" ∷ "elapsed_seconds" ∷ "files_total" ∷ "files_processed"
    ∷ "files_parsed" ∷ "files_reused" ∷ "files_removed" ∷ "chunks_total" ∷ "chunks_ready"
    ∷ "vectors_ready" ∷ "vectors_remaining" ∷ "vectors_persisted" ∷ "batches_total"
    ∷ "batches_completed" ∷ "current_repository" ∷ "current_source" ∷ "current_path" ∷ "outcome"
    ∷ "scope_type" ∷ "scope_id" ∷ "mode" ∷ "child_kind" ∷ "child_job_id" ∷ "reason" ∷ []

abbrev is_zero : ℤ → Bool
is_zero (ℤ.pos n) = n == 0
is_zero (ℤ.negsuc _) = false

-- the first that is not 0, of the job's two hints, the last wait and 30
abbrev recommended : Observation → ℕ → ℤ
recommended o wait =
    if not (is_zero o.retry_after_seconds)
    then o.retry_after_seconds
    else if not (is_zero o.recommended_poll_after_seconds)
    then o.recommended_poll_after_seconds
    else if wait == 0
    then ℤ.pos 30
    else ℤ.pos wait

-- the continuation with what was read
unfoldable pub read_job : ℕ → Observation → Continuation → Continuation
read_job now o r =
    let next = clamp_wait (recommended o r.poll_after_seconds) in
    let seen = record r {
      last_job_status = observed_status o;
      last_progress = filter (λ entry. one_of entry.0 progress_keys) o.progress;
      poll_count = r.poll_count + 1;
      updated_at = now;
    } in
    if is_terminal o
    then record seen { status = ready; not_before = none; poll_after_seconds = 0 }
    else record seen {
      status = waiting;
      poll_after_seconds = next;
      not_before = some (now + seconds next);
    }

unfoldable pub poll_end : ℕ → ℕ → Observation → Option Continuation → Reply × Option Continuation
poll_end now generation o none = (no_continuation, none)
poll_end now generation o (some r) =
    if not (r.generation == generation)
    then (superseded (public r), some r)
    else if not (is_waiting r.status)
    then (unchanged (public r), some r)
    else (polled (public (read_job now o r)), some (read_job now o r))
