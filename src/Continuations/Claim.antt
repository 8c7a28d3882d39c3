-- ===== src/Continuations/Claim.antt =====
-- `claim_due`: an idle session takes the continuation that is due.
pub mod Conditions
use Prim.Native.Nat.{max}
use awoki.Base.{
  ℕ, ◌+◌, ◌-◌, ◌/◌, Bool, true, false, not, ◌&&◌, ◌||◌, String, Option, none, some, nonempty, leb,
  text_equality, ◌==◌, if◌then◌else◌,
}
use awoki.Continuations.State.{
  Continuation, Status, claimed, ready, blocked, seconds, is_closed, is_claimed, is_ready, is_past,
  is_before, Reply, no_continuation, manual, scope_conflict, leased, due, unchanged, waits,
  became_blocked, public, Harness,
}

-- the session is in another project, or has left the one in which the chain began
abbrev pub is_elsewhere : Harness → Continuation → Bool
is_elsewhere h r =
    nonempty r.project_id
    && ((nonempty h.current_project && not (h.current_project == r.project_id))
        || (not (nonempty h.current_project) && nonempty r.origin_project_id))

-- `direction_reason`
abbrev pub direction_reason : Harness → Continuation → String
direction_reason h r =
    let current = h.fingerprint r.project_id in
    if not (nonempty r.direction_fingerprint)
    then "direction_binding_missing"
    else if not (nonempty current)
    then "direction_state_unavailable"
    else if not (current == r.direction_fingerprint)
    then "direction_changed"
    else ""

abbrev block : ℕ → String → Continuation → Continuation
block now reason r = record r { status = blocked; blocked_reason = reason; updated_at = now }

-- `max(1, int((moment - now).total_seconds()))`
abbrev pub seconds_left : ℕ → Option ℕ → ℕ
seconds_left now none = 1
seconds_left now (some t) = max 1 ((t - now) / 1000000)

-- a lease that ran out: the continuation can be claimed again
abbrev pub reopened : ℕ → Continuation → Continuation
reopened now r =
    if is_claimed r.status
    then record r {
      status = ready;
      claimed_at = none;
      lease_until = none;
      not_before = none;
      updated_at = now;
    }
    else r

-- the continuation, claimed
abbrev pub taken : ℕ → Continuation → Continuation
taken now r = record r {
  status = claimed;
  attempts = r.attempts + 1;
  claimed_at = some now;
  lease_until = some (now + seconds 600);
  updated_at = now;
}

-- from the test of the status on: the lease, if there was one, ran out
unfoldable pub claim_ready : Harness → ℕ → Continuation → Reply × Option Continuation
claim_ready h now r =
    let limit = block now "auto_resume_attempt_limit" r in
    let bound = record (block now (direction_reason h r) r) { lease_until = none } in
    if not (is_ready r.status)
    then (waits 0 (public r), some r)
    else if is_before now r.not_before
    then (waits (seconds_left now r.not_before) (public r), some r)
    else if leb 3 r.attempts
    then (became_blocked (public limit), some limit)
    else if nonempty (direction_reason h r)
    then (became_blocked (public bound), some bound)
    else (due (public (taken now r)), some (taken now r))

unfoldable pub claim_due : Harness → ℕ → Option Continuation → Reply × Option Continuation
claim_due h now none = (no_continuation, none)
claim_due h now (some r) =
    let late = block now "continuation_deadline_exceeded" r in
    if not r.auto_resume
    then (manual (public r), some r)
    else if is_closed r.status
    then (unchanged (public r), some r)
    else if is_elsewhere h r
    then (scope_conflict (public r), some r)
    else if is_past now r.deadline_at
    then (became_blocked (public late), some late)
    else if is_claimed r.status && is_before now r.lease_until
    then (leased (public r), some r)
    else claim_ready h now (reopened now r)
