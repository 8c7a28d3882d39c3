-- ===== src/Continuations/Events/Tests.antt =====
-- The continuation of one session, on a small example.
use awoki.Base.Int.{ℤ}
use awoki.Base.{
  ℕ, ◌≡◌, ◌↔◌, ◌≤◌, refl, ap, true, none, some, List, [], ◌∷◌, ok, strip, is_space, one_of, prefix,
  arith, ◌<◌,
}
use awoki.Continuations.State.{Continuation, due, public, is_due, ready, done, seconds, Harness}
use awoki.Continuations.{Request, schedule, admit, planned, normalize_project, release}
use awoki.Continuations.Texts.{clean_id, clean_text}
use awoki.Continuations.Claim.{taken, reopened, claim_ready, claim_due}
use awoki.Continuations.Claim.Conditions.{IsClaimable, claim_due_iff}
use awoki.Continuations.Poll.{Observation, is_terminal, poll_begin, read_job, poll_end}
use awoki.Continuations.Events.{
  Event, schedules, begins, ends, claims, releases, World, perform, run, resumptions,
}
use awoki.Continuations.Events.Closed.{closed_stays_closed, IsOver}
use awoki.Continuations.Events.Attempts.{AllResumed, deadline_of, chain_is_bounded}
use awoki.Continuations.Events.Lease.{lease_is_exclusive}
use awoki.Continuations.Events.Resume.{finished_job_resumes}

abbrev harness : Harness
harness = record {
  session_id = "ses_1";
  current_project = "demo";
  clean_project_id = λ s. some s;
  project_exists = λ s. true;
  identity = λ n. "cont_1";
  fingerprint = λ p. "fp";
}

abbrev request : Request
request = record {
  workflow = "";
  phase = "indexing  code";
  wait_tool = "code_index_refresh_status";
  wait_job_id = " job 1 ";
  wait_seconds = ℤ.pos 30;
  project_id = "demo";
  repo = "";
  source_id = "";
  next_action = "go   on";
  resume_goal = "";
  auto_resume = true;
}

abbrev completed : Observation
completed = record {
  status = "ok";
  job_status = some "completed";
  progress = ("phase", "done") ∷ ("secret", "x") ∷ [];
  retry_after_seconds = ℤ.pos 0;
  recommended_poll_after_seconds = ℤ.pos 0;
}

abbrev empty : World
empty = record { file = none; reading = [] }

abbrev finished : List (ℕ × Event)
finished =
    (0, schedules harness request)
    ∷ (seconds 30, begins)
    ∷ (seconds 31, ends 1 completed)
    ∷ (seconds 40, claims harness)
    ∷ []

admits : admit harness request ≡ ok ("generic", "demo", "fp")
unfolding admit normalize_project clean_id strip is_space one_of prefix
admits = refl

resumes_once : resumptions finished empty ≡ 1
unfolding perform resumptions schedule admit planned normalize_project clean_id clean_text
    poll_begin poll_end read_job claim_due claim_ready strip is_space one_of prefix
resumes_once = refl

completed_terminal : is_terminal completed ≡ true
unfolding one_of
completed_terminal = refl

finished_job_resumes_example : resumptions finished empty ≡ 1
unfolding planned
finished_job_resumes_example =
    finished_job_resumes harness request completed empty "generic" "demo" "fp" 0 (seconds 30)
      (seconds 31) (seconds 40) admits refl refl refl refl (omega arith) (omega arith)
      completed_terminal (omega arith)

-- a continuation that is ready to be claimed
abbrev job : Continuation
job = record {
  continuation_id = "cont_1";
  status = ready;
  workflow = "generic";
  phase = "indexing-code";
  project_id = "demo";
  origin_project_id = "demo";
  direction_fingerprint = "fp";
  repo = "";
  source_id = "";
  wait_tool = "code_index_refresh_status";
  wait_job_id = "job-1";
  not_before = none;
  deadline_at = some 172800000000;
  poll_after_seconds = 0;
  poll_count = 1;
  last_job_status = "completed";
  last_progress = [];
  next_action = "go on";
  resume_goal = "";
  auto_resume = true;
  generation = 1;
  attempts = 1;
  claimed_at = none;
  lease_until = none;
  blocked_reason = "";
  created_at = 0;
  updated_at = 0;
}

abbrev world : Continuation → World
world r = record { file = some r; reading = 1 ∷ [] }

claimable : claim_due harness 5 (some job) ≡ (due (public (taken 5 job)), some (taken 5 job))
unfolding claim_due claim_ready
claimable = refl

claim_due_iff_example :
    ((is_due (claim_due harness 5 (some job)).0 ≡ true) ↔ IsClaimable harness 5 job)
    × (is_due (claim_due harness 5 (some job)).0 ≡ true
        → (claim_due harness 5 (some job)).1 ≡ some (taken 5 (reopened 5 job)))
claim_due_iff_example = claim_due_iff harness 5 job

-- it is finalized while a poll of it is being read
abbrev late_events : List (ℕ × Event)
late_events =
    (10, ends 1 completed)
    ∷ (11, claims harness)
    ∷ (12, releases 1 (ℤ.pos 0) "failed")
    ∷ (13, claims harness)
    ∷ []

closed_stays_closed_example :
    IsOver (run late_events (world (record job { status = done }))).file
    × (resumptions late_events (world (record job { status = done })) ≡ 0)
closed_stays_closed_example =
    closed_stays_closed late_events (world (record job { status = done }))
      (refl, (refl, (refl, (refl, tt)))) refl

-- claimed, released, claimed again and again
abbrev retries : List (ℕ × Event)
retries =
    (5, claims harness)
    ∷ (6, releases 1 (ℤ.pos 2) "failed")
    ∷ (2000006, claims harness)
    ∷ (2000007, releases 1 (ℤ.pos 2) "failed")
    ∷ (4000007, claims harness)
    ∷ []

tries_twice : resumptions retries (world job) ≡ 2
unfolding perform resumptions claim_due claim_ready release clean_text
tries_twice = refl

chain_is_bounded_example :
    (resumptions retries (world job) ≤ 2)
    × AllResumed (λ now. now < 172800000000) retries (world job)
    × (deadline_of (run retries (world job)).file ≡ some 172800000000)
chain_is_bounded_example =
    chain_is_bounded 172800000000 retries (world job) (tt, (tt, (tt, (tt, (tt, tt))))) refl

lease_is_exclusive_example :
    resumptions ((7, claims harness) ∷ (8, begins) ∷ []) (perform 5 (claims harness) (world job))
    ≡ 0
lease_is_exclusive_example =
    lease_is_exclusive harness 5 job (1 ∷ []) ((7, claims harness) ∷ (8, begins) ∷ [])
      (ap (λ p. is_due p.0) claimable) ((omega arith, refl), ((omega arith, refl), tt))

keeps_deadline_of_its_chain :
    (schedule harness 9 request (some job)).1
    ≡ some (planned harness 9 request "generic" "demo" "fp" (some job))
unfolding schedule admit normalize_project clean_id strip is_space one_of prefix
keeps_deadline_of_its_chain = refl
