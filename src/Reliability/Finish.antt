-- ===== src/Reliability/Finish.antt =====
-- `finish_run` and `aggregate_verdict`.
pub mod Passing
pub mod Verdicts
use awoki.Base.{
  Bool, true, false, not, ◌&&◌, ◌||◌, String, Option, none, some, List, [], ◌∷◌, ◌++◌, map, filter,
  any, all, is_nonempty, is_some, nonempty, strip, lower, text_equality, ◌==◌, if◌then◌else◌,
  Raises, ok, err, ◌>>=◌,
}
use awoki.ClaimGraph.Gate
use awoki.ClaimGraph.Gate.{Gate, GateStatus}
use awoki.Reliability.State.{
  RunStatus, Check, CheckStatus, Node, Checkpoint, CheckpointResult, contradicted, verified,
  verified_with_findings, Run, RunError, bad_requested_status, no_component,
}
use awoki.Reliability.Records.{claim_gate, write_all}

-- membership in `_ALLOWED_FINAL_STATUS`
abbrev pub final_status_of : String → Option RunStatus
final_status_of s =
    if s == "passed"
    then some RunStatus.passed
    else if s == "failed"
    then some RunStatus.failed
    else if s == "blocked"
    then some RunStatus.blocked
    else if s == "reliably-paused"
    then some RunStatus.reliably_paused
    else none

abbrev is_failed_check : Check → Bool
is_failed_check c = elim c.status [ CheckStatus.failed ↦ true | _ ↦ false ]

abbrev is_missing_check : Check → Bool
is_missing_check c = elim c.status [
  | CheckStatus.blocked ↦ true
  | CheckStatus.skipped ↦ true
  | _ ↦ false
]

abbrev pub required_checks : {V : Type 0} → Run V → List Check
required_checks run = filter (λ c. c.required) run.checks

abbrev pub required_assessments : {V : Type 0} → Run V → List Node
required_assessments run = filter (λ n. n.required) run.assessments

-- `"blocked" if requested != "reliably-paused" else "reliably-paused"`
abbrev held : RunStatus → RunStatus
held RunStatus.reliably_paused = RunStatus.reliably_paused
held _ = RunStatus.blocked

abbrev is_contradicted : Option Checkpoint → Bool
is_contradicted none = false
is_contradicted (some c) = elim c.result [ contradicted ↦ true | _ ↦ false ]

-- membership in `_PASSING_CHECKPOINT_RESULTS`
abbrev pub is_passing : Option Checkpoint → Bool
is_passing none = false
is_passing (some c) = elim c.result [ verified ↦ true | verified_with_findings ↦ true | _ ↦ false ]

abbrev pub is_gate_failed : GateStatus → Bool
is_gate_failed GateStatus.failed = true
is_gate_failed _ = false

abbrev pub is_gate_blocked : GateStatus → Bool
is_gate_blocked GateStatus.blocked = true
is_gate_blocked _ = false

-- `requested in {"failed", "blocked", "reliably-paused"}`, else passed: every other request is "passed"
unfoldable pub final_status : {V : Type 0} → RunStatus → Run V → GateStatus → RunStatus
final_status requested run gate_status =
    let required = required_checks run in
    let has_assessments = is_nonempty (required_assessments run) in
    let verification = run.latest_verification_checkpoint in
    if has_assessments && (run.verification_stale || not (is_some verification))
    then held requested
    else if has_assessments && is_contradicted verification
    then RunStatus.failed
    else if has_assessments && not (is_passing verification)
    then held requested
    else if is_gate_failed gate_status
    then RunStatus.failed
    else if is_gate_blocked gate_status
    then held requested
    else if is_nonempty (filter is_failed_check required)
    then RunStatus.failed
    else if is_nonempty (filter is_missing_check required)
    then held requested
    else requested

abbrev pub finish :
    {V : Type 0} → (V → String) → Option RunStatus → List String → Run V → Raises RunError (Run V)
finish canon none risks run = err bad_requested_status
finish canon (some requested) risks run = do
  judged ← claim_gate canon none run
  write_all canon (record run {
    claim_gate = some judged;
    status = final_status requested run judged.status;
    requested_status = some requested;
    risks = filter nonempty (map strip risks);
  })

unfoldable pub finish_run :
    {V : Type 0} → (V → String) → String → List String → Run V → Raises RunError (Run V)
finish_run canon requested_status risks run =
    finish canon (final_status_of (lower (strip requested_status))) risks run

pub data Verdict : Type 0 where
  passed not_passed blocked incomplete not_applicable : Verdict

-- `reliability_verdict`
abbrev pub reliability_verdict : RunStatus → Verdict
reliability_verdict RunStatus.passed = passed
reliability_verdict RunStatus.failed = not_passed
reliability_verdict RunStatus.blocked = blocked
reliability_verdict RunStatus.reliably_paused = blocked
reliability_verdict RunStatus.in_progress = incomplete

-- what `acceptance_runs.status` reports of an acceptance run, each key "" where it is missing
pub record AcceptanceStatus : Type 0 where
  pub status : String
  pub run_status : String
  pub ledger_outcome : String

-- `acceptance_verdict`; `none` is an empty report
unfoldable pub acceptance_verdict : Option AcceptanceStatus → Verdict
acceptance_verdict none = not_applicable
acceptance_verdict (some run) =
    let run_status = lower (if nonempty run.run_status then run.run_status else run.status) in
    let outcome = lower run.ledger_outcome in
    if run.status == "none"
    then not_applicable
    else if run.status == "migration_blocked"
    then blocked
    else if run_status == "running"
    then incomplete
    else if outcome == "complete"
    then passed
    else if outcome == "not_passed"
    then not_passed
    else incomplete

abbrev is_verdict : Verdict → Verdict → Bool
is_verdict passed passed = true
is_verdict not_passed not_passed = true
is_verdict blocked blocked = true
is_verdict incomplete incomplete = true
is_verdict not_applicable not_applicable = true
is_verdict _ _ = false

-- the ladder over `verdicts`
unfoldable pub overall : List Verdict → Verdict
overall verdicts =
    if any (is_verdict not_passed) verdicts
    then not_passed
    else if any (is_verdict blocked) verdicts
    then blocked
    else if any (is_verdict incomplete) verdicts
    then incomplete
    else if is_nonempty verdicts && all (is_verdict not_applicable) verdicts
    then not_applicable
    else passed

-- `verdicts`: those of the component ledgers that the caller names
abbrev pub components : Option RunStatus → Option (Option AcceptanceStatus) → List Verdict
components reliability_run acceptance_run =
    (elim reliability_run [ none ↦ [] | some status ↦ reliability_verdict status ∷ [] ])
    ++ (elim acceptance_run [ none ↦ [] | some run ↦ acceptance_verdict run ∷ [] ])

-- `aggregate_verdict`
unfoldable pub aggregate_verdict :
    Option RunStatus → Option (Option AcceptanceStatus) → Raises RunError Verdict
aggregate_verdict reliability_run acceptance_run =
    if is_nonempty (components reliability_run acceptance_run)
    then ok (overall (components reliability_run acceptance_run))
    else err no_component
