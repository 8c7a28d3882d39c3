-- ===== src/Reliability/Tests.antt =====
-- A run from its start to its end, and the theorems at concrete runs. Texts stand for values.
mod Assessments
mod Checkpoints
use awoki.Base.Int.{pos}
use awoki.Base.Member.{In}
use awoki.Base.Groups.{group_by}
use awoki.Base.{
  dash_runs, ◌≡◌, ◌≢◌, ◌≤◌, ◌+◌, ◌↔◌, refl, inl, inr, Bool, true, false, String, Option, none, some,
  [], ◌∷◌, strip, lower, upper, prefix, List, is_space, unique, contains, nonempty, ok,
  text_equality,
}
use awoki.ClaimGraph.{
  verified, RawClaim, Claim, Receipt, normalize_claim, normalize_all, claim_of, demote,
}
use awoki.ClaimGraph.Contradictions.{
  conflicts_of, contradictions, by_id, add_negations, add_all_negations, group_conflicts,
}
use awoki.ClaimGraph.Gate.{Gate, GateStatus, gate, judge, mark_required, expected_ids}
use awoki.Reliability.State.{
  NodeKind, NodeStatus, model_inference, RelationType, reliability, RunStatus, in_progress,
  CheckStatus, Run,
}
use awoki.Reliability.Texts.{clean_node_id, clean_id, bounded_text, newlines}
use awoki.Reliability.Assess.{
  record_assessment, put_assessment, add_relations, normalize_relations, normalize_from,
  clean_requirements, clean_confidence,
}
use awoki.Reliability.Assess.Stale.{assessment_bars_passing}
use awoki.Reliability.Records.{
  bounded_all, start_run, not_run, set_check, record_check, subject_contract, claim_gate, write_all,
  hold_required, record_claim,
}
use awoki.Reliability.Records.Obligations.{
  start_run_obliges, waived_check_not_required, record_claim_holds,
}
use awoki.Reliability.Finish.{
  final_status, final_status_of, finish_run, components, overall, acceptance_verdict,
  aggregate_verdict, passed, blocked,
}
use awoki.Reliability.Finish.Verdicts.{Unanimous, aggregate_passed_iff}
use awoki.Reliability.Finish.Passing.{IsEarned, finish_passed_iff}
use awoki.Reliability.Frozen.{finalized_takes_no_records}
use awoki.Reliability.Budget.{Consumption, budget_state, consumed, consume_corrective_budget}
use awoki.Reliability.Budget.Spending.{IsBalanced, consume_takes_one, granted, granted-le-remaining}

abbrev same : String → String
same s = s

-- the run that `start_run` makes
abbrev started : Run String
started = record {
  mode = reliability;
  subject_contract = record {
    subject = "parser";
    required_claims = "c1" ∷ [];
    required_properties = "total" ∷ [];
  };
  claim = "it works";
  status = in_progress;
  requested_status = none;
  checks = not_run "unit" ∷ not_run "total" ∷ [];
  claims = [];
  claim_gate = none;
  assessments = [];
  relations = [];
  corrective_budget = record { total = 2; used = 0; remaining = 2; events = [] };
  verification_checkpoints = [];
  latest_verification_checkpoint = none;
  verification_stale = false;
  risks = [];
}

starts :
    start_run same same " it works" "parser" ""
      ("unit" ∷ " " ∷ [])
      (" c1" ∷ [])
      ("total " ∷ [])
      (pos 2)
    ≡ ok started
unfolding start_run bounded_all bounded_text newlines claim_gate write_all subject_contract gate
    judge mark_required expected_ids contradictions conflicts_of normalize_all strip is_space unique
    add_all_negations group_conflicts group_by by_id
starts = refl

total_named : nonempty (strip "total") ≡ true
unfolding strip is_space
total_named = refl

start_run_obliges_example : In (not_run "total") started.checks
unfolding strip is_space
start_run_obliges_example =
    start_run_obliges same same " it works" "parser" "" ("unit" ∷ " " ∷ []) (" c1" ∷ [])
      ("total " ∷ []) (pos 2) started starts "total" (inr (inr (inl refl))) total_named

abbrev receipt : Receipt
receipt = record { kind = "code"; sha256 = "ab12"; verdict = "VERIFIED" }

abbrev raw : Option Bool → RawClaim String
raw required = record {
  claim_id = "c1";
  repo_id = "";
  subject = "parser";
  predicate = "reads";
  value = "1";
  status = "verified";
  required = required;
  evidence_ids = [];
  depends_on = [];
  negates = [];
  reason = "";
  verifier = some receipt;
}

abbrev claim : Claim String
claim = record {
  claim_id = "c1";
  repo_id = "";
  subject = "parser";
  predicate = "reads";
  value = "1";
  status = verified;
  required = true;
  evidence_ids = [];
  depends_on = [];
  negates = [];
  reason = "";
  verifier = some receipt;
}

abbrev open_gate : Gate String
open_gate = record {
  status = GateStatus.passed;
  reason = "all required structured claims are machine-verified and contradiction-free";
  missing_required_claims = [];
  conflicts = [];
  failed_claims = [];
  blocked_claims = [];
  claims = claim ∷ [];
}

-- the run with its claim, recorded as optional by the caller
abbrev claimed : Run String
claimed = record started {
  claims = claim ∷ [];
  claim_gate = some open_gate;
  verification_stale = true;
}

claims_it : record_claim same (raw (some false)) started ≡ ok claimed
unfolding record_claim hold_required claim_gate write_all subject_contract gate judge mark_required
    expected_ids contradictions conflicts_of normalize_all normalize_claim claim_of demote strip
    is_space upper unique add_all_negations add_negations group_conflicts group_by by_id
claims_it = refl

c1_named : contains (subject_contract started).required_claims "c1" ≡ true
unfolding subject_contract strip is_space unique
c1_named = refl

record_claim_holds_example : claim.required ≡ true
record_claim_holds_example =
    record_claim_holds same started claimed (raw (some false)) (λ c m. absurd m) claims_it claim
      (inl refl) c1_named

-- the run with both checks observed
abbrev observed : CheckStatus → CheckStatus → Run String
observed a b = record claimed {
  checks =
      record { name = "unit"; required = true; status = a }
      ∷ record { name = "total"; required = true; status = b }
      ∷ [];
}

observes :
    record_check same "unit" " Passed" true claimed
    ≡ ok (observed CheckStatus.passed CheckStatus.blocked)
unfolding record_check set_check claim_gate write_all subject_contract gate judge mark_required
    expected_ids contradictions conflicts_of normalize_all normalize_claim claim_of demote strip
    lower is_space upper unique add_all_negations add_negations group_conflicts group_by by_id
observes = refl

-- the check of the property "total", waived
abbrev waived : Run String
waived = record started {
  checks =
      not_run "unit"
      ∷ record { name = "total"; required = false; status = CheckStatus.skipped }
      ∷ [];
}

waives : record_check same "total" "skipped" false started ≡ ok waived
unfolding record_check set_check claim_gate write_all subject_contract gate judge mark_required
    expected_ids contradictions conflicts_of normalize_all normalize_claim claim_of demote strip
    lower is_space upper unique add_all_negations add_negations group_conflicts group_by by_id
waives = refl

waived_check_not_required_example : (not_run "unit").name ≢ "total"
waived_check_not_required_example =
    waived_check_not_required same started waived "total" "skipped" (refl, (refl, tt)) waives
      (not_run "unit") (inl refl) refl

abbrev complete : Run String
complete = observed CheckStatus.passed CheckStatus.passed

abbrev finished : Run String
finished = record complete {
  status = RunStatus.passed;
  requested_status = some RunStatus.passed;
  risks = "none known" ∷ [];
}

finishes : finish_run same "PASSED" (" none known" ∷ "" ∷ []) complete ≡ ok finished
unfolding finish_run final_status claim_gate write_all subject_contract gate judge mark_required
    expected_ids contradictions conflicts_of normalize_all normalize_claim claim_of demote strip
    lower is_space upper unique add_all_negations add_negations group_conflicts group_by by_id
finishes = refl

finish_passed_iff_example :
    (judged : Gate String) × (claim_gate same none complete ≡ ok judged)
    × ((RunStatus.passed ≡ RunStatus.passed) ↔ (
        (final_status_of (lower (strip "PASSED")) ≡ some RunStatus.passed)
        × IsEarned complete judged))
finish_passed_iff_example =
    finish_passed_iff complete same (" none known" ∷ "" ∷ []) finished "PASSED" finishes

aggregate_passed_iff_example :
    (aggregate_verdict (some RunStatus.passed) (some none) ≡ ok passed)
    ↔ Unanimous (components (some RunStatus.passed) (some none))
aggregate_passed_iff_example = aggregate_passed_iff (some RunStatus.passed) (some none)

aggregate_blocked : aggregate_verdict (some RunStatus.reliably_paused) (some none) ≡ ok blocked
unfolding aggregate_verdict overall acceptance_verdict
aggregate_blocked = refl

-- one unit of the budget spent
abbrev spent : Run String
spent = record started {
  corrective_budget = record {
    total = 2;
    used = 1;
    remaining = 1;
    events = record { event_id = "e1"; action = "retry" } ∷ [];
  };
}

spends : consume_corrective_budget same same "e1" " retry " started ≡ ok (consumed spent)
unfolding consume_corrective_budget budget_state bounded_text newlines claim_gate write_all
    subject_contract gate judge mark_required expected_ids contradictions conflicts_of normalize_all
    normalize_claim claim_of demote strip is_space upper unique add_all_negations add_negations
    group_conflicts group_by by_id
spends = refl

consume_takes_one_example :
    let before = budget_state started.corrective_budget in
    IsBalanced spent.corrective_budget × (2 ≡ before.total) × (1 + 1 ≡ before.remaining)
consume_takes_one_example = consume_takes_one same same "e1" " retry " started spent spends

granted-le-remaining_example :
    granted same same (("e1", "retry") ∷ ("e2", "again") ∷ ("e3", "more") ∷ []) started
    ≤ (budget_state started.corrective_budget).remaining
granted-le-remaining_example =
    granted-le-remaining same same (("e1", "retry") ∷ ("e2", "again") ∷ ("e3", "more") ∷ []) started

finalized_takes_no_records_example :
    ((name status : String) (required : Bool) (next : Run String)
      → record_check same name status required finished ≢ ok next)
    × ((input : RawClaim String) (next : Run String) → record_claim same input finished ≢ ok next)
    × ((id action : String) (reply : Consumption String)
        → consume_corrective_budget same same id action finished ≢ ok reply)
finalized_takes_no_records_example = finalized_takes_no_records same same finished refl
