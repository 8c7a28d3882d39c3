-- ===== src/ClaimGraph/Gate.antt =====
-- `gate` of .harness/claim_graph.py: the verdict on a run's structured claims.
pub mod Marked
pub mod Judged
pub mod Passing
mod Tests
use awoki.Base.{
  Bool, true, false, not, ◌&&◌, ◌||◌, String, List, [], ◌∷◌, map, filter, contains, unique,
  is_nonempty, nonempty, strip, text_equality, ◌==◌, if◌then◌else◌,
}
use awoki.Base.{ok, ◌>>=◌}
use awoki.ClaimGraph.{
  ClaimStatus, verified, refuted, inconclusive, stale, conflict, Claim, RawClaim, Result,
  normalize_all, as_raw,
}
use awoki.ClaimGraph.Contradictions.{Conflict, contradictions}

pub data GateStatus : Type 0 where
  blocked not_applicable failed passed : GateStatus

-- the word under `result`
abbrev pub result_name : GateStatus → String
result_name blocked = "BLOCKED"
result_name not_applicable = "NOT_APPLICABLE"
result_name failed = "CONTRADICTED"
result_name passed = "VERIFIED"

-- the dict that `gate` returns; a list that a branch leaves out is empty
pub record Gate (V : Type 0) : Type 0 where
  pub status : GateStatus
  pub reason : String
  pub missing_required_claims : List String
  pub conflicts : List Conflict
  pub failed_claims : List String
  pub blocked_claims : List String
  pub claims : List (Claim V)

-- `expected`
unfoldable pub expected_ids : List String → List String
expected_ids ids = unique (filter nonempty (map strip ids))

abbrev mark : {V : Type 0} → List String → Claim V → Claim V
mark expected c = if contains expected c.claim_id then record c { required = true } else c

-- the claims whose identity is expected become required
unfoldable pub mark_required : {V : Type 0} → List String → List (Claim V) → List (Claim V)
mark_required expected cs = if is_nonempty expected then map (mark expected) cs else cs

abbrev pub ids_of : {V : Type 0} → List (Claim V) → List String
ids_of = map (λ c. c.claim_id)

abbrev pub required_of : {V : Type 0} → List (Claim V) → List (Claim V)
required_of = filter (λ c. c.required)

abbrev is_failed : ClaimStatus → Bool
is_failed refuted = true
is_failed conflict = true
is_failed _ = false

abbrev is_blocked : ClaimStatus → Bool
is_blocked inconclusive = true
is_blocked stale = true
is_blocked _ = false

-- the early returns, in the source's order
unfoldable pub judge : {V : Type 0} → Bool → List String → List Conflict → List (Claim V) → Gate V
judge require_claims missing conflicts cs =
    let required = required_of cs in
    let failed_ones = filter (λ c. is_failed c.status) required in
    let blocked_ones = filter (λ c. is_blocked c.status) required in
    if is_nonempty missing
    then record {
      status = blocked;
      reason = "declared required structured claims have not been recorded";
      missing_required_claims = missing;
      conflicts = conflicts;
      failed_claims = [];
      blocked_claims = [];
      claims = cs;
    }
    else if require_claims && not (is_nonempty required)
    then record {
      status = blocked;
      reason = "ship mode requires at least one required structured claim";
      missing_required_claims = [];
      conflicts = [];
      failed_claims = [];
      blocked_claims = [];
      claims = cs;
    }
    else if not (is_nonempty required)
    then record {
      status = not_applicable;
      reason = "no required structured claims were declared or recorded";
      missing_required_claims = [];
      conflicts = conflicts;
      failed_claims = [];
      blocked_claims = [];
      claims = cs;
    }
    else if is_nonempty conflicts || is_nonempty failed_ones
    then record {
      status = failed;
      reason = "required claims conflict or were refuted";
      missing_required_claims = [];
      conflicts = conflicts;
      failed_claims = ids_of failed_ones;
      blocked_claims = [];
      claims = cs;
    }
    else if is_nonempty blocked_ones
    then record {
      status = blocked;
      reason = "required claims are not currently machine-verified";
      missing_required_claims = [];
      conflicts = conflicts;
      failed_claims = [];
      blocked_claims = ids_of blocked_ones;
      claims = cs;
    }
    else record {
      status = passed;
      reason = "all required structured claims are machine-verified and contradiction-free";
      missing_required_claims = [];
      conflicts = conflicts;
      failed_claims = [];
      blocked_claims = [];
      claims = cs;
    }

abbrev pub missing_of : {V : Type 0} → List String → List (Claim V) → List String
missing_of expected cs = filter (λ id. not (contains (ids_of cs) id)) expected

unfoldable pub gate :
    {V : Type 0} → (V → String) → List (RawClaim V) → Bool → List String → Result (Gate V)
gate canon raws require_claims expected_required_claim_ids = do
  normalized ← normalize_all raws
  let expected = expected_ids expected_required_claim_ids
  let cs = mark_required expected normalized
  conflicts ← contradictions canon (map as_raw cs)
  ok (judge require_claims (missing_of expected cs) conflicts cs)
