-- ===== src/Reliability/Records.antt =====
-- `start_run`, `record_check` and `record_claim`, with the gate on a run's structured claims.
pub mod Obligations
use Prim.Native.Nat.{min}
use Prim.Native.Char.{Char, code}
use Prim.Native.String
use awoki.Base.Int.{ℤ, pos_part}
use awoki.Base.{
  ℕ, Bool, true, false, not, ◌&&◌, ◌||◌, String, Option, none, some, List, [], ◌∷◌, ◌++◌, map,
  filter, take, contains, unique, get_or, is_nonempty, nonempty, strip, lower, text_equality,
  number_equality, ◌==◌, if◌then◌else◌, Raises, ok, err, raise_if, map_error, bind-eq-ok,
  ok-injective, ◌≡◌, ◌>>=◌, ◌>>◌,
}
use awoki.ClaimGraph.{RawClaim, Claim, normalize_claim, as_raw}
use awoki.ClaimGraph.Gate.{Gate, gate}
use awoki.Reliability.State.{
  Mode, verify, reliability, ship, RunStatus, in_progress, Check, CheckStatus, Contract, Budget,
  Run, RunError, no_obligation, bad_status, already_finalized, claim_error,
}
use awoki.Reliability.Texts.{bounded_text, slug}

-- `if run.get("status") != "in_progress": raise`
abbrev pub is_in_progress : RunStatus → Bool
is_in_progress in_progress = true
is_in_progress _ = false

-- `list(dict.fromkeys(...))` of the stripped texts that are not blank
abbrev pub clean_names : List String → List String
clean_names names = unique (filter nonempty (map strip names))

abbrev is_ship : Mode → Bool
is_ship ship = true
is_ship _ = false

-- `_subject_contract`
unfoldable pub subject_contract : {V : Type 0} → Run V → Contract
subject_contract run = record {
  subject = run.subject_contract.subject;
  required_claims = take 128 (clean_names run.subject_contract.required_claims);
  required_properties = take 128 (clean_names run.subject_contract.required_properties);
}

-- `_claim_gate`; without an override, claims are required in ship mode
unfoldable pub claim_gate :
    {V : Type 0} → (V → String) → Option Bool → Run V → Raises RunError (Gate V)
claim_gate canon override run = map_error claim_error (
    gate canon (map as_raw run.claims) (get_or (is_ship run.mode) override)
      (subject_contract run).required_claims)

-- `_write_all`: the report's boundary is computed before the document is written
unfoldable pub write_all : {V : Type 0} → (V → String) → Run V → Raises RunError (Run V)
write_all canon run = do boundary ← claim_gate canon none run; ok run

-- what is written is what was handed in
pub write_all-same :
    {V : Type 0} (canon : V → String) (next saved : Run V)
    → write_all canon next ≡ ok saved
    → next ≡ saved
unfolding write_all
write_all-same canon next saved h =
    let (boundary, e, same) = bind-eq-ok _ (claim_gate canon none next) saved h in
    ok-injective next saved same

-- each property, bounded
unfoldable pub bounded_all : (String → String) → List String → Raises RunError (List String)
bounded_all redact [] = ok []
bounded_all redact (value ∷ values) = do
  text ← bounded_text redact value 600 2
  texts ← bounded_all redact values
  ok (text ∷ texts)

abbrev pub not_run : String → Check
not_run name = record { name = name; required = true; status = CheckStatus.blocked }

abbrev mode_of : String → Mode
mode_of mode = if mode == "verify" then verify else if mode == "ship" then ship else reliability

-- `text.replace("-", " ")`
spaced : String → String
spaced String.[] = String.[]
spaced (String.◌∷◌ c s) =
    String.◌++◌ (if code c == 45 then " " else String.◌∷◌ c String.[]) (spaced s)

unfoldable pub start_run :
    {V : Type 0}
    → (V → String)
    → (String → String)
    → (claim subject mode : String)
    → (required_checks required_claims required_properties : List String) → ℤ
    → Raises RunError (Run V)
unfolding bounded_all spaced
start_run canon redact claim subject mode required_checks required_claims required_properties
      corrective_budget =
    do
      let contract_claims = take 128 (clean_names required_claims)
      bounded ← bounded_all redact (filter (λ v. nonempty (strip v)) required_properties)
      let contract_properties = take 128 (unique bounded)
      let checks = map not_run (clean_names (required_checks ++ contract_properties))
      raise_if (not (is_nonempty checks)) no_obligation
      let budget_total = min (pos_part corrective_budget) 8
      let clean_subject = if nonempty (strip subject) then strip subject else spaced (slug claim)
      write_all canon (record {
        mode = mode_of mode;
        subject_contract = record {
          subject = clean_subject;
          required_claims = contract_claims;
          required_properties = contract_properties;
        };
        claim = strip claim;
        status = in_progress;
        requested_status = none;
        checks = checks;
        claims = [];
        claim_gate = none;
        assessments = [];
        relations = [];
        corrective_budget = record {
          total = budget_total;
          used = 0;
          remaining = budget_total;
          events = [];
        };
        verification_checkpoints = [];
        latest_verification_checkpoint = none;
        verification_stale = false;
        risks = [];
      })

-- membership in `_ALLOWED_CHECK_STATUS`
abbrev pub check_status_of : String → Option CheckStatus
check_status_of s =
    if s == "passed"
    then some CheckStatus.passed
    else if s == "failed"
    then some CheckStatus.failed
    else if s == "blocked"
    then some CheckStatus.blocked
    else if s == "skipped"
    then some CheckStatus.skipped
    else none

-- The first check of that name is updated, or a new one is appended.
unfoldable pub set_check : String → Bool → CheckStatus → List Check → List Check
set_check name required status [] =
    record { name = name; required = required; status = status } ∷ []
set_check name required status (c ∷ cs) =
    if c.name == name
    then record c { required = required; status = status } ∷ cs
    else c ∷ set_check name required status cs

abbrev pub write_check :
    {V : Type 0}
    → (V → String)
    → String
    → Bool
    → Option CheckStatus
    → Run V
    → Raises RunError (Run V)
write_check canon name required none run = err bad_status
write_check canon name required (some status) run = do
  raise_if (not (is_in_progress run.status)) already_finalized
  write_all canon (record run { checks = set_check name required status run.checks })

unfoldable pub record_check :
    {V : Type 0}
    → (V → String)
    → (check_name status : String) → Bool
    → Run V
    → Raises RunError (Run V)
record_check canon check_name status required run =
    write_check canon check_name required (check_status_of (lower (strip status))) run

-- A claim that the contract names is required, whatever the caller says.
unfoldable pub hold_required : {V : Type 0} → Run V → Claim V → Claim V
hold_required run c =
    if contains (subject_contract run).required_claims c.claim_id
    then record c { required = true }
    else c

unfoldable pub record_claim :
    {V : Type 0} → (V → String) → RawClaim V → Run V → Raises RunError (Run V)
record_claim canon raw run = do
  normalized ← map_error claim_error (normalize_claim raw)
  raise_if (not (is_in_progress run.status)) already_finalized
  let kept = hold_required run normalized
  let claims = filter (λ c. not (c.claim_id == kept.claim_id)) run.claims ++ kept ∷ []
  let next = record run { claims = claims }
  judged ← claim_gate canon (some false) next
  write_all canon (record next { claim_gate = some judged; verification_stale = true })
