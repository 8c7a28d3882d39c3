-- ===== src/ClaimGraph/Gate/Tests.antt =====
-- The gate on concrete claims, with texts for values.
use awoki.Base.{
  ◌≡◌, ◌↔◌, refl, true, false, String, Option, none, some, List, [], ◌∷◌, strip, upper, lower,
  one_of, is_space, unique,
}
use awoki.Base.{ok}
use awoki.Base.Member.{In}
use awoki.ClaimGraph.{
  verified, RawClaim, Claim, Receipt, Result, normalize_claim, normalize_all, claim_of, demote,
  status_from_code_verifier, status_from_semantics_verifier, stale, inconclusive, is_verified,
  has_receipt,
}
use awoki.ClaimGraph.Normal.{IsNormal, normalize-IsNormal}
use awoki.ClaimGraph.Contradictions.{
  explicit_negation, conflicts_of, contradictions, by_id, add_pair, add_negations,
  add_all_negations, group_conflicts,
}
use awoki.ClaimGraph.Contradictions.Sound.{Consistent, conflicts-nil_iff}
use awoki.ClaimGraph.Gate.{
  Gate, GateStatus, passed, blocked, failed, gate, judge, mark_required, expected_ids,
}
use awoki.ClaimGraph.Gate.Passing.{IsPassing, gate_passed_iff, gate_passed_backed}
use awoki.Base.Groups.{group_by}

abbrev receipt : Receipt
receipt = record { kind = "code"; sha256 = "ab12"; verdict = "VERIFIED" }

abbrev raw : String → String → String → Option Receipt → List String → RawClaim String
raw id subject value verifier negates = record {
  claim_id = id;
  repo_id = "repo";
  subject = subject;
  predicate = "reads";
  value = value;
  status = "verified";
  required = none;
  evidence_ids = [];
  depends_on = [];
  negates = negates;
  reason = "";
  verifier = verifier;
}

abbrev canon : String → String
canon s = s

abbrev claim : String → String → String → List String → Claim String
claim id subject value negates = record {
  claim_id = id;
  repo_id = "repo";
  subject = subject;
  predicate = "reads";
  value = value;
  status = verified;
  required = true;
  evidence_ids = [];
  depends_on = [];
  negates = negates;
  reason = "";
  verifier = some receipt;
}

abbrev verdict : Result (Gate String) → Option GateStatus
verdict (ok g) = some g.status
verdict _ = none

two_pass :
    verdict (
      gate canon
        (raw "c1" "a" "1" (some receipt) [] ∷ raw " c2 " "b" "2" (some receipt) [] ∷ [])
        true
        ("c2" ∷ []))
    ≡ some passed
unfolding gate judge mark_required expected_ids contradictions conflicts_of normalize_all
    normalize_claim claim_of demote strip is_space upper unique add_all_negations add_negations
    group_conflicts group_by by_id
two_pass = refl

-- two values for one predicate
clash_fails :
    verdict (
      gate canon
        (raw "c1" "a" "1" (some receipt) [] ∷ raw "c2" "a" "2" (some receipt) [] ∷ [])
        true
        [])
    ≡ some failed
unfolding gate judge mark_required expected_ids contradictions conflicts_of normalize_all
    normalize_claim claim_of demote strip is_space upper unique add_all_negations add_negations
    group_conflicts group_by by_id
clash_fails = refl

-- a claim that certifies itself does not pass
self_certified : verdict (gate canon (raw "c1" "a" "1" none [] ∷ []) true []) ≡ some blocked
unfolding gate judge mark_required expected_ids contradictions conflicts_of normalize_all
    normalize_claim claim_of demote strip is_space upper unique add_all_negations add_negations
    group_conflicts group_by by_id
self_certified = refl

mutual_negation :
    conflicts_of canon (claim "c2" "a" "1" ("c1" ∷ []) ∷ claim "c1" "b" "2" ("c2" ∷ []) ∷ [])
    ≡ explicit_negation "c1" "c2" ∷ []
unfolding conflicts_of add_all_negations add_negations group_conflicts group_by by_id add_pair
mutual_negation = refl

abbrev first : Claim String
first = claim "c1" "a" "1" []

first-IsNormal : IsNormal first
unfolding normalize_claim claim_of demote strip is_space upper
first-IsNormal = normalize-IsNormal (raw " c1" "a" "1" (some receipt) []) first refl

normalize-IsNormal_example : IsNormal (claim "c1" "a" "1" [])
unfolding normalize_claim claim_of demote strip is_space upper
normalize-IsNormal_example = normalize-IsNormal (raw " c1" "a" "1" (some receipt) []) first refl

conflicts-nil_iff_example : (conflicts_of canon (first ∷ []) ≡ []) ↔ Consistent canon (first ∷ [])
conflicts-nil_iff_example = conflicts-nil_iff canon (first ∷ [])

abbrev passing : Gate String
passing = record {
  status = passed;
  reason = "all required structured claims are machine-verified and contradiction-free";
  missing_required_claims = [];
  conflicts = [];
  failed_claims = [];
  blocked_claims = [];
  claims = first ∷ [];
}

gate_passes : gate canon (raw "c1" "a" "1" (some receipt) [] ∷ []) true ("c1" ∷ []) ≡ ok passing
unfolding gate judge mark_required expected_ids contradictions conflicts_of normalize_all
    normalize_claim claim_of demote strip is_space upper unique add_all_negations add_negations
    group_conflicts group_by by_id
gate_passes = refl

-- a declared claim that is recorded as optional and without a receipt does not pass
declared_optional :
    verdict (
      gate canon
        (record (raw "c1" "a" "1" none []) { required = some false } ∷ [])
        false
        ("c1" ∷ []))
    ≡ some blocked
unfolding gate judge mark_required expected_ids contradictions conflicts_of normalize_all
    normalize_claim claim_of demote strip is_space upper unique add_all_negations add_negations
    group_conflicts group_by by_id
declared_optional = refl

gate_passed_iff_example :
    (cs : List (Claim String)) × (normalize_all (raw "c1" "a" "1" (some receipt) [] ∷ []) ≡ ok cs)
    × ((passing.status ≡ passed) ↔ IsPassing canon ("c1" ∷ []) cs)
gate_passed_iff_example =
    gate_passed_iff canon (raw "c1" "a" "1" (some receipt) [] ∷ []) true ("c1" ∷ []) passing
      gate_passes

gate_passed_backed_example :
    ((id : String)
      → In id (expected_ids ("c1" ∷ []))
      → (c : Claim String) × In c passing.claims × (c.claim_id ≡ id) × (c.required ≡ true))
    × ((c : Claim String)
        → In c passing.claims
        → c.required ≡ true
        → (is_verified c.status ≡ true) × (has_receipt c.verifier ≡ true))
gate_passed_backed_example =
    gate_passed_backed canon (raw "c1" "a" "1" (some receipt) [] ∷ []) true ("c1" ∷ []) passing
      gate_passes refl

stale_source : status_from_code_verifier "" "Stale_Source" ≡ stale
unfolding status_from_code_verifier upper lower one_of
stale_source = refl

toolchain_mismatch : status_from_semantics_verifier "OK" "toolchain" "mismatch" ≡ inconclusive
unfolding status_from_semantics_verifier lower
toolchain_mismatch = refl
