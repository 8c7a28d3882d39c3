-- ===== src/ClaimGraph.antt =====
-- .harness/claim_graph.py: structured claims, their contradictions, and the gate that a run's claims
-- must pass. `V` is the type of a claim's value, and `canon` the canonical JSON text of a value
-- (`_canon`, by the `json` library). A key that is missing and a key that holds an empty text read
-- alike, but for `required`.
pub mod Normal
pub mod Contradictions
pub mod Gate
use Prim.Native.String.{compare}
use mathlib.Core.List.{foldl, flat_map}
use text.Mathlib.Text.{is_le}
use awoki.Base.Groups.{group_by}
use awoki.Base.{
  Raises, ok, err, ◌>>=◌, ℕ, ◌≡◌, refl, Bool, true, false, not, ◌&&◌, ◌||◌, String, Option, none,
  some, List, [], ◌∷◌, ◌++◌, map, length, filter, any, contains, unique, is_nonempty, nonempty,
  strip, lower, upper, one_of, get_or, Eq, text_equality, ◌==◌, ltb, if◌then◌else◌,
}

pub data ClaimStatus : Type 0 where
  verified refuted inconclusive stale conflict : ClaimStatus

abbrev pub status_name : ClaimStatus → String
status_name verified = "VERIFIED"
status_name refuted = "REFUTED"
status_name inconclusive = "INCONCLUSIVE"
status_name stale = "STALE"
status_name conflict = "CONFLICT"

-- membership in `ALLOWED_STATUSES`
pub status_of : String → Option ClaimStatus
status_of s =
    if s == "VERIFIED"
    then some verified
    else if s == "REFUTED"
    then some refuted
    else if s == "INCONCLUSIVE"
    then some inconclusive
    else if s == "STALE"
    then some stale
    else if s == "CONFLICT"
    then some conflict
    else none

-- what the gate reads of a receipt that `verifier_receipt` makes
pub record Receipt : Type 0 where
  pub kind : String
  pub sha256 : String
  pub verdict : String

-- the mapping that a caller hands in
pub record RawClaim (V : Type 0) : Type 0 where
  pub claim_id : String
  pub repo_id : String
  pub subject : String
  pub predicate : String
  pub value : V
  pub status : String
  pub required : Option Bool
  pub evidence_ids : List String
  pub depends_on : List String
  pub negates : List String
  pub reason : String
  pub verifier : Option Receipt

pub record Claim (V : Type 0) : Type 0 where
  pub claim_id : String
  pub repo_id : String
  pub subject : String
  pub predicate : String
  pub value : V
  pub status : ClaimStatus
  pub required : Bool
  pub evidence_ids : List String
  pub depends_on : List String
  pub negates : List String
  pub reason : String
  pub verifier : Option Receipt

-- the messages of the `ValueError`s
pub data ClaimError : Type 0 where
  bad_status claim_id_required subject_and_predicate_required : ClaimError

abbrev pub Result : Type 0 → Type 0
Result = Raises ClaimError

-- `PASS_CAPABLE`
abbrev pub is_pass_capable : ClaimStatus → Bool
is_pass_capable verified = true
is_pass_capable refuted = true
is_pass_capable _ = false

abbrev pub is_verified : ClaimStatus → Bool
is_verified verified = true
is_verified _ = false

-- `bool(claim["verifier"].get("sha256"))`
abbrev pub has_receipt : Option Receipt → Bool
has_receipt none = false
has_receipt (some r) = nonempty r.sha256

abbrev or_text : String → String → String
or_text s d = if nonempty s then s else d

abbrev is_text : String → Bool
is_text s = nonempty (strip s)

-- a model may describe a claim, but it cannot certify it itself
unfoldable pub demote : {V : Type 0} → Claim V → Claim V
demote c =
    if is_pass_capable c.status && not (has_receipt c.verifier)
    then record c {
      status = inconclusive;
      reason = or_text c.reason "VERIFIED/REFUTED requires a deterministic verifier receipt";
    }
    else c

unfoldable pub claim_of : {V : Type 0} → RawClaim V → ClaimStatus → Claim V
claim_of raw status = record {
  claim_id = strip raw.claim_id;
  repo_id = strip raw.repo_id;
  subject = strip raw.subject;
  predicate = strip raw.predicate;
  value = raw.value;
  status = status;
  required = get_or true raw.required;
  evidence_ids = filter is_text raw.evidence_ids;
  depends_on = filter is_text raw.depends_on;
  negates = filter is_text raw.negates;
  reason = strip raw.reason;
  verifier = raw.verifier;
}

abbrev with_status : {V : Type 0} → RawClaim V → Option ClaimStatus → Result (Claim V)
with_status raw none = err bad_status
with_status raw (some status) =
    let c = claim_of raw status in
    if not (nonempty c.claim_id)
    then err claim_id_required
    else if not (nonempty c.subject) || not (nonempty c.predicate)
    then err subject_and_predicate_required
    else ok (demote c)

unfoldable pub normalize_claim : {V : Type 0} → RawClaim V → Result (Claim V)
unfolding status_of
normalize_claim raw = with_status raw (status_of (upper (or_text raw.status "INCONCLUSIVE")))

unfoldable pub normalize_all : {V : Type 0} → List (RawClaim V) → Result (List (Claim V))
normalize_all [] = ok []
normalize_all (raw ∷ raws) = do c ← normalize_claim raw; cs ← normalize_all raws; ok (c ∷ cs)

-- A normalized claim is a mapping once more, and the source normalizes it again.
abbrev pub as_raw : {V : Type 0} → Claim V → RawClaim V
as_raw c = record {
  claim_id = c.claim_id;
  repo_id = c.repo_id;
  subject = c.subject;
  predicate = c.predicate;
  value = c.value;
  status = status_name c.status;
  required = some c.required;
  evidence_ids = c.evidence_ids;
  depends_on = c.depends_on;
  negates = c.negates;
  reason = c.reason;
  verifier = c.verifier;
}

-- `status_from_code_verifier`, of the keys `verdict` and `status`
unfoldable pub status_from_code_verifier : String → String → ClaimStatus
status_from_code_verifier verdict status =
    if upper verdict == "VERIFIED"
    then verified
    else if upper verdict == "REFUTED"
    then refuted
    else if one_of (lower status) ("stale" ∷ "stale_source" ∷ [])
    then stale
    else inconclusive

-- `status_from_semantics_verifier`, of the keys `status`, `semantics_class` and `toolchain_alignment`
unfoldable pub status_from_semantics_verifier : String → String → String → ClaimStatus
status_from_semantics_verifier status semantics_class toolchain_alignment =
    if not (lower status == "ok")
    then inconclusive
    else if semantics_class == "language"
    then verified
    else if toolchain_alignment == "major_minor_match"
    then verified
    else inconclusive
