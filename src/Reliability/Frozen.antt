-- ===== src/Reliability/Frozen.antt =====
-- A run that is finalized takes no more records.
use awoki.Base.{
  ◌≡◌, ◌≢◌, Bool, false, not, String, Option, none, some, nonempty, strip, lower, ok, raise_if,
  map_error, bind-eq-ok,
}
use awoki.ClaimGraph.{RawClaim, normalize_claim}
use awoki.Reliability.State.{CheckStatus, Run, RunError, already_finalized, action_required}
use awoki.Reliability.Texts.{bounded_text}
use awoki.Reliability.Records.{
  is_in_progress, check_status_of, write_check, record_check, record_claim,
}
use awoki.Reliability.Budget.{Consumption, consume_corrective_budget}

-- the guard of the recording operations
guard_closed :
    {V : Type 0} (run : Run V) (u : Unit)
    → is_in_progress run.status ≡ false
    → raise_if (not (is_in_progress run.status)) already_finalized ≢ ok u
guard_closed run u done h = cc (rw done at h)

module _ {V : Type 0} (canon : V → String) (redact : String → String) (run : Run V) where
  check_closed :
      (name : String) (required : Bool) (status : Option CheckStatus) (next : Run V)
      → is_in_progress run.status ≡ false
      → write_check canon name required status run ≢ ok next
  check_closed name required none next done h = cc
  check_closed name required (some s) next done h =
      let (u, passed_guard, rest) =
        bind-eq-ok _ (raise_if (not (is_in_progress run.status)) already_finalized) next h in
      guard_closed run u done passed_guard

  -- Once a run is not in progress, neither a check nor a claim can be recorded in it and no corrective
  -- budget can be asked for: every such call raises.
  pub finalized_takes_no_records :
      is_in_progress run.status ≡ false
      → ((name status : String) (required : Bool) (next : Run V)
          → record_check canon name status required run ≢ ok next)
        × ((raw : RawClaim V) (next : Run V) → record_claim canon raw run ≢ ok next)
        × ((id action : String) (reply : Consumption V)
            → consume_corrective_budget canon redact id action run ≢ ok reply)
  unfolding record_check record_claim consume_corrective_budget
  finalized_takes_no_records done = (
    λ name status required next.
        check_closed name required (check_status_of (lower (strip status))) next done,
    λ raw next h.
        let (c, normal, rest) =
          bind-eq-ok _ (map_error RunError.claim_error (normalize_claim raw)) next h in
        let (u, passed_guard, last) =
          bind-eq-ok _ (raise_if (not (is_in_progress run.status)) already_finalized) next rest in
        guard_closed run u done passed_guard,
    λ id action reply h.
        let (clean, bounded, rest) = bind-eq-ok _ (bounded_text redact action 1000 3) reply h in
        let (u, named, guarded) =
          bind-eq-ok _ (raise_if (not (nonempty clean)) action_required) reply rest in
        let (v, passed_guard, last) =
          bind-eq-ok _ (raise_if (not (is_in_progress run.status)) already_finalized) reply
            guarded in
        guard_closed run v done passed_guard,
  )
