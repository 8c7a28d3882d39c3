-- ===== src/Reliability/Records/Obligations.antt =====
-- The obligations that a run declares, and what the operations do to them.
use mathlib.Core.Path.{subst}
use awoki.Base.Int.{ℤ}
use awoki.Base.Member.{In, In-append, In-filter, In-filter_of, In-map_of, contains_of_In}
use awoki.Base.Unique.{IsDistinct, In-unique_of}
use awoki.Base.{
  ◌≡◌, ◌≢◌, refl, sym, ap, ◌∙◌, Bool, true, false, not, String, Option, none, some, List, [], ◌∷◌,
  ◌++◌, map, filter, take, unique, contains, nonempty, is_nonempty, strip, lower, eq_iff,
  text_equality, ◌==◌, Bool-cases, inl, inr, arith, ok, raise_if, bind-eq-ok, map_error,
}
use awoki.ClaimGraph.{Claim, RawClaim, normalize_claim}
use awoki.Reliability.State.{Check, CheckStatus, Run, claim_error, no_obligation, already_finalized}
use awoki.Reliability.Records.{
  clean_names, not_run, bounded_all, start_run, set_check, check_status_of, write_check,
  record_check, subject_contract, claim_gate, write_all-same, hold_required, record_claim,
  is_in_progress,
}

In-clean_names :
    (name : String) (names : List String)
    → In name names
    → nonempty (strip name) ≡ true
    → In (strip name) (clean_names names)
In-clean_names name names m h =
    In-unique_of (strip name) (filter nonempty (map strip names))
      (In-filter_of nonempty (strip name) (map strip names) (In-map_of strip name names m) h)

module _ {V : Type 0} (canon : V → String) (redact : String → String) (claim subject mode : String)
    (required_checks required_claims required_properties : List String)
    (corrective_budget : ℤ) where
  -- A run that starts has, for each check that the caller requires and each property of its contract, a
  -- required check of that name that blocks until it is observed.
  pub start_run_obliges :
      (run : Run V)
      → start_run canon redact claim subject mode required_checks required_claims
          required_properties corrective_budget
        ≡ ok run
      → (name : String) → In name (required_checks ++ run.subject_contract.required_properties)
      → nonempty (strip name) ≡ true
      → In (not_run (strip name)) run.checks
  unfolding start_run
  start_run_obliges run h name m named =
      let (bounded, e, rest) =
        bind-eq-ok _ (bounded_all redact (filter (λ v. nonempty (strip v)) required_properties)) run
          h in
      let properties = take 128 (unique bounded) in
      let (u, some_check, made) =
        bind-eq-ok _
          (raise_if (not (is_nonempty (map not_run (clean_names (required_checks ++ properties)))))
            no_obligation)
          run rest in
      let same = write_all-same canon _ run made in
      let checks : map not_run (clean_names (required_checks ++ properties)) ≡ run.checks =
        ap (λ r. r.checks) same in
      let contract : properties ≡ run.subject_contract.required_properties =
        ap (λ r. r.subject_contract.required_properties) same in
      subst (In (not_run (strip name))) checks (
        In-map_of not_run (strip name) (clean_names (required_checks ++ properties)) (
          In-clean_names name (required_checks ++ properties)
            (subst (λ l. In name (required_checks ++ l)) (sym contract) m) named))

-- the names of the checks
abbrev pub names_of : List Check → List String
names_of = map (λ c. c.name)

set_check-required :
    (name : String) (status : CheckStatus) (checks : List Check) (c : Check)
    → IsDistinct (names_of checks)
    → In c (set_check name false status checks)
    → c.required ≡ true
    → c.name ≢ name
unfolding set_check
set_check-required name status [] c distinct (inl same) r = cc (ap (λ x. x.required) same)
set_check-required name status [] c distinct (inr m) r = absurd m
set_check-required name status (d ∷ checks) c distinct m r = elim (Bool-cases (d.name == name)) [
  | inl hit ↦ hit_case hit (rw hit at m)
  | inr miss ↦ miss_case (set_check-required name status checks c distinct.1) miss (rw miss at m)
]
  where
    hit_case :
        (d.name == name) ≡ true
        → In c (record d { required = false; status = status } ∷ checks)
        → c.name ≢ name
    hit_case hit (inl same) e = cc (ap (λ x. x.required) same)
    hit_case hit (inr there) e =
        let dup : c.name ≡ d.name = e ∙ sym ((eq_iff d.name name).0 hit) in
        cc (
          distinct.0,
          contains_of_In d.name (names_of checks)
              (subst (λ n. In n (names_of checks)) dup (In-map_of (λ x. x.name) c checks there)),
        )

    miss_case :
        (In c (set_check name false status checks) → c.required ≡ true → c.name ≢ name)
        → (d.name == name) ≡ false
        → In c (d ∷ set_check name false status checks)
        → c.name ≢ name
    miss_case ih miss (inl same) e =
        cc (miss, (eq_iff d.name name).1 (ap (λ x. x.name) (sym same) ∙ e))
    miss_case ih miss (inr there) e = ih there r e

module _ {V : Type 0} (canon : V → String) (run run' : Run V) where
  write_check-checks :
      (name : String) (required : Bool) (status : Option CheckStatus)
      → write_check canon name required status run ≡ ok run'
      → (s : CheckStatus) × (status ≡ some s) × (run'.checks ≡ set_check name required s run.checks)
  write_check-checks name required none h = cc
  write_check-checks name required (some s) h =
      let (u, e, written) =
        bind-eq-ok _ (raise_if (not (is_in_progress run.status)) already_finalized) run' h in
      (s, refl, ap (λ r. r.checks) (sym (write_all-same canon _ run' written)))

  -- `record_check` waives an obligation: recorded as not required, a check of a declared property is no
  -- longer among the required checks of the run, whatever its status.
  pub waived_check_not_required :
      (check_name status : String)
      → IsDistinct (names_of run.checks)
      → record_check canon check_name status false run ≡ ok run'
      → (c : Check) → In c run'.checks
      → c.required ≡ true
      → c.name ≢ check_name
  unfolding record_check
  waived_check_not_required check_name status distinct h c m r =
      let (s, known, written) =
        write_check-checks check_name false (check_status_of (lower (strip status))) h in
      set_check-required check_name s run.checks c distinct (subst (In c) written m) r

  -- every recorded claim that the contract names is required
  abbrev pub HoldsRequired : Run V → Type 0
  HoldsRequired r =
      (c : Claim V)
      → In c r.claims
      → contains (subject_contract run).required_claims c.claim_id ≡ true
      → c.required ≡ true

  hold_required-lem :
      (c : Claim V)
      → contains (subject_contract run).required_claims (hold_required run c).claim_id ≡ true
      → (hold_required run c).required ≡ true
  unfolding hold_required
  hold_required-lem c h = ground arith

  -- A claim that the contract declares as required cannot be recorded as optional: after `record_claim`
  -- every claim of the run that the contract names is required, if that was so before.
  pub record_claim_holds :
      (raw : RawClaim V)
      → HoldsRequired run
      → record_claim canon raw run ≡ ok run'
      → HoldsRequired run'
  unfolding record_claim
  record_claim_holds raw held h c m named =
      let (n, e, checked) = bind-eq-ok _ (map_error claim_error (normalize_claim raw)) run' h in
      let (u, open_run, judge) =
        bind-eq-ok _ (raise_if (not (is_in_progress run.status)) already_finalized) run' checked in
      let kept = hold_required run n in
      let old = filter (λ d. not (d.claim_id == kept.claim_id)) run.claims in
      let next : Run V = record run { claims = old ++ kept ∷ [] } in
      let (g, judged, written) = bind-eq-ok _ (claim_gate canon (some false) next) run' judge in
      let final : Run V = record next { claim_gate = some g; verification_stale = true } in
      let claims : old ++ kept ∷ [] ≡ run'.claims =
        ap (λ r. r.claims) (write_all-same canon final run' written) in
      elim (In-append c old (kept ∷ []) (subst (In c) (sym claims) m)) [
        | inl before ↦ held c (In-filter _ c run.claims before).0 named
        | inr (inl this) ↦
            ap (λ x. x.required) this
            ∙ hold_required-lem n (
                subst (λ x. contains (subject_contract run).required_claims x.claim_id ≡ true) this
                  named)
        | inr (inr nothing) ↦ absurd nothing
      ]
