-- ===== src/Reliability/Events/Barred.antt =====
-- What keeps a run from passing: a required assessment while the verification is stale.
use mathlib.Core.Path.{subst}
use awoki.Base.Member.{In, In-filter_of}
use awoki.Base.{
  inl, inr, ◌≡◌, ◌≢◌, refl, sym, ap, ◌∙◌, Bool, true, false, not, ◌||◌, String, Option, none, some,
  List, [], ◌∷◌, map, filter, contains, is_nonempty, nonempty, strip, lower, length, ◌++◌, leb, ltb,
  text_equality, ◌==◌, if◌then◌else◌, ok, raise_if, map_error, bind-eq-ok, ◌>>=◌, Bool-cases,
}
use awoki.ClaimGraph.{RawClaim, normalize_claim}
use awoki.Reliability.State.{
  Node, Budget, Relation, RelationType, Run, RunStatus, CheckStatus, already_finalized, claim_error,
  no_endpoint, relation_limit, endpoints_required, action_required,
}
use awoki.Reliability.Texts.{bounded_text, clean_id, clean_node_id}
use awoki.Reliability.Words.{relation_type_of}
use awoki.Reliability.Records.{
  check_status_of, write_check, record_check, record_claim, hold_required, claim_gate,
  is_in_progress, write_all, write_all-same,
}
use awoki.Reliability.Assess.{record_relation, put_relation, normalize_relations, or_legacy}
use awoki.Reliability.Budget.{rejected, consumed, consume_corrective_budget, budget_state, charge}
use awoki.Reliability.Finish.{required_assessments, final_status_of, finish, finish_run}
use awoki.Reliability.Finish.Passing.{finish_passed_iff}

-- The run holds a required assessment of an identity, its verification is stale, and it has not passed.
pub record IsBarred {V : Type 0} (id : String) (run : Run V) : Type 0 where
  pub row : Node
  pub there : In row run.assessments
  pub named : row.node_id ≡ id
  pub needed : row.required ≡ true
  pub stale : run.verification_stale ≡ true
  pub open_still : run.status ≢ RunStatus.passed

nonempty_of_In : (n : Node) (ns : List Node) → In n ns → is_nonempty ns ≡ true
nonempty_of_In n [] m = absurd m
nonempty_of_In n (x ∷ ns) m = refl

module _ {V : Type 0} where
  -- a step that keeps the assessments and the status, and that does not make the verification current
  abbrev pub Spares : Run V → Run V → Type 0
  Spares run run' =
      (run'.assessments ≡ run.assessments)
      × (run.verification_stale ≡ true → run'.verification_stale ≡ true)
      × (run'.status ≡ run.status)

  pub Spares-IsBarred :
      (id : String) (run run' : Run V) → Spares run run' → IsBarred id run → IsBarred id run'
  Spares-IsBarred id run run' (rows, stale, status) h = record {
    row = h.row;
    there = subst (In h.row) (sym rows) h.there;
    named = h.named;
    needed = h.needed;
    stale = stale h.stale;
    open_still = λ p. h.open_still (sym status ∙ p);
  }

  module _ (canon : V → String) (run run' : Run V) where
    write_check-Spares :
        (name : String) (required : Bool) (status : Option CheckStatus)
        → write_check canon name required status run ≡ ok run'
        → Spares run run'
    write_check-Spares name required none h = absurd cc
    write_check-Spares name required (some status) h =
        let (u, going, written) =
          bind-eq-ok _ (raise_if (not (is_in_progress run.status)) already_finalized) run' h in
        subst (Spares run) (write_all-same canon _ run' written) (refl, λ s. s, refl)

    pub record_check-Spares :
        (name status : String) (required : Bool)
        → record_check canon name status required run ≡ ok run'
        → Spares run run'
    unfolding record_check
    record_check-Spares name status required h =
        write_check-Spares name required (check_status_of (lower (strip status))) h

    pub record_claim-Spares :
        (raw : RawClaim V) → record_claim canon raw run ≡ ok run' → Spares run run'
    unfolding record_claim
    record_claim-Spares raw h =
        let (c, normal, r₁) = bind-eq-ok _ (map_error claim_error (normalize_claim raw)) run' h in
        let (u, going, r₂) =
          bind-eq-ok _ (raise_if (not (is_in_progress run.status)) already_finalized) run' r₁ in
        let kept = hold_required run c in
        let claims = filter (λ d. not (d.claim_id == kept.claim_id)) run.claims ++ kept ∷ [] in
        let (judged, e, written) =
          bind-eq-ok _ (claim_gate canon (some false) (record run { claims = claims })) run' r₂ in
        subst (Spares run) (write_all-same canon _ run' written) (refl, λ s. refl, refl)

    pub record_relation-Spares :
        (legacy : String → RelationType → String → String)
        (fresh_from fresh_to from type target id : String)
        → record_relation legacy canon fresh_from fresh_to from type target id run ≡ ok run'
        → Spares run run'
    unfolding record_relation
    record_relation-Spares legacy fresh_from fresh_to from type target id h =
        let (u, e₁, r₁) =
          bind-eq-ok _
            (raise_if (not (nonempty (strip from)) || not (nonempty (strip target)))
              endpoints_required)
            run' h in
        let ids = map (λ (n : Node). n.node_id) run.assessments in
        let a = clean_node_id fresh_from (strip from) in
        let b = clean_node_id fresh_to (strip target) in
        let (kind, e₂, r₂) = bind-eq-ok _ (relation_type_of (lower (strip type))) run' r₁ in
        let (v, e₃, r₃) =
          bind-eq-ok _ (raise_if (not (is_in_progress run.status)) already_finalized) run' r₂ in
        let (w, e₄, r₄) =
          bind-eq-ok _ (raise_if (not (contains ids a) || not (contains ids b)) no_endpoint) run'
            r₃ in
        let put : Relation = record {
          relation_id = or_legacy (clean_id id) (legacy a kind b);
          from_node_id = a;
          kind = kind;
          to_node_id = b;
        } in
        let records = put_relation legacy put (normalize_relations legacy run) in
        let (x, e₅, r₅) =
          bind-eq-ok _ (raise_if (ltb 512 (length records)) relation_limit) run' r₄ in
        subst (Spares run) (write_all-same canon _ run' r₅) (refl, λ s. refl, refl)

    finish-kept :
        (requested : Option RunStatus) (risks : List String)
        → finish canon requested risks run ≡ ok run'
        → (run'.assessments ≡ run.assessments) × (run'.verification_stale ≡ run.verification_stale)
    finish-kept none risks h = absurd cc
    finish-kept (some requested) risks h =
        let (judged, e, written) = bind-eq-ok _ (claim_gate canon none run) run' h in
        let same = write_all-same canon _ run' written in
        (ap (λ r. r.assessments) (sym same), ap (λ r. r.verification_stale) (sym same))

    finish_run-kept :
        (requested_status : String) (risks : List String)
        → finish_run canon requested_status risks run ≡ ok run'
        → (run'.assessments ≡ run.assessments) × (run'.verification_stale ≡ run.verification_stale)
    unfolding finish_run
    finish_run-kept requested_status risks h =
        finish-kept (final_status_of (lower (strip requested_status))) risks h

    pub finish_run-IsBarred :
        (id requested_status : String) (risks : List String)
        → finish_run canon requested_status risks run ≡ ok run'
        → IsBarred id run
        → IsBarred id run'
    finish_run-IsBarred id requested_status risks h barred =
        let (rows, stale) = finish_run-kept requested_status risks h in
        let (judged, e, iff) = finish_passed_iff run canon risks run' requested_status h in
        let some_needed =
          nonempty_of_In barred.row (required_assessments run) (
            In-filter_of (λ n. n.required) barred.row run.assessments barred.there barred.needed) in
        record {
          row = barred.row;
          there = subst (In barred.row) (sym rows) barred.there;
          named = barred.named;
          needed = barred.needed;
          stale = stale ∙ barred.stale;
          open_still =
              λ p. let assessed = (iff.0 p).1.assessed some_needed in cc (barred.stale, assessed.0);
        }

  pub consume-Spares :
      (canon : V → String) (redact : String → String) (id action : String) (run run' : Run V)
      → consume_corrective_budget canon redact id action run ≡ ok (consumed run')
      → Spares run run'
  unfolding consume_corrective_budget
  consume-Spares canon redact id action run run' h =
      let (text, e₁, r₁) = bind-eq-ok _ (bounded_text redact action 1000 3) (consumed run') h in
      let (u, e₂, r₂) =
        bind-eq-ok _ (raise_if (not (nonempty text)) action_required) (consumed run') r₁ in
      let (v, e₃, r₃) =
        bind-eq-ok _ (raise_if (not (is_in_progress run.status)) already_finalized) (consumed run')
          r₂ in
      last text r₃
    where
      b : Budget
      b = budget_state run.corrective_budget

      next : String → Run V
      next text = record run { corrective_budget = charge id text b }

      last :
          (text : String)
          → (if leb b.remaining 0
              then ok (rejected b)
              else write_all canon (next text) >>= λ s. ok (consumed s))
            ≡ ok (consumed run')
          → Spares run run'
      last text e = elim (Bool-cases (leb b.remaining 0)) [
        | inl out ↦ cc (rw out at e)
        | inr left ↦
            let (s, written, same) =
              bind-eq-ok _ (write_all canon (next text)) (consumed run') (rw left at e) in
            let kept : s ≡ run' = cc in
            subst (Spares run) (write_all-same canon (next text) s written ∙ kept)
              (refl, λ s. s, refl)
      ]
