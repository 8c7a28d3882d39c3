-- ===== src/Reliability/Assess/Barred.antt =====
-- `record_assessment`, and what keeps a run from passing.
use mathlib.Core.Path.{subst}
use awoki.Base.Member.{In-append_left, In-append_right, In-filter_of}
use awoki.Base.{
  inl, inr, ◌≡◌, ◌≢◌, refl, sym, ap, ◌∙◌, Bool, true, false, not, ◌&&◌, String, Option, none, some,
  List, [], ◌∷◌, map, filter, take, contains, length, nonempty, strip, lower, leb, text_equality,
  ◌==◌, if◌then◌else◌, ok, err, raise_if, raise_if-eq-ok, bind-eq-ok, Bool-cases, arith,
}
use awoki.Reliability.State.{
  Node, RelationType, Run, RunStatus, already_finalized, node_limit, note_required,
  statement_required, evidence_unavailable,
}
use awoki.Reliability.Records.{is_in_progress, write_all-same}
use awoki.Reliability.Texts.{bounded_text, clean_node_id}
use awoki.Reliability.Words.{kind_of, node_status_of, authority_of}
use awoki.Reliability.Assess.{
  is_note, clean_requirements, add_relations, normalize_relations, put_assessment,
  record_assessment,
}
use awoki.Reliability.Events.{Assessing, id_of, keeps_required, assesses, assess}
use awoki.Reliability.Events.Barred.{IsBarred}

-- a run that takes records has not passed
not_passed : (s : RunStatus) → not (is_in_progress s) ≡ false → s ≢ RunStatus.passed
not_passed s h p = ground arith

differs : (a b c : String) → a ≡ b → (c == b) ≡ false → not (a == c) ≡ true
differs a b c same other = elim (Bool-cases (a == c)) [
  | inl equal ↦
      let same_text : a ≡ c = (text_equality.agrees a c).0 equal in
      let absurd_pair : (c == b) ≡ true = (text_equality.agrees c b).1 (sym same_text ∙ same) in
      absurd cc
  | inr differ ↦ rw differ
]

module _ {V : Type 0} (legacy : String → RelationType → String → String) (canon : V → String)
    (resolve : List String → Option (List String)) where
  put_assessment-IsBarred :
      (node : Node) (evidence_refs : List String) (relations : List (String × String × String))
      (run run' : Run V)
      → put_assessment legacy canon resolve node evidence_refs relations run ≡ ok run'
      → (node.required ≡ true → IsBarred node.node_id run')
        × ((id : String) → (node.node_id == id) ≡ false → IsBarred id run → IsBarred id run')
  unfolding put_assessment
  put_assessment-IsBarred node evidence_refs relations run run' h =
      let ids = map (λ (n : Node). n.node_id) run.assessments in
      let (u, going, r₁) =
        bind-eq-ok _ (raise_if (not (is_in_progress run.status)) already_finalized) run' h in
      let (v, room, r₂) =
        bind-eq-ok _
          (raise_if (leb 128 (length run.assessments) && not (contains ids node.node_id))
            node_limit)
          run' r₁ in
      let (added, related, r₃) =
        bind-eq-ok _
          (add_relations legacy node.node_id (node.node_id ∷ ids) (take 32 relations)
            (normalize_relations legacy run))
          run' r₂ in
      let (refs, evident, written) =
        bind-eq-ok _
          (elim (resolve evidence_refs) [ none ↦ err evidence_unavailable | some found ↦ ok found ])
          run' r₃ in
      let row : Node = record node { evidence_refs = refs; relation_ids = added.1 } in
      let is_other = λ (n : Node). not (n.node_id == node.node_id) in
      let old = filter is_other run.assessments in
      let same = write_all-same canon _ run' written in
      let open_still =
        not_passed run.status
          (raise_if-eq-ok (not (is_in_progress run.status)) already_finalized going) in
      (
        λ needed. subst (IsBarred node.node_id) same (record {
          row = row;
          there = In-append_right row old (row ∷ []) (inl refl);
          named = refl;
          needed = needed;
          stale = refl;
          open_still = open_still;
        }),
        λ id other barred. subst (IsBarred id) same (record {
          row = barred.row;
          there = In-append_left barred.row old (row ∷ []) (
              In-filter_of is_other barred.row run.assessments barred.there
                (differs barred.row.node_id id node.node_id barred.named other));
          named = barred.named;
          needed = barred.needed;
          stale = refl;
          open_still = open_still;
        }),
      )

  module _ (redact : String → String)
      (fresh kind statement node_id status authority analysis_summary : String)
      (evidence_refs : List String) (relations : List (String × String × String)) (required : Bool)
      (confidence : String) (requirements : List String) (run : Run V) where
    record_assessment-put :
        (run' : Run V)
        → record_assessment legacy canon redact resolve fresh kind statement node_id status
            authority analysis_summary evidence_refs relations required confidence requirements run
          ≡ ok run'
        → (node : Node) × (node.node_id ≡ clean_node_id fresh node_id)
          × (node.required ≡ required)
          × (put_assessment legacy canon resolve node evidence_refs relations run ≡ ok run')
    unfolding record_assessment
    record_assessment-put run' h =
        let words = λ (s d : String). lower (strip (if nonempty s then s else d)) in
        let (k, e₁, r₁) = bind-eq-ok _ (kind_of (lower (strip kind))) run' h in
        let (s, e₂, r₂) = bind-eq-ok _ (node_status_of (words status "open")) run' r₁ in
        let (a, e₃, r₃) = bind-eq-ok _ (authority_of (words authority "model_inference")) run' r₂ in
        let (u, e₄, r₄) = bind-eq-ok _ (raise_if (is_note k && required) note_required) run' r₃ in
        let (text, e₅, r₅) = bind-eq-ok _ (bounded_text redact statement 2400 8) run' r₄ in
        let (v, e₆, r₆) =
          bind-eq-ok _ (raise_if (not (nonempty text)) statement_required) run' r₅ in
        let (summary, e₇, r₇) =
          bind-eq-ok _
            (if nonempty analysis_summary
              then bounded_text redact analysis_summary 3200 16
              else ok "")
            run' r₆ in
        let (needs, e₈, r₈) = bind-eq-ok _ (clean_requirements [] requirements) run' r₇ in
        (_, refl, refl, r₈)

  module _ (redact : String → String) where
    pub assess-IsBarred :
        (a : Assessing) (run run' : Run V)
        → assess legacy canon redact resolve a run ≡ ok run'
        → (a.required ≡ true → IsBarred (id_of a) run')
          × ((id : String)
              → keeps_required {V = V} id (assesses a) ≡ true
              → IsBarred id run
              → IsBarred id run')
    assess-IsBarred a run run' h =
        let (node, named, same, put) =
          record_assessment-put redact a.fresh a.kind a.statement a.node_id a.status a.authority
            a.analysis_summary a.evidence_refs a.relations a.required a.confidence a.requirements
            run run' h in
        let (sets, spares) =
          put_assessment-IsBarred node a.evidence_refs a.relations run run' put in
        let set_to = λ (needed : a.required ≡ true).
          subst (λ id. IsBarred id run') named (sets (same ∙ needed)) in
        (
          set_to,
          λ id kept barred. elim (Bool-cases (id_of a == id)) [
            | inl again ↦
                subst (λ i. IsBarred i run') ((text_equality.agrees (id_of a) id).0 again)
                  (set_to (ground arith))
            | inr other ↦ spares id (ap (λ i. i == id) named ∙ other) barred
          ],
        )
