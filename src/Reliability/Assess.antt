-- ===== src/Reliability/Assess.antt =====
-- `record_assessment` and `record_relation`, with `_normalize_relations`. Relations that version 2
-- embeds in nodes are left out: nodes are written with none. `legacy` is the hash of
-- `_legacy_relation_id`, and `resolve` what `_evidence_meta` makes of the references, `none` where it
-- reports errors.
pub mod Barred
pub mod Stale
use Prim.Native.Char.{Char, code}
use awoki.Base.{
  dash_runs, ℕ, ◌+◌, Bool, true, false, not, ◌&&◌, ◌||◌, String, Option, none, some, List, [], ◌∷◌,
  ◌++◌, map, filter, take, contains, unique, length, is_nonempty, nonempty, strip, lower, prefix,
  leb, ltb, text_equality, number_equality, ◌==◌, if◌then◌else◌, Raises, ok, err, raise_if, any,
  all, ◌>>=◌, ◌>>◌,
}
use awoki.Reliability.State.{
  Node, NodeKind, NodeStatus, Authority, tool_evidence, source_evidence, user_supplied_evidence,
  environment_observation, analyst_observation, model_inference, external_reference,
  legacy_observation, runtime_observation, Requirement, reranker_complete, single_evidence_scope,
  Relation, RelationType, supports, refutes, derived_from, conflicts_with, requires, answers,
  motivates_followup, Run, RunError, bad_kind, bad_status, bad_authority, note_required,
  statement_required, bad_requirement, node_limit, bad_relation_type, no_relation_target,
  evidence_unavailable, endpoints_required, no_endpoint, relation_limit, already_finalized,
}
use awoki.Reliability.Texts.{bounded_text, clean_id, clean_node_id}
use awoki.Reliability.Records.{is_in_progress, write_all}
use awoki.Reliability.Words.{
  kind_of, node_status_of, authority_of, relation_type_of, requirement_of,
}

abbrev pub same_requirement : Requirement → Requirement → Bool
same_requirement reranker_complete reranker_complete = true
same_requirement single_evidence_scope single_evidence_scope = true
same_requirement _ _ = false

-- the loop over `requirements`, past those in `seen`
unfoldable pub clean_requirements :
    List Requirement → List String → Raises RunError (List Requirement)
clean_requirements seen [] = ok seen
clean_requirements seen (raw ∷ raws) = do
  r ← requirement_of (lower (strip raw))
  clean_requirements (if any (same_requirement r) seen then seen else seen ++ r ∷ []) raws

-- `a-z 0-9 _ -`
abbrev is_plain : Char → Bool
is_plain c =
    let n = code c in (leb 97 n && leb n 122) || (leb 48 n && leb n 57) || n == 95 || n == 45

unfoldable pub clean_confidence : String → String
clean_confidence s =
    let clean =
      prefix 40
        (dash_runs is_plain false (lower (strip (if nonempty s then s else "provisional")))) in
    if nonempty clean then clean else "provisional"

abbrev pub or_legacy : String → String → String
or_legacy id other = if nonempty id then id else other

abbrev is_note : NodeKind → Bool
is_note NodeKind.note = true
is_note _ = false

module _ (legacy : String → RelationType → String → String) where
  -- `_normalize_relations`, past the identities in `seen`
  unfoldable pub normalize_from : List String → List Relation → List Relation
  normalize_from seen [] = []
  normalize_from seen (raw ∷ raws) =
      let from = strip raw.from_node_id in
      let target = strip raw.to_node_id in
      let id = or_legacy (clean_id raw.relation_id) (legacy from raw.kind target) in
      let skipped = normalize_from seen raws in
      let kept = normalize_from (id ∷ seen) raws in
      if not (nonempty from) || not (nonempty target) || contains seen id
      then skipped
      else record { relation_id = id; from_node_id = from; kind = raw.kind; to_node_id = target }
        ∷ kept

  unfoldable pub normalize_relations : {V : Type 0} → Run V → List Relation
  normalize_relations run = take 512 (normalize_from [] run.relations)

  -- the relation goes to the end, past one of its identity
  unfoldable pub put_relation : Relation → List Relation → List Relation
  put_relation r rs = filter (λ o. not (o.relation_id == r.relation_id)) rs ++ r ∷ []

  -- the loop over the embedded `relations` of an assessment: type, target and identity of each
  unfoldable pub add_relations :
      (from : String)
      → (existing : List String) → List (String × String × String)
      → List Relation
      → Raises RunError (List Relation × List String)
  add_relations from existing [] rs = ok (rs, [])
  add_relations from existing ((type, target_id, relation_id) ∷ more) rs = do
    kind ← relation_type_of (lower (strip type))
    let target = strip target_id
    raise_if (not (nonempty target) || not (contains existing target)) no_relation_target
    let id = or_legacy (clean_id relation_id) (legacy from kind target)
    let r : Relation = record {
      relation_id = id;
      from_node_id = from;
      kind = kind;
      to_node_id = target;
    }
    rest ← add_relations from existing more (put_relation r rs)
    ok (rest.0, id ∷ rest.1)

  -- the run with an assessment; a statement, its words and its texts are checked before the run is read
  unfoldable pub put_assessment :
      {V : Type 0}
      → (V → String)
      → (List String → Option (List String))
      → Node
      → (evidence_refs : List String) → (relations : List (String × String × String)) → Run V
      → Raises RunError (Run V)
  put_assessment canon resolve node evidence_refs relations run = do
    raise_if (not (is_in_progress run.status)) already_finalized
    let ids = map (λ (n : Node). n.node_id) run.assessments
    raise_if (leb 128 (length run.assessments) && not (contains ids node.node_id)) node_limit
    added ←
        add_relations node.node_id (node.node_id ∷ ids) (take 32 relations)
          (normalize_relations run)
    resolved ← elim (resolve evidence_refs) [
      | none ↦ err evidence_unavailable
      | some refs ↦ ok refs
    ]
    let row = record node { evidence_refs = resolved; relation_ids = added.1 }
    write_all canon (record run {
      assessments = filter (λ n. not (n.node_id == node.node_id)) run.assessments ++ row ∷ [];
      relations = take 512 added.0;
      verification_stale = true;
    })

  -- `fresh` is the identity that is drawn where `node_id` has no usable character
  unfoldable pub record_assessment :
      {V : Type 0}
      → (V → String)
      → (String → String)
      → (List String → Option (List String))
      → (fresh kind statement node_id status authority analysis_summary : String)
      → (evidence_refs : List String) → (relations : List (String × String × String))
      → (required : Bool) → (confidence : String) → (requirements : List String) → Run V
      → Raises RunError (Run V)
  record_assessment canon redact resolve fresh kind statement node_id status authority
        analysis_summary evidence_refs relations required confidence requirements run =
      do
        let words = λ (s d : String). lower (strip (if nonempty s then s else d))
        clean_kind ← kind_of (lower (strip kind))
        clean_status ← node_status_of (words status "open")
        clean_authority ← authority_of (words authority "model_inference")
        raise_if (is_note clean_kind && required) note_required
        clean_statement ← bounded_text redact statement 2400 8
        raise_if (not (nonempty clean_statement)) statement_required
        clean_summary ←
            if nonempty analysis_summary
            then bounded_text redact analysis_summary 3200 16
            else ok ""
        needs ← clean_requirements [] requirements
        put_assessment canon resolve
            (record {
              node_id = clean_node_id fresh node_id;
              kind = clean_kind;
              statement = clean_statement;
              status = clean_status;
              authority = clean_authority;
              analysis_summary = clean_summary;
              evidence_refs = [];
              relation_ids = [];
              required = required;
              confidence = clean_confidence confidence;
              requirements = needs;
            })
            evidence_refs relations run

  unfoldable pub record_relation :
      {V : Type 0}
      → (V → String)
      → (fresh_from fresh_to from_node_id relation_type to_node_id relation_id : String) → Run V
      → Raises RunError (Run V)
  record_relation canon fresh_from fresh_to from_node_id relation_type to_node_id relation_id run =
      do
        raise_if (not (nonempty (strip from_node_id)) || not (nonempty (strip to_node_id)))
            endpoints_required
        let from = clean_node_id fresh_from (strip from_node_id)
        let target = clean_node_id fresh_to (strip to_node_id)
        kind ← relation_type_of (lower (strip relation_type))
        let id = or_legacy (clean_id relation_id) (legacy from kind target)
        raise_if (not (is_in_progress run.status)) already_finalized
        let ids = map (λ (n : Node). n.node_id) run.assessments
        raise_if (not (contains ids from) || not (contains ids target)) no_endpoint
        let r : Relation = record {
          relation_id = id;
          from_node_id = from;
          kind = kind;
          to_node_id = target;
        }
        let records = put_relation r (normalize_relations run)
        raise_if (ltb 512 (length records)) relation_limit
        write_all canon (record run { relations = records; verification_stale = true })
