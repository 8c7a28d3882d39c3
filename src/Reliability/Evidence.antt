-- ===== src/Reliability/Evidence.antt =====
-- What `verification_checkpoint` asks of one node, one reference to evidence and one relation. `evidence` is
-- what `evidence_store.metadata` says of a reference, `none` where its status is not "ok".
use awoki.Base.{
  Bool, true, false, not, ◌&&◌, ◌||◌, String, Option, none, some, List, [], ◌∷◌, ◌++◌, map, filter,
  any, contains, unique, length, is_some, nonempty, ltb, text_equality, number_equality, ◌==◌,
  if◌then◌else◌,
}
use awoki.ClaimGraph.Gate.{GateStatus}
use awoki.Reliability.State.{
  Node, NodeKind, NodeStatus, Authority, Requirement, Relation, RelationType,
}
use awoki.Reliability.Assess.{same_requirement}

-- what the metadata of a piece of evidence says: the canonical JSON text of its scope, and whether its
-- reranker was attempted and applied
pub record Evidence : Type 0 where
  pub scope : String
  pub attempted : Bool
  pub applied : Bool

abbrev pub demands : Requirement → Node → Bool
demands requirement node = node.required && any (same_requirement requirement) node.requirements

-- the kinds that ask for an answer, and those that assert
abbrev pub is_open_kind : NodeKind → Bool
is_open_kind NodeKind.gap = true
is_open_kind NodeKind.question = true
is_open_kind NodeKind.contradiction = true
is_open_kind _ = false

abbrev pub is_assertion : NodeKind → Bool
is_assertion NodeKind.claim = true
is_assertion NodeKind.decision = true
is_assertion NodeKind.observation = true
is_assertion _ = false

abbrev pub is_contradiction : NodeKind → Bool
is_contradiction NodeKind.contradiction = true
is_contradiction _ = false

abbrev pub is_gap : NodeKind → Bool
is_gap NodeKind.gap = true
is_gap NodeKind.question = true
is_gap _ = false

abbrev pub is_resolved : NodeStatus → Bool
is_resolved NodeStatus.resolved = true
is_resolved _ = false

abbrev pub is_supported : NodeStatus → Bool
is_supported NodeStatus.supported = true
is_supported NodeStatus.resolved = true
is_supported _ = false

-- the authorities that need evidence of their own
abbrev pub is_evidential : Authority → Bool
is_evidential Authority.tool_evidence = true
is_evidential Authority.source_evidence = true
is_evidential Authority.environment_observation = true
is_evidential Authority.runtime_observation = true
is_evidential Authority.external_reference = true
is_evidential _ = false

abbrev pub is_inference : Authority → Bool
is_inference Authority.model_inference = true
is_inference _ = false

abbrev pub is_derived_from : RelationType → Bool
is_derived_from RelationType.derived_from = true
is_derived_from _ = false

abbrev pub is_supports : RelationType → Bool
is_supports RelationType.supports = true
is_supports _ = false

abbrev pub is_not_applicable : GateStatus → Bool
is_not_applicable GateStatus.not_applicable = true
is_not_applicable _ = false

abbrev pub concat_map : {A B : Type 0} → (A → List B) → List A → List B
concat_map f [] = []
concat_map f (x ∷ xs) = f x ++ concat_map f xs

module _ (evidence : String → Option Evidence) where
  abbrev pub is_missing : String → Bool
  is_missing ref = nonempty ref && not (is_some (evidence ref))

  abbrev pub is_available : String → Bool
  is_available ref = nonempty ref && is_some (evidence ref)

  -- the reranker was attempted for it and not applied
  abbrev pub is_degraded : String → Bool
  is_degraded ref =
      nonempty ref && (elim (evidence ref) [ none ↦ false | some e ↦ e.attempted && not e.applied ])

  abbrev scope_of : String → List String
  scope_of ref = elim (evidence ref) [ none ↦ [] | some e ↦ e.scope ∷ [] ]

  abbrev pub is_backed : Node → Bool
  is_backed node = any is_available node.evidence_refs

  -- `node_scopes`
  abbrev pub node_scopes : Node → List String
  node_scopes node = unique (concat_map scope_of (filter nonempty node.evidence_refs))

  -- `evidence_backed_nodes`
  abbrev pub backed_ids : List Node → List String
  backed_ids nodes = map (λ (n : Node). n.node_id) (filter is_backed nodes)

  abbrev pub is_degraded_node : Node → Bool
  is_degraded_node node =
      demands Requirement.reranker_complete node && any is_degraded node.evidence_refs

  abbrev pub is_mixed_node : Node → Bool
  is_mixed_node node =
      demands Requirement.single_evidence_scope node && ltb 1 (length (node_scopes node))

-- the endpoint is no node
abbrev pub is_dangling : List Node → String → Bool
is_dangling nodes id = not (nonempty id && contains (map (λ (n : Node). n.node_id) nodes) id)

abbrev pub is_broken : List Node → Relation → Bool
is_broken nodes r = is_dangling nodes r.from_node_id || is_dangling nodes r.to_node_id

-- `supporting_nodes`
abbrev pub supporters : List Relation → String → List String
supporters relations id =
    map (λ (r : Relation). r.to_node_id)
      (filter (λ r. r.from_node_id == id && is_derived_from r.kind) relations)
    ++ map (λ (r : Relation). r.from_node_id)
        (filter (λ r. r.to_node_id == id && is_supports r.kind) relations)

-- the tests that end in `required_unresolved.append(node_id)`
abbrev pub is_unsettled : List String → List Relation → Node → Bool
is_unsettled backed relations node =
    let own = contains backed node.node_id in
    let behind = any (contains backed) (supporters relations node.node_id) in
    if not node.required
    then false
    else if is_open_kind node.kind
    then not (is_resolved node.status)
    else if not (is_assertion node.kind)
    then false
    else if not (is_supported node.status)
    then true
    else if is_evidential node.authority
    then not own
    else is_inference node.authority && not own && not behind
