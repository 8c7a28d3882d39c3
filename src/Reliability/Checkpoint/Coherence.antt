-- ===== src/Reliability/Checkpoint/Coherence.antt =====
-- When a checkpoint passes, and lets the run pass.
use awoki.Base.Member.{In, In-filter, filter-nil}
use awoki.Base.{
  ◌≡◌, ◌↔◌, ◌⊎◌, ◌≤◌, refl, Bool, true, false, not, ◌&&◌, ◌||◌, String, Option, List, [], ◌∷◌,
  filter, any, contains, length, is_nonempty, arith, inl, inr, Bool-cases, ltb, text_equality,
  if◌then◌else◌,
}
use awoki.ClaimGraph.Gate.{GateStatus}
use awoki.Reliability.State.{Node, NodeKind, Authority, Requirement, Relation, CheckpointResult}
use awoki.Reliability.Finish.{is_gate_failed, is_gate_blocked}
use awoki.Reliability.Finish.Passing.{is_gate_open}
use awoki.Reliability.Evidence.{
  Evidence, demands, is_open_kind, is_assertion, is_contradiction, is_resolved, is_supported,
  is_evidential, is_inference, is_degraded, node_scopes, backed_ids, is_degraded_node,
  is_mixed_node, is_dangling, is_broken, supporters, is_unsettled, is_not_applicable,
}
use awoki.Reliability.Checkpoint.{unresolved, has_findings, missing_refs, unsettled, result_of}

-- What a required node needs, where some nodes are backed by evidence that is available.
pub record IsSettled (backed : List String) (relations : List Relation) (node : Node) : Type 0 where
  -- a gap, a question and a contradiction are resolved
  pub answered : is_open_kind node.kind ≡ true → is_resolved node.status ≡ true
  -- a claim, a decision and an observation are supported or resolved
  pub supported : is_assertion node.kind ≡ true → is_supported node.status ≡ true
  -- by evidence of their own, where they rest on evidence
  pub own :
      is_assertion node.kind ≡ true
      → is_evidential node.authority ≡ true
      → contains backed node.node_id ≡ true
  -- by that or by a node that they derive from or that supports them, where the model inferred them
  pub inferred :
      is_assertion node.kind ≡ true
      → is_inference node.authority ≡ true
      → (contains backed node.node_id || any (contains backed) (supporters relations node.node_id))
        ≡ true

assertion_closed : (k : NodeKind) → is_assertion k ≡ true → is_open_kind k ≡ false
assertion_closed k h = ground arith

contradiction_open : (k : NodeKind) → is_contradiction k ≡ true → is_open_kind k ≡ true
contradiction_open k h = ground arith

inference_bare : (a : Authority) → is_inference a ≡ true → is_evidential a ≡ false
inference_bare a h = ground arith

-- the ladder of `is_unsettled` over its tests
ladder :
    (open_ resolved asserts supported evidential infers own behind : Bool)
    → (asserts ≡ true → open_ ≡ false)
    → (infers ≡ true → evidential ≡ false)
    → ((if open_
          then not resolved
          else if not asserts
          then false
          else if not supported
          then true
          else if evidential
          then not own
          else infers && not own && not behind)
        ≡ false)
      ↔ ((open_ ≡ true → resolved ≡ true)
          × (asserts ≡ true → supported ≡ true)
          × (asserts ≡ true → evidential ≡ true → own ≡ true)
          × (asserts ≡ true → infers ≡ true → (own || behind) ≡ true))
ladder true r true s e i o b x y = cc (x refl)
ladder true r false s e i o b x y =
    (λ h. (λ _. ground arith, λ k. cc, λ k. cc, λ k. cc), λ h. ground (arith, h.0 refl))
ladder false r false s e i o b x y = (λ h. (λ k. cc, λ k. cc, λ k. cc, λ k. cc), λ h. refl)
ladder false r true false e i o b x y = (λ h. cc, λ h. cc (h.1 refl))
ladder false r true true true true o b x y = cc (y refl)
ladder false r true true true false o b x y =
    (λ h. (λ k. cc, λ k. refl, λ k l. ground arith, λ k l. cc), λ h. ground (arith, h.2 refl refl))
ladder false r true true false false o b x y =
    (λ h. (λ k. cc, λ k. refl, λ k l. cc, λ k l. cc), λ h. refl)
ladder false r true true false true o b x y =
    (λ h. (λ k. cc, λ k. refl, λ k l. cc, λ k l. ground arith), λ h. ground (arith, h.3 refl refl))

unsettled_iff :
    (backed : List String) (relations : List Relation) (node : Node)
    → node.required ≡ true
    → (is_unsettled backed relations node ≡ false) ↔ IsSettled backed relations node
unsettled_iff backed relations node needed =
    let (sound, complete) =
      ladder (is_open_kind node.kind) (is_resolved node.status) (is_assertion node.kind)
        (is_supported node.status) (is_evidential node.authority) (is_inference node.authority)
        (contains backed node.node_id) (any (contains backed) (supporters relations node.node_id))
        (assertion_closed node.kind) (inference_bare node.authority) in
    rw needed (
      λ h.
          let (a, b, c, d) = sound h in
          record { answered = a; supported = b; own = c; inferred = d },
      λ s. complete (s.answered, s.supported, s.own, s.inferred),
    )

-- What the assessments and the relations of a run need, with the evidence that is available.
pub record IsCoherent (evidence : String → Option Evidence) (nodes : List Node)
    (relations : List Relation) : Type 0 where
  -- every reference to evidence is available
  pub available : (ref : String) → In ref (missing_refs evidence nodes) → ⊥
  -- every relation stands between two nodes
  pub linked :
      (r : Relation)
      → In r relations
      → (is_dangling nodes r.from_node_id ≡ false) × (is_dangling nodes r.to_node_id ≡ false)
  pub settled :
      (n : Node)
      → In n nodes
      → n.required ≡ true
      → IsSettled (backed_ids evidence nodes) relations n
  -- the reranker was not attempted in vain for a node that requires it
  pub reranked :
      (n : Node)
      → In n nodes
      → demands Requirement.reranker_complete n ≡ true
      → any (is_degraded evidence) n.evidence_refs ≡ false
  -- the evidence of a node that requires it is of one scope
  pub one_scope :
      (n : Node)
      → In n nodes
      → demands Requirement.single_evidence_scope n ≡ true
      → length (node_scopes evidence n) ≤ 1

-- membership in `_PASSING_CHECKPOINT_RESULTS`
abbrev pub passes : CheckpointResult → Bool
passes CheckpointResult.verified = true
passes CheckpointResult.verified_with_findings = true
passes _ = false

nil_iff : {A : Type 0} (xs : List A) → (is_nonempty xs ≡ false) ↔ ((x : A) → In x xs → ⊥)
nil_iff [] = (λ h x m. m, λ h. refl)
nil_iff (x ∷ xs) = (λ h. cc, λ h. absurd (h x (inl refl)))

and_false : (b c : Bool) → ((b && c) ≡ false) ↔ (b ≡ true → c ≡ false)
and_false true c = (λ h k. h, λ h. h refl)
and_false false c = (λ h k. cc, λ h. refl)

and_true : (b c : Bool) → (b && c) ≡ true → (b ≡ true) × (c ≡ true)
and_true true c h = (refl, h)
and_true false c h = cc

-- the ladder of `result_of` over its tests
verdict :
    (contradiction missing broken open_ degraded mixed subject findings : Bool) (g : GateStatus)
    → (passes (
          if contradiction || is_gate_failed g
          then CheckpointResult.contradicted
          else if missing || broken
          then CheckpointResult.blocked
          else if open_ || degraded || mixed || is_gate_blocked g
          then CheckpointResult.incomplete
          else if not subject && is_not_applicable g
          then CheckpointResult.not_applicable
          else if findings
          then CheckpointResult.verified_with_findings
          else CheckpointResult.verified)
        ≡ true)
      ↔ ((contradiction ≡ false)
          × (missing ≡ false)
          × (broken ≡ false)
          × (open_ ≡ false)
          × (degraded ≡ false)
          × (mixed ≡ false)
          × (is_gate_open g ≡ true)
          × ((subject ≡ true) ⊎ (g ≡ GateStatus.passed)))
verdict k m b o d x s f g = (λ h. ground arith, λ (h0, h1, h2, h3, h4, h5, h6, h7). ground arith)

module _ (evidence : String → Option Evidence) (nodes : List Node) (relations : List Relation) where
  -- the tests of the ladder that hold a run back
  abbrev pub Clear : Type 0
  Clear =
      (is_nonempty (missing_refs evidence nodes) ≡ false)
      × (is_nonempty (filter (is_broken nodes) relations) ≡ false)
      × (is_nonempty (unsettled evidence nodes relations) ≡ false)
      × (is_nonempty (filter (is_degraded_node evidence) nodes) ≡ false)
      × (is_nonempty (filter (is_mixed_node evidence) nodes) ≡ false)

  -- a required contradiction is unsettled
  contradiction_unsettled :
      is_nonempty (unsettled evidence nodes relations) ≡ false
      → is_nonempty (filter (λ n. n.required) (unresolved nodes)) ≡ false
  contradiction_unsettled h = (filter-nil (λ n. n.required) (unresolved nodes)).1 (λ n m. free n m)
    where
      free : (n : Node) → In n (unresolved nodes) → n.required ≡ false
      free n m =
          let (there, open_) =
            In-filter (λ n. is_contradiction n.kind && not (is_resolved n.status)) n nodes m in
          let calm =
            (filter-nil (is_unsettled (backed_ids evidence nodes) relations) nodes).0 h n there in
          elim (Bool-cases n.required) [
            | inr other ↦ other
            | inl needed ↦
                let done =
                  ((unsettled_iff (backed_ids evidence nodes) relations n needed).0 calm).answered
                    (contradiction_open n.kind (and_true _ _ open_).0) in
                absurd (
                  cc (
                    done,
                    (and_true (is_contradiction n.kind) (not (is_resolved n.status)) open_).1,
                  ))
          ]

  pub clear_iff : Clear ↔ IsCoherent evidence nodes relations
  clear_iff = (sound, complete)
    where
      settles :
          (n : Node)
          → is_unsettled (backed_ids evidence nodes) relations n ≡ false
          → n.required ≡ true
          → IsSettled (backed_ids evidence nodes) relations n
      settles n calm needed = (unsettled_iff (backed_ids evidence nodes) relations n needed).0 calm

      calms :
          IsCoherent evidence nodes relations
          → (n : Node) → In n nodes
          → is_unsettled (backed_ids evidence nodes) relations n ≡ false
      calms c n m = elim (Bool-cases n.required) [
        | inl needed ↦
            (unsettled_iff (backed_ids evidence nodes) relations n needed).1 (c.settled n m needed)
        | inr free ↦ rw free
      ]

      sound : Clear → IsCoherent evidence nodes relations
      sound (available, linked, calm, reranked, scoped) = record {
        available = (nil_iff (missing_refs evidence nodes)).0 available;
        linked = λ r m.
            let h = (filter-nil (is_broken nodes) relations).0 linked r m in
            (ground (arith, h), ground (arith, h));
        settled = λ n m.
            settles n
              ((filter-nil (is_unsettled (backed_ids evidence nodes) relations) nodes).0 calm n m);
        reranked = λ n m.
            (and_false (demands Requirement.reranker_complete n)
                (any (is_degraded evidence) n.evidence_refs)).0
              ((filter-nil (is_degraded_node evidence) nodes).0 reranked n m);
        one_scope = λ n m d.
            let h =
              (and_false (demands Requirement.single_evidence_scope n)
                  (ltb 1 (length (node_scopes evidence n)))).0
                ((filter-nil (is_mixed_node evidence) nodes).0 scoped n m) d in
            ground (arith, h);
      }

      complete : IsCoherent evidence nodes relations → Clear
      complete c = (
        (nil_iff (missing_refs evidence nodes)).1 c.available,
        (filter-nil (is_broken nodes) relations).1 (λ r m. let (a, b) = c.linked r m in rw (a, b)),
        (filter-nil (is_unsettled (backed_ids evidence nodes) relations) nodes).1 (calms c),
        (filter-nil (is_degraded_node evidence) nodes).1 (λ n m.
            (and_false (demands Requirement.reranker_complete n)
                (any (is_degraded evidence) n.evidence_refs)).1
              (c.reranked n m)),
        (filter-nil (is_mixed_node evidence) nodes).1 (λ n m.
            (and_false (demands Requirement.single_evidence_scope n)
                (ltb 1 (length (node_scopes evidence n)))).1
              (λ d. let h = c.one_scope n m d in ground (arith, h))),
      )

  -- the checkpoint has something to verify: a node, or claims that pass the gate
  abbrev pub HasSubject : GateStatus → Type 0
  HasSubject g = (is_nonempty nodes ≡ true) ⊎ (g ≡ GateStatus.passed)

  pub result_passes :
      (g : GateStatus)
      → (passes (result_of evidence nodes relations g) ≡ true)
        ↔ (Clear × (is_gate_open g ≡ true) × HasSubject g)
  unfolding result_of
  result_passes g =
      let (sound, complete) =
        verdict (is_nonempty (filter (λ n. n.required) (unresolved nodes)))
          (is_nonempty (missing_refs evidence nodes))
          (is_nonempty (filter (is_broken nodes) relations))
          (is_nonempty (unsettled evidence nodes relations))
          (is_nonempty (filter (is_degraded_node evidence) nodes))
          (is_nonempty (filter (is_mixed_node evidence) nodes)) (is_nonempty nodes)
          (has_findings evidence nodes) g in
      (
        λ p. let (k, m, b, u, d, x, o, t) = sound p in ((m, b, u, d, x), o, t),
        λ q.
            let (m, b, u, d, x) = q.0 in
            complete (contradiction_unsettled u, m, b, u, d, x, q.1, q.2),
      )
