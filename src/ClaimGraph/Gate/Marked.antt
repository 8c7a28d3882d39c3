-- ===== src/ClaimGraph/Gate/Marked.antt =====
-- What it means for the claims of a run that those with a declared identity become required.
use mathlib.Core.Path.{subst}
use awoki.Base.Member.{In, In-map, In-map_of, In-contains, contains_of_In}
use awoki.Base.{
  ◌≡◌, ◌↔◌, ◌⊎◌, refl, sym, ap, ◌∙◌, true, false, String, Option, none, some, List, [], ◌∷◌, map,
  contains, is_nonempty, text_equality, ◌==◌, Bool-cases, Option-cases, inl, inr,
}
use awoki.ClaimGraph.{Claim, is_verified}
use awoki.ClaimGraph.Normal.{IsNormal}
use awoki.ClaimGraph.Contradictions.{key_of, by_id, is_verified_id}
use awoki.ClaimGraph.Contradictions.Sound.{Consistent}
use awoki.ClaimGraph.Gate.{mark, mark_required}

module _ {V : Type 0} where
  mark-IsNormal : (expected : List String) (c : Claim V) → IsNormal c → IsNormal (mark expected c)
  mark-IsNormal expected c h = elim (Bool-cases (contains expected c.claim_id)) [
    | inl wanted ↦ rw wanted (record {
      id_stripped = h.id_stripped;
      repo_stripped = h.repo_stripped;
      subject_stripped = h.subject_stripped;
      predicate_stripped = h.predicate_stripped;
      reason_stripped = h.reason_stripped;
      evidence_kept = h.evidence_kept;
      depends_kept = h.depends_kept;
      negates_kept = h.negates_kept;
      has_id = h.has_id;
      has_subject = h.has_subject;
      has_predicate = h.has_predicate;
      backed = h.backed;
    })
    | inr other ↦ rw other h
  ]

  pub mark_required-IsNormal :
      (expected : List String) (cs : List (Claim V))
      → ((c : Claim V) → In c cs → IsNormal c)
      → (c : Claim V) → In c (mark_required expected cs)
      → IsNormal c
  unfolding mark_required
  mark_required-IsNormal expected cs h c m = elim (Bool-cases (is_nonempty expected)) [
    | inl some_expected ↦
        let (d, there, same) = In-map (mark expected) c cs (rw some_expected at m) in
        subst IsNormal (sym same) (mark-IsNormal expected d (h d there))
    | inr none_expected ↦ h c (rw none_expected at m)
  ]

  -- a claim that was recorded as required, or whose identity is declared
  abbrev pub IsWanted : List String → Claim V → Type 0
  IsWanted expected c = (c.required ≡ true) ⊎ In c.claim_id expected

  pub mark-IsWanted :
      (expected : List String) (c : Claim V)
      → ((mark expected c).required ≡ true) ↔ IsWanted expected c
  mark-IsWanted expected c = elim (Bool-cases (contains expected c.claim_id)) [
    | inl wanted ↦ rw wanted (λ r. inr (In-contains c.claim_id expected wanted), λ w. refl)
    | inr other ↦ rw other (
      λ r. inl r,
      λ w. elim w [ inl r ↦ r | inr m ↦ cc (contains_of_In c.claim_id expected m, other) ],
    )
  ]

  -- all else stays
  pub mark-same :
      (expected : List String) (c : Claim V)
      → ((mark expected c).claim_id ≡ c.claim_id)
        × ((mark expected c).status ≡ c.status)
        × ((mark expected c).value ≡ c.value)
        × (key_of (mark expected c) ≡ key_of c)
        × ((mark expected c).negates ≡ c.negates)
  mark-same expected c = elim (Bool-cases (contains expected c.claim_id)) [
    | inl wanted ↦ rw wanted (refl, refl, refl, refl, refl)
    | inr other ↦ rw other (refl, refl, refl, refl, refl)
  ]

  mark_required-map :
      (expected : List String) (cs : List (Claim V))
      → mark_required expected cs ≡ map (mark expected) cs
  unfolding mark_required
  mark_required-map (e ∷ expected) cs = refl
  mark_required-map [] cs = unmarked cs
    where
      unmarked : (cs : List (Claim V)) → cs ≡ map (mark []) cs
      unmarked [] = refl
      unmarked (c ∷ cs) = ap (λ l. c ∷ l) (unmarked cs)

  pub In-mark_required :
      (expected : List String) (c : Claim V) (cs : List (Claim V))
      → In c (mark_required expected cs)
      → (d : Claim V) × In d cs × (c ≡ mark expected d)
  In-mark_required expected c cs m =
      In-map (mark expected) c cs (subst (In c) (mark_required-map expected cs) m)

  pub In-mark_required_of :
      (expected : List String) (d : Claim V) (cs : List (Claim V))
      → In d cs
      → In (mark expected d) (mark_required expected cs)
  In-mark_required_of expected d cs m =
      subst (In (mark expected d)) (sym (mark_required-map expected cs))
        (In-map_of (mark expected) d cs m)

  abbrev marked : List String → Option (Claim V) → Option (Claim V)
  marked expected none = none
  marked expected (some c) = some (mark expected c)

  by_id-map :
      (expected : List String) (id : String) (cs : List (Claim V))
      → by_id id (map (mark expected) cs) ≡ marked expected (by_id id cs)
  unfolding by_id
  by_id-map expected id [] = refl
  by_id-map expected id (c ∷ cs) =
      let ih = by_id-map expected id cs in
      elim (Option-cases (by_id id cs)) [
        | inr (d, found) ↦ rw (ih, found)
        | inl unfound ↦ elim (Bool-cases (c.claim_id == id)) [
          | inl this ↦
              let this' : ((mark expected c).claim_id == id) ≡ true =
                ap (λ i. i == id) (mark-same expected c).0 ∙ this in
              rw (ih, unfound) (rw (this, this'))
          | inr other ↦
              let other' : ((mark expected c).claim_id == id) ≡ false =
                ap (λ i. i == id) (mark-same expected c).0 ∙ other in
              rw (ih, unfound) (rw (other, other'))
        ]
      ]

  is_verified_id-mark_required :
      (expected : List String) (id : String) (cs : List (Claim V))
      → is_verified_id (mark_required expected cs) id ≡ is_verified_id cs id
  is_verified_id-mark_required expected id cs =
      ap (λ l. is_verified_id l id) (mark_required-map expected cs)
      ∙ ap (λ (o : Option (Claim V)). elim o [ none ↦ false | some c ↦ is_verified c.status ])
          (by_id-map expected id cs)
      ∙ still (by_id id cs)
    where
      still :
          (o : Option (Claim V))
          → (elim (marked expected o) [ none ↦ false | some c ↦ is_verified c.status ])
            ≡ (elim o [ none ↦ false | some c ↦ is_verified c.status ])
      still none = refl
      still (some d) = ap is_verified (mark-same expected d).1

  -- what the gate asks of the verified claims together is the same of the marked claims
  pub mark_required-Consistent :
      (canon : V → String) (expected : List String) (cs : List (Claim V))
      → Consistent canon (mark_required expected cs) ↔ Consistent canon cs
  mark_required-Consistent canon expected cs = (sound, complete)
    where
      sound : Consistent canon (mark_required expected cs) → Consistent canon cs
      sound h = record {
        one_value = λ c d mc md vc vd same.
            let (ic, sc, xc, kc, nc) = mark-same expected c in
            let (id, sd, xd, kd, nd) = mark-same expected d in
            ap canon (sym xc)
            ∙ h.one_value (mark expected c) (mark expected d) (In-mark_required_of expected c cs mc)
                (In-mark_required_of expected d cs md) (ap is_verified sc ∙ vc)
                (ap is_verified sd ∙ vd) (kc ∙ same ∙ sym kd)
            ∙ ap canon xd;
        no_negation = λ c id m v n.
            let (ic, sc, xc, kc, nc) = mark-same expected c in
            sym (is_verified_id-mark_required expected id cs)
            ∙ h.no_negation (mark expected c) id (In-mark_required_of expected c cs m)
                (ap is_verified sc ∙ v) (subst (In id) (sym nc) n);
      }

      complete : Consistent canon cs → Consistent canon (mark_required expected cs)
      complete h = record {
        one_value = λ c d mc md vc vd same.
            let (c', tc, ec) = In-mark_required expected c cs mc in
            let (d', td, ed) = In-mark_required expected d cs md in
            let (ic, sc, xc, kc, nc) = mark-same expected c' in
            let (id, sd, xd, kd, nd) = mark-same expected d' in
            ap (λ k. canon k.value) ec
            ∙ ap canon xc
            ∙ h.one_value c' d' tc td
                (sym (ap (λ k. is_verified k.status) ec ∙ ap is_verified sc) ∙ vc)
                (sym (ap (λ k. is_verified k.status) ed ∙ ap is_verified sd) ∙ vd)
                (sym (ap key_of ec ∙ kc) ∙ same ∙ ap key_of ed ∙ kd)
            ∙ sym (ap (λ k. canon k.value) ed ∙ ap canon xd);
        no_negation = λ c id m v n.
            let (c', tc, ec) = In-mark_required expected c cs m in
            let (ic, sc, xc, kc, nc) = mark-same expected c' in
            is_verified_id-mark_required expected id cs
            ∙ h.no_negation c' id tc
                (sym (ap (λ k. is_verified k.status) ec ∙ ap is_verified sc) ∙ v)
                (subst (In id) (ap (λ k. k.negates) ec ∙ nc) n);
      }
