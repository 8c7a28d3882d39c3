-- ===== src/ClaimGraph/Contradictions/Sound.antt =====
-- No conflict is reported exactly when the verified claims are consistent.
use mathlib.Core.Path.{subst}
use awoki.Base.Groups.{
  group_by, members, members-group_by, AllRows, AllRows-row, AllRows-group_by, entry_of_member,
  one_group, group_by-single,
}
use awoki.Base.Member.{In, In-filter, In-filter_of}
use awoki.Base.{
  ◌≡◌, ◌≢◌, ◌↔◌, refl, sym, ap, ◌∙◌, true, false, String, List, [], ◌∷◌, ◌≤◌, length, ltb,
  Bool-cases, inl, inr, text_equality, ◌==◌, arith,
}
use awoki.ClaimGraph.{Claim, is_verified}
use awoki.ClaimGraph.Contradictions.{
  Conflict, Key, key_of, key_eq, is_verified_id, verified_of, sorted_pair, add_pair,
  group_conflicts, add_negations, add_all_negations, conflicts_of,
}

-- What the gate asks of the verified claims together.
pub record Consistent {V : Type 0} (canon : V → String) (cs : List (Claim V)) : Type 0 where
  -- one repository, subject and predicate has one value
  pub one_value :
      (c d : Claim V)
      → In c cs
      → In d cs
      → is_verified c.status ≡ true
      → is_verified d.status ≡ true
      → key_of c ≡ key_of d
      → canon c.value ≡ canon d.value
  -- no verified claim negates a verified claim
  pub no_negation :
      (c : Claim V) (id : String)
      → In c cs
      → is_verified c.status ≡ true
      → In id c.negates
      → is_verified_id cs id ≡ false

add_pair-ne-nil : (l : List Conflict) (p : Conflict) → add_pair l p ≢ []
unfolding add_pair
add_pair-ne-nil [] p = λ h. cc h
add_pair-ne-nil (x ∷ l) p = λ h. ground (arith, h)

module _ {V : Type 0} where
  add_negations-nil :
      (cs : List (Claim V)) (id : String) (others : List String) (l : List Conflict)
      → (add_negations cs id others l ≡ [])
        ↔ ((l ≡ []) × ((o : String) → In o others → is_verified_id cs o ≡ false))
  unfolding add_negations
  add_negations-nil cs id [] l = (λ h. (h, λ o m. absurd m), λ h. h.0)
  add_negations-nil cs id (x ∷ others) l = elim (Bool-cases (is_verified_id cs x)) [
    | inl clash ↦ (
      λ h. absurd (
          add_pair-ne-nil l (sorted_pair id x)
            ((add_negations-nil cs id others _).0 (rw clash at h)).0),
      λ h. cc (clash, h.1 x (inl refl)),
    )
    | inr fine ↦ (
      λ h.
          let (empty, rest) = (add_negations-nil cs id others l).0 (rw fine at h) in
          (empty, λ o m. elim m [ inl same ↦ rw same fine | inr there ↦ rest o there ]),
      λ h. rw fine ((add_negations-nil cs id others l).1 (h.0, λ o m. h.1 o (inr m))),
    )
  ]

  add_all_negations-nil :
      (cs rows : List (Claim V)) (l : List Conflict)
      → (add_all_negations cs rows l ≡ []) ↔ (
          (l ≡ [])
          × ((c : Claim V) (o : String) → In c rows → In o c.negates → is_verified_id cs o ≡ false))
  unfolding add_all_negations
  add_all_negations-nil cs [] l = (λ h. (h, λ c o m. absurd m), λ h. h.0)
  add_all_negations-nil cs (x ∷ rows) l = (
    λ h.
        let (first, rest) = (add_all_negations-nil cs rows _).0 h in
        let (empty, own) = (add_negations-nil cs x.claim_id x.negates l).0 first in
        (
          empty,
          λ c o m n. elim m [
            | inl same ↦ own o (subst (λ d. In o d.negates) same n)
            | inr there ↦ rest c o there n
          ],
        ),
    λ h. (add_all_negations-nil cs rows _).1 (
      (add_negations-nil cs x.claim_id x.negates l).1 (h.0, λ o n. h.1 x o (inl refl) n),
      λ c o m n. h.1 c o (inr m) n,
    ),
  )

module _ {V : Type 0} (canon : V → String) where
  abbrev value_of : Claim V → String
  value_of c = canon c.value

  -- no group has two values
  abbrev Single : List (Key × List (Claim V)) → Type 0
  Single groups =
      (k : Key) (rows : List (Claim V)) → In (k, rows) groups → length (group_by value_of rows) ≤ 1

  group_conflicts-nil :
      (groups : List (Key × List (Claim V))) → (group_conflicts canon groups ≡ []) ↔ Single groups
  unfolding group_conflicts
  group_conflicts-nil [] = (λ h k rows m. absurd m, λ h. refl)
  group_conflicts-nil ((key, rows) ∷ groups) =
      elim (Bool-cases (ltb 1 (length (group_by value_of rows)))) [
        | inl two ↦ (λ h. cc (rw two at h), λ h. absurd (ground (arith, h key rows (inl refl))))
        | inr one ↦ (
          λ h k rs m. elim m [
            | inl same ↦
                subst (λ r. length (group_by value_of r) ≤ 1) (sym (ap (λ p. p.1) same))
                  (ground arith)
            | inr there ↦ (group_conflicts-nil groups).0 (rw one at h) k rs there
          ],
          λ h. rw one ((group_conflicts-nil groups).1 (λ k rs m. h k rs (inr m))),
        )
      ]

  -- `contradictions` reports nothing exactly when the verified claims are consistent: no two of them
  -- give one predicate of one subject of one repository two values, and none of them negates a verified
  -- claim.
  pub conflicts-nil_iff : (cs : List (Claim V)) → (conflicts_of canon cs ≡ []) ↔ Consistent canon cs
  unfolding conflicts_of
  conflicts-nil_iff cs = (sound, complete)
    where
      vs : List (Claim V)
      vs = verified_of cs

      groups : List (Key × List (Claim V))
      groups = group_by key_of vs

      is_row :
          (c : Claim V) → In c cs → is_verified c.status ≡ true → In c (members (key_of c) groups)
      is_row c m v = rw (members-group_by key_of (key_of c) vs) (
          In-filter_of (λ x. key_of x == key_of c) c vs
            (In-filter_of (λ x. is_verified x.status) c cs m v)
            ((key_eq.agrees (key_of c) (key_of c)).1 refl))

      sound : conflicts_of canon cs ≡ [] → Consistent canon cs
      sound h =
          let (no_groups, no_pairs) =
            (add_all_negations-nil cs vs (group_conflicts canon groups)).0 h in
          record {
            one_value = λ c d mc md vc vd same.
                let rows = members (key_of c) groups in
                let (j, entry) = entry_of_member (key_of c) c groups (is_row c mc vc) in
                one_group value_of rows c d ((group_conflicts-nil groups).0 no_groups j rows entry)
                  (is_row c mc vc)
                  (subst (λ k. In d (members k groups)) (sym same) (is_row d md vd));
            no_negation =
                λ c id m v n. no_pairs c id (In-filter_of (λ x. is_verified x.status) c cs m v) n;
          }

      row_facts : AllRows (λ k c. (key_of c ≡ k) × In c vs) groups
      row_facts = AllRows-group_by (λ k c. (key_of c ≡ k) × In c vs) key_of vs (λ c m. (refl, m))

      agree :
          Consistent canon cs
          → (k : Key) (rows : List (Claim V)) → In (k, rows) groups
          → (c d : Claim V) → In c rows
          → In d rows
          → value_of c ≡ value_of d
      agree h k rows entry c d mc md =
          let (kc, vc) = AllRows-row _ k rows c groups row_facts entry mc in
          let (kd, vd) = AllRows-row _ k rows d groups row_facts entry md in
          let (ic, sc) = In-filter (λ x. is_verified x.status) c cs vc in
          let (id, sd) = In-filter (λ x. is_verified x.status) d cs vd in
          h.one_value c d ic id sc sd (kc ∙ sym kd)

      complete : Consistent canon cs → conflicts_of canon cs ≡ []
      complete h = (add_all_negations-nil cs vs (group_conflicts canon groups)).1 (
        (group_conflicts-nil groups).1
            (λ k rows entry. group_by-single value_of rows (agree h k rows entry)),
        λ c id m n.
            let (mc, v) = In-filter (λ x. is_verified x.status) c cs m in h.no_negation c id mc v n,
      )
