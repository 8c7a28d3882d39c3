-- ===== src/Continuity/Lineage/Reached.antt =====
-- The first loop of `_direction_lineage` finds what it can reach, in the rounds that it has.
use mathlib.Core.Path.{subst}
use awoki.Base.Member.{
  In, In-append, In-append_left, In-append_right, In-map, In-map_of, In-filter, In-filter_of,
  In-contains,
}
use awoki.Base.Unique.{In-unique_of}
use awoki.Base.{
  ℕ, zero, suc, ◌+◌, ◌≤◌, ◌≡◌, refl, sym, false, not, String, List, [], ◌∷◌, ◌++◌, map, filter,
  contains, unique, unique_from, length, length-append, text_equality, eq_iff, ◌==◌, arith, ◌⊎◌,
  inl, inr, Bool-cases,
}
use awoki.Continuity.Lineage.{successors, closure}

module _ (es : List (String × String)) where
  -- the supersedings that start at no related note
  abbrev pub ahead : List String → List (String × String)
  ahead related = filter (λ e. not (contains related e.0)) es

length-unique_from-le : (seen xs : List String) → length (unique_from seen xs) ≤ length xs
unfolding unique_from
length-unique_from-le seen [] = omega arith
length-unique_from-le seen (x ∷ xs) = elim (Bool-cases (contains seen x)) [
  | inl old ↦ rw old (omega (arith, length-unique_from-le seen xs))
  | inr new ↦ rw new (omega (arith, length-unique_from-le (x ∷ seen) xs))
]

length-unique-le : (xs : List String) → length (unique xs) ≤ length xs
unfolding unique
length-unique-le xs = length-unique_from-le [] xs

length-map :
    (es : List (String × String)) → length (map (λ (e : String × String). e.1) es) ≡ length es
length-map [] = refl
length-map (e ∷ es) = omega (arith, length-map es)

length-successors-le :
    (es : List (String × String)) (ref : String)
    → length (successors es ref) ≤ length (filter (λ e. e.0 == ref) es)
length-successors-le es ref =
    let few = filter (λ (e : String × String). e.0 == ref) es in
    omega (arith, length-unique-le (map (λ (e : String × String). e.1) few), length-map few)

ahead-split :
    (es : List (String × String)) (ref : String) (related : List String)
    → contains related ref ≡ false
    → length (ahead es (ref ∷ related)) + length (filter (λ e. e.0 == ref) es)
      ≡ length (ahead es related)
ahead-split [] ref related new = omega arith
ahead-split (e ∷ es) ref related new = elim (Bool-cases (e.0 == ref)) [
  | inl same ↦
      let clear : contains related e.0 ≡ false =
        subst (λ r. contains related r ≡ false) (sym ((eq_iff e.0 ref).0 same)) new in
      rw (same, clear) (omega (arith, ahead-split es ref related new))
  | inr other ↦ elim (Bool-cases (contains related e.0)) [
    | inl known ↦ rw (other, known) (omega (arith, ahead-split es ref related new))
    | inr unknown ↦ rw (other, unknown) (omega (arith, ahead-split es ref related new))
  ]
]

unique_from-In : (a : String) (seen xs : List String) → In a (unique_from seen xs) → In a xs
unfolding unique_from
unique_from-In a seen [] m = m
unique_from-In a seen (x ∷ xs) m = elim (Bool-cases (contains seen x)) [
  | inl old ↦ inr (unique_from-In a seen xs (rw old at m))
  | inr new ↦ elim (rw new at m) [
    | inl same ↦ inl same
    | inr there ↦ inr (unique_from-In a (x ∷ seen) xs there)
  ]
]

unique-In : (a : String) (xs : List String) → In a (unique xs) → In a xs
unfolding unique
unique-In a xs m = unique_from-In a [] xs m

module _ (es : List (String × String)) where
  In-successors : (p s : String) → In (p, s) es → In s (successors es p)
  In-successors p s m =
      let here =
        In-filter_of (λ (e : String × String). e.0 == p) (p, s) es m ((eq_iff p p).1 refl) in
      In-unique_of s (map (λ (e : String × String). e.1) (filter (λ e. e.0 == p) es))
        (In-map_of (λ (e : String × String). e.1) (p, s) (filter (λ e. e.0 == p) es) here)

  successors-In : (p s : String) → In s (successors es p) → In (p, s) es
  successors-In p s m =
      let few = filter (λ (e : String × String). e.0 == p) es in
      let (e, there, same) =
        In-map (λ (e : String × String). e.1) s few
          (unique-In s (map (λ (e : String × String). e.1) few) m) in
      let (m', h) = In-filter (λ (e : String × String). e.0 == p) e es there in
      let first : e.0 ≡ p = (eq_iff e.0 p).0 h in
      subst (λ x. In (p, x) es) (sym same) (subst (λ x. In (x, e.1) es) first m')

  -- what supersedes a related note is related, or waits
  abbrev pub IsClosed : List String → List String → Type 0
  IsClosed related pending =
      (p : String) → In p related → (s : String) → In (p, s) es → In s related ⊎ In s pending

  pub closure_complete :
      (rounds : ℕ) (related pending : List String)
      → length pending + length (ahead es related) ≤ rounds
      → IsClosed related pending
      → ((x : String) → In x related ⊎ In x pending → In x (closure es rounds related pending))
        × IsClosed (closure es rounds related pending) []
  unfolding closure
  closure_complete zero related [] few closed =
      (λ x m. elim m [ inl r ↦ r | inr p ↦ absurd p ], closed)
  closure_complete zero related (ref ∷ pending) few closed = absurd (omega (arith, few))
  closure_complete (suc rounds) related [] few closed =
      (λ x m. elim m [ inl r ↦ r | inr p ↦ absurd p ], closed)
  closure_complete (suc rounds) related (ref ∷ pending) few closed =
      elim (Bool-cases (contains related ref)) [
        | inl known ↦
            let here = In-contains ref related known in
            let closed' : IsClosed related pending = λ p m s e. elim (closed p m s e) [
              | inl r ↦ inl r
              | inr (inl same) ↦ inl (subst (λ x. In x related) (sym same) here)
              | inr (inr later) ↦ inr later
            ] in
            let (all_, end) =
              closure_complete rounds related pending (omega (arith, few)) closed' in
            rw known (
              λ x m. all_ x (elim m [
                | inl r ↦ inl r
                | inr (inl same) ↦ inl (subst (λ x. In x related) (sym same) here)
                | inr (inr later) ↦ inr later
              ]),
              end,
            )
        | inr new ↦
            let next = successors es ref ++ pending in
            let closed' : IsClosed (ref ∷ related) next = λ p m s e. elim m [
              | inl same ↦ inr (
                  In-append_left s (successors es ref) pending
                    (In-successors ref s (subst (λ x. In (x, s) es) same e)))
              | inr r ↦ elim (closed p r s e) [
                | inl there ↦ inl (inr there)
                | inr (inl this) ↦ inl (inl this)
                | inr (inr later) ↦ inr (In-append_right s (successors es ref) pending later)
              ]
            ] in
            let fewer : length next + length (ahead es (ref ∷ related)) ≤ rounds = omega (
              arith,
              few,
              length-append (successors es ref) pending,
              length-successors-le es ref,
              ahead-split es ref related new,
            ) in
            let (all_, end) = closure_complete rounds (ref ∷ related) next fewer closed' in
            rw new (
              λ x m. all_ x (elim m [
                | inl r ↦ inl (inr r)
                | inr (inl this) ↦ inl (inl this)
                | inr (inr later) ↦ inr (In-append_right x (successors es ref) pending later)
              ]),
              end,
            )
      ]

  pub closure_sound :
      (P : String → Type 0)
      → ((p s : String) → P p → In (p, s) es → P s)
      → (rounds : ℕ) (related pending : List String) → ((x : String) → In x related → P x)
      → ((x : String) → In x pending → P x)
      → (x : String) → In x (closure es rounds related pending)
      → P x
  unfolding closure
  closure_sound P step zero related pending old new x m = old x m
  closure_sound P step (suc rounds) related [] old new x m = old x m
  closure_sound P step (suc rounds) related (ref ∷ pending) old new x m =
      elim (Bool-cases (contains related ref)) [
        | inl known ↦
            closure_sound P step rounds related pending old (λ y n. new y (inr n)) x (rw known at m)
        | inr fresh ↦
            closure_sound P step rounds (ref ∷ related) (successors es ref ++ pending)
              (λ y n. elim n [
                | inl same ↦ subst P (sym same) (new ref (inl refl))
                | inr r ↦ old y r
              ])
              (λ y n. elim (In-append y (successors es ref) pending n) [
                | inl s ↦ step ref y (new ref (inl refl)) (successors-In ref y s)
                | inr later ↦ new y (inr later)
              ])
              x (rw fresh at m)
      ]
