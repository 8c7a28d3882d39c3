-- ===== src/Continuity/Lineage/Related.antt =====
-- The related notes are those that descend from a direction.
use mathlib.Core.Path.{subst}
use awoki.Base.Member.{
  In, In-append, In-append_left, In-append_right, In-map, In-map_of, In-filter, In-filter_of,
}
use awoki.Base.{
  ◌+◌, ◌≤◌, ◌≡◌, ◌↔◌, refl, sym, ap, String, List, [], ◌∷◌, filter, length, text_equality,
  number_equality, eq_iff, ◌==◌, arith, ◌⊎◌, inl, inr,
}
use awoki.Continuity.Journal.{Note}
use awoki.Continuity.Lineage.{edges_of, edges, start, related_of}
use awoki.Continuity.Lineage.Reached.{ahead, IsClosed, closure_complete, closure_sound}

-- the identity of a direction, or of a note that supersedes one that descends from a direction
pub data Descends (notes : List Note) : String → Type 0 where
  begins : (n : Note) → In n notes → n.kind ≡ "direction" → Descends notes n.id
  follows :
      (previous : String)
      → Descends notes previous
      → (n : Note) → In n notes
      → In previous n.supersedes
      → Descends notes n.id

edges_of-In :
    (id p s : String) (refs : List String) → In (p, s) (edges_of id refs) → (s ≡ id) × In p refs
edges_of-In id p s [] m = absurd m
edges_of-In id p s (r ∷ refs) (inl same) = (ap (λ e. e.1) same, inl (ap (λ e. e.0) same))
edges_of-In id p s (r ∷ refs) (inr there) = let (a, b) = edges_of-In id p s refs there in (a, inr b)

In-edges_of : (id p : String) (refs : List String) → In p refs → In (p, id) (edges_of id refs)
In-edges_of id p [] m = absurd m
In-edges_of id p (r ∷ refs) (inl same) = inl (ap (λ q. (q, id)) same)
In-edges_of id p (r ∷ refs) (inr there) = inr (In-edges_of id p refs there)

edges-In :
    (p s : String) (notes : List Note)
    → In (p, s) (edges notes)
    → (n : Note) × In n notes × (s ≡ n.id) × In p n.supersedes
edges-In p s [] m = absurd m
edges-In p s (n ∷ notes) m = elim (In-append (p, s) (edges_of n.id n.supersedes) (edges notes) m) [
  | inl here ↦ let (a, b) = edges_of-In n.id p s n.supersedes here in (n, inl refl, a, b)
  | inr later ↦ let (n', there, a, b) = edges-In p s notes later in (n', inr there, a, b)
]

In-edges :
    (p : String) (n : Note) (notes : List Note)
    → In n notes
    → In p n.supersedes
    → In (p, n.id) (edges notes)
In-edges p n [] m q = absurd m
In-edges p n (x ∷ notes) (inl same) q =
    In-append_left (p, n.id) (edges_of x.id x.supersedes) (edges notes)
      (subst (λ (y : Note). In (p, n.id) (edges_of y.id y.supersedes)) same
        (In-edges_of n.id p n.supersedes q))
In-edges p n (x ∷ notes) (inr there) q =
    In-append_right (p, n.id) (edges_of x.id x.supersedes) (edges notes)
      (In-edges p n notes there q)

length-ahead-le : (es : List (String × String)) → length (ahead es []) ≤ length es
length-ahead-le [] = omega arith
length-ahead-le (e ∷ es) = omega (arith, length-ahead-le es)

module _ (notes : List Note) where
  In-start : (n : Note) → In n notes → n.kind ≡ "direction" → In n.id (start notes)
  In-start n m k =
      In-map_of (λ (n : Note). n.id) n (filter (λ n. n.kind == "direction") notes)
        (In-filter_of (λ n. n.kind == "direction") n notes m ((eq_iff n.kind "direction").1 k))

  start-Descends : (x : String) → In x (start notes) → Descends notes x
  start-Descends x m =
      let (n, there, same) =
        In-map (λ (n : Note). n.id) x (filter (λ n. n.kind == "direction") notes) m in
      let (m', k) = In-filter (λ n. n.kind == "direction") n notes there in
      subst (Descends notes) (sym same) (begins n m' ((eq_iff n.kind "direction").0 k))

  complete :
      (x : String)
      → Descends notes x
      → ((y : String) → In y [] ⊎ In y (start notes) → In y (related_of notes))
        × IsClosed (edges notes) (related_of notes) []
      → In x (related_of notes)
  complete x (begins n m k) (all_, closed) = all_ n.id (inr (In-start n m k))
  complete x (follows previous d n m q) (all_, closed) =
      elim (closed previous (complete previous d (all_, closed)) n.id
        (In-edges previous n notes m q)) [ inl r ↦ r | inr p ↦ absurd p ]

  -- A note is related exactly when it descends from a direction.
  pub related_iff : (x : String) → In x (related_of notes) ↔ Descends notes x
  related_iff x = (
    closure_sound (edges notes) (Descends notes)
        (λ p s d e.
          let (n, m, same, q) = edges-In p s notes e in
          subst (Descends notes) (sym same) (follows p d n m q))
        (length (start notes) + length (edges notes)) [] (start notes) (λ y m. absurd m)
        start-Descends x,
    λ d. complete x d (
        closure_complete (edges notes) (length (start notes) + length (edges notes)) []
          (start notes) (omega (arith, length-ahead-le (edges notes))) (λ p m. absurd m)),
  )
