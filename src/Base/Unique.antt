-- ===== src/Base/Unique.antt =====
-- `list(dict.fromkeys(xs))` keeps each value once.
use mathlib.Core.Path.{◌≡◌, refl}
use mathlib.Core.Logic.{◌⊎◌, inl, inr}
use mathlib.Core.Bool.{true, false}
use mathlib.Core.List.{List, [], ◌∷◌}
use native.Mathlib.Omega.{arith}
use awoki.Base.Tests.{Eq, ◌==◌, Bool-cases}
use awoki.Base.Lists.{contains, unique_from, unique}
use awoki.Base.Member.{In}

module _ {A : Type 0} ⦃e : Eq A⦄ where
  abbrev pub IsDistinct : List A → Type 0
  IsDistinct [] = Unit
  IsDistinct (x ∷ xs) = (contains xs x ≡ false) × IsDistinct xs

  In-unique_from :
      (a : A) (seen xs : List A) → In a xs → (contains seen a ≡ true) ⊎ In a (unique_from seen xs)
  unfolding unique_from
  In-unique_from a seen [] h = absurd h
  In-unique_from a seen (x ∷ xs) h = elim (Bool-cases (contains seen x)) [
    | inl old ↦
        rw old
          (elim h [ inl same ↦ inl (rw same old) | inr there ↦ In-unique_from a seen xs there ])
    | inr new ↦ rw new (elim h [
      | inl same ↦ inr (inl same)
      | inr there ↦ elim (In-unique_from a (x ∷ seen) xs there) [
        | inl known ↦ elim (Bool-cases (a == x)) [
          | inl same ↦ inr (inl ((e.agrees a x).0 same))
          | inr differ ↦ inl (rw differ at known)
        ]
        | inr later ↦ inr (inr later)
      ]
    ])
  ]

  -- No value is lost.
  pub In-unique_of : (a : A) (xs : List A) → In a xs → In a (unique xs)
  unfolding unique
  In-unique_of a xs h = elim (In-unique_from a [] xs h) [ inl known ↦ cc | inr there ↦ there ]

  unique_from-unseen :
      (a : A) (seen xs : List A) → contains seen a ≡ true → contains (unique_from seen xs) a ≡ false
  unfolding unique_from
  unique_from-unseen a seen [] h = refl
  unique_from-unseen a seen (x ∷ xs) h = elim (Bool-cases (contains seen x)) [
    | inl old ↦ rw old (unique_from-unseen a seen xs h)
    | inr new ↦ rw new (ground (arith, unique_from-unseen a (x ∷ seen) xs, e.agrees a x))
  ]

  unique_from-IsDistinct : (seen xs : List A) → IsDistinct (unique_from seen xs)
  unfolding unique_from
  unique_from-IsDistinct seen [] = tt
  unique_from-IsDistinct seen (x ∷ xs) = elim (Bool-cases (contains seen x)) [
    | inl old ↦ rw old (unique_from-IsDistinct seen xs)
    | inr new ↦ rw new (
      unique_from-unseen x (x ∷ seen) xs (rw ((e.agrees x x).1 refl)),
      unique_from-IsDistinct (x ∷ seen) xs,
    )
  ]

  pub unique-IsDistinct : (xs : List A) → IsDistinct (unique xs)
  unfolding unique
  unique-IsDistinct xs = unique_from-IsDistinct [] xs
