-- ===== src/Base/Member.antt =====
-- Membership by recursion, which the tactics take apart, and what `filter` and `++` do to it.
use mathlib.Core.Path.{◌≡◌, refl, ap, subst}
use mathlib.Core.Logic.{◌↔◌, ◌⊎◌, inl, inr}
use mathlib.Core.Bool.{Bool, false, true}
use mathlib.Core.List.{List, [], ◌∷◌, ◌++◌, map}
use native.Mathlib.Omega.{arith}
use awoki.Base.Tests.{Eq, ◌==◌, Bool-cases}
use awoki.Base.Lists.{is_nonempty, filter, contains, any, all}

module _ {A : Type 0} where
  abbrev pub In : A → List A → Type 0
  In a [] = ⊥
  In a (x ∷ xs) = (a ≡ x) ⊎ In a xs

  pub In-append : (a : A) (xs ys : List A) → In a (xs ++ ys) → In a xs ⊎ In a ys
  In-append a [] ys h = inr h
  In-append a (x ∷ xs) ys (inl e) = inl (inl e)
  In-append a (x ∷ xs) ys (inr h) = elim (In-append a xs ys h) [
    | inl left ↦ inl (inr left)
    | inr right ↦ inr right
  ]

  pub In-append_left : (a : A) (xs ys : List A) → In a xs → In a (xs ++ ys)
  In-append_left a (x ∷ xs) ys (inl e) = inl e
  In-append_left a (x ∷ xs) ys (inr h) = inr (In-append_left a xs ys h)
  In-append_left a [] ys h = absurd h

  pub In-append_right : (a : A) (xs ys : List A) → In a ys → In a (xs ++ ys)
  In-append_right a [] ys h = h
  In-append_right a (x ∷ xs) ys h = inr (In-append_right a xs ys h)

  In-kept :
      (p : A → Bool) (a x : A) (xs : List A)
      → p x ≡ true
      → (In a (filter p xs) → In a xs × (p a ≡ true))
      → (a ≡ x) ⊎ In a (filter p xs)
      → In a (x ∷ xs) × (p a ≡ true)
  In-kept p a x xs holds ih (inl e) = (inl e, rw e holds)
  In-kept p a x xs holds ih (inr m) = (inr (ih m).0, (ih m).1)

  pub In-filter : (p : A → Bool) (a : A) (xs : List A) → In a (filter p xs) → In a xs × (p a ≡ true)
  In-filter p a [] h = absurd h
  In-filter p a (x ∷ xs) h = elim (Bool-cases (p x)) [
    | inl holds ↦ In-kept p a x xs holds (In-filter p a xs) (rw holds at h)
    | inr fails ↦ let (m, q) = In-filter p a xs (rw fails at h) in (inr m, q)
  ]

  pub In-filter_of :
      (p : A → Bool) (a : A) (xs : List A) → In a xs → p a ≡ true → In a (filter p xs)
  In-filter_of p a [] h q = absurd h
  In-filter_of p a (x ∷ xs) (inl e) q = rw (subst (λ y. p y ≡ true) e q) (inl e)
  In-filter_of p a (x ∷ xs) (inr h) q = elim (Bool-cases (p x)) [
    | inl holds ↦ rw holds (inr (In-filter_of p a xs h q))
    | inr fails ↦ rw fails (In-filter_of p a xs h q)
  ]

  pub any-true : (p : A → Bool) (xs : List A) → any p xs ≡ true → (a : A) × In a xs × (p a ≡ true)
  any-true p [] h = cc
  any-true p (x ∷ xs) h = elim (Bool-cases (p x)) [
    | inl holds ↦ (x, inl refl, holds)
    | inr fails ↦ let (a, m, q) = any-true p xs (rw fails at h) in (a, inr m, q)
  ]

  pub any-true_of : (p : A → Bool) (a : A) (xs : List A) → In a xs → p a ≡ true → any p xs ≡ true
  any-true_of p a [] h q = absurd h
  any-true_of p a (x ∷ xs) (inl e) q = rw (subst (λ y. p y ≡ true) e q)
  any-true_of p a (x ∷ xs) (inr h) q = ground (arith, any-true_of p a xs h q)

  pub all-true : (p : A → Bool) (a : A) (xs : List A) → all p xs ≡ true → In a xs → p a ≡ true
  all-true p a [] h m = absurd m
  all-true p a (x ∷ xs) h (inl e) = rw e (ground arith)
  all-true p a (x ∷ xs) h (inr m) = all-true p a xs (ground arith) m

module _ {A : Type 0} ⦃e : Eq A⦄ where
  pub In-contains : (a : A) (xs : List A) → contains xs a ≡ true → In a xs
  In-contains a [] h = cc
  In-contains a (x ∷ xs) h = elim (Bool-cases (a == x)) [
    | inl same ↦ inl ((e.agrees a x).0 same)
    | inr differ ↦ inr (In-contains a xs (rw differ at h))
  ]

  pub contains_of_In : (a : A) (xs : List A) → In a xs → contains xs a ≡ true
  contains_of_In a [] h = absurd h
  contains_of_In a (x ∷ xs) (inl same) = rw ((e.agrees a x).1 same)
  contains_of_In a (x ∷ xs) (inr h) = ground (arith, contains_of_In a xs h)

module _ {A B : Type 0} (f : A → B) where
  pub In-map : (b : B) (xs : List A) → In b (map f xs) → (a : A) × In a xs × (b ≡ f a)
  In-map b [] h = absurd h
  In-map b (x ∷ xs) (inl same) = (x, inl refl, same)
  In-map b (x ∷ xs) (inr h) = let (a, m, q) = In-map b xs h in (a, inr m, q)

  pub In-map_of : (a : A) (xs : List A) → In a xs → In (f a) (map f xs)
  In-map_of a [] h = absurd h
  In-map_of a (x ∷ xs) (inl same) = inl (ap f same)
  In-map_of a (x ∷ xs) (inr h) = inr (In-map_of a xs h)

-- A filter that leaves nothing.
pub filter-nil :
    {A : Type 0} (p : A → Bool) (xs : List A)
    → (is_nonempty (filter p xs) ≡ false) ↔ ((x : A) → In x xs → p x ≡ false)
filter-nil p [] = (λ h x m. absurd m, λ h. refl)
filter-nil p (x ∷ xs) = elim (Bool-cases (p x)) [
  | inl holds ↦ (λ h. cc (rw holds at h), λ h. cc (holds, h x (inl refl)))
  | inr fails ↦ (
    λ h y m. elim m [
      | inl same ↦ rw same fails
      | inr there ↦ (filter-nil p xs).0 (rw fails at h) y there
    ],
    λ h. rw fails ((filter-nil p xs).1 (λ y m. h y (inr m))),
  )
]

pub nil_of_empty : {A : Type 0} (xs : List A) → (is_nonempty xs ≡ false) ↔ (xs ≡ [])
nil_of_empty [] = (λ h. refl, λ h. refl)
nil_of_empty (x ∷ xs) = (λ h. cc, λ h. cc)
