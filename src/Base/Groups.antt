-- ===== src/Base/Groups.antt =====
-- `groups.setdefault(key(x), []).append(x)` over a list: a dict of lists, in insertion order.
use Prim.Native.Nat.{◌≤◌}
use mathlib.Core.Path.{◌≡◌, refl, ap, sym, subst, ◌∙◌}
use mathlib.Core.Logic.{◌⊎◌, inl, inr}
use mathlib.Core.Bool.{true, false}
use mathlib.Core.List.{List, [], ◌∷◌, ◌++◌, append_assoc, append-nil}
use native.Mathlib.Omega.{arith}
use awoki.Base.Tests.{Eq, ◌==◌, if◌then◌else◌, Bool-cases}
use awoki.Base.Lists.{filter, length}
use awoki.Base.Member.{In, In-filter_of, In-append}

module _ {K A : Type 0} ⦃e : Eq K⦄ where
  append_to : K → A → List (K × List A) → List (K × List A)
  append_to k a [] = (k, a ∷ []) ∷ []
  append_to k a ((j, xs) ∷ g) = if j == k then (j, xs ++ a ∷ []) ∷ g else (j, xs) ∷ append_to k a g

  group_from : (A → K) → List (K × List A) → List A → List (K × List A)
  unfolding append_to
  group_from key g [] = g
  group_from key g (a ∷ rest) = group_from key (append_to (key a) a g) rest

  unfoldable pub group_by : (A → K) → List A → List (K × List A)
  unfolding group_from
  group_by key = group_from key []

  -- the group of a key, empty where the key is missing
  abbrev pub members : K → List (K × List A) → List A
  members k [] = []
  members k ((j, xs) ∷ g) = if j == k then xs else members k g

  members-append_to :
      (j k : K) (a : A) (g : List (K × List A))
      → members j (append_to k a g) ≡ (if k == j then members j g ++ a ∷ [] else members j g)
  unfolding append_to
  members-append_to j k a [] = ground arith
  members-append_to j k a ((i, xs) ∷ g) =
      ground (arith, e.agrees i k, e.agrees i j, e.agrees k j, members-append_to j k a g)

  members-group_from :
      (key : A → K) (j : K) (g : List (K × List A)) (xs : List A)
      → members j (group_from key g xs) ≡ members j g ++ filter (λ x. key x == j) xs
  unfolding group_from
  members-group_from key j g [] = sym (append-nil (members j g))
  members-group_from key j g (x ∷ xs) =
      members-group_from key j (append_to (key x) x g) xs
      ∙ rw (members-append_to j (key x) x g) (split (Bool-cases (key x == j)))
    where
      split :
          ((key x == j) ≡ true) ⊎ ((key x == j) ≡ false)
          → (if key x == j then members j g ++ x ∷ [] else members j g)
              ++ filter (λ y. key y == j) xs
            ≡ members j g ++ filter (λ y. key y == j) (x ∷ xs)
      split (inl same) = rw same (append_assoc (members j g) (x ∷ []) (filter (λ y. key y == j) xs))
      split (inr differ) = rw differ

  -- The group of a key is what a filter by that key leaves, in order.
  pub members-group_by :
      (key : A → K) (j : K) (xs : List A)
      → members j (group_by key xs) ≡ filter (λ x. key x == j) xs
  unfolding group_by
  members-group_by key j xs = members-group_from key j [] xs

  -- every row of every group
  abbrev pub AllRows : (K → A → Type 0) → List (K × List A) → Type 0
  AllRows P [] = Unit
  AllRows P ((k, xs) ∷ g) = ((a : A) → In a xs → P k a) × AllRows P g

  pub AllRows-row :
      (P : K → A → Type 0) (k : K) (rows : List A) (a : A) (g : List (K × List A))
      → AllRows P g
      → In (k, rows) g
      → In a rows
      → P k a
  AllRows-row P k rows a [] h m n = absurd m
  AllRows-row P k rows a ((j, xs) ∷ g) h (inl same) n =
      subst (λ i. P i a) (sym (ap (λ p. p.0) same)) (h.0 a (subst (In a) (ap (λ p. p.1) same) n))
  AllRows-row P k rows a ((j, xs) ∷ g) h (inr m) n = AllRows-row P k rows a g h.1 m n

  AllRows-append_to :
      (P : K → A → Type 0) (k : K) (a : A) (g : List (K × List A))
      → P k a
      → AllRows P g
      → AllRows P (append_to k a g)
  unfolding append_to
  AllRows-append_to P k a [] p h = (single, tt)
    where
      single : (b : A) → In b (a ∷ []) → P k b
      single b (inl same) = rw same p
      single b (inr h) = absurd h
  AllRows-append_to P k a ((j, xs) ∷ g) p h = elim (Bool-cases (j == k)) [
    | inl same ↦ rw same (longer same, h.1)
    | inr differ ↦ rw differ (h.0, AllRows-append_to P k a g p h.1)
  ]
    where
      longer : (j == k) ≡ true → (b : A) → In b (xs ++ a ∷ []) → P j b
      longer same b m = elim (In-append b xs (a ∷ []) m) [
        | inl old ↦ h.0 b old
        | inr (inl new) ↦ subst (λ i. P i b) (sym ((e.agrees j k).0 same)) (subst (P k) (sym new) p)
        | inr (inr none_left) ↦ absurd none_left
      ]

  AllRows-group_from :
      (P : K → A → Type 0) (key : A → K) (g : List (K × List A)) (xs : List A)
      → ((a : A) → In a xs → P (key a) a)
      → AllRows P g
      → AllRows P (group_from key g xs)
  unfolding group_from
  AllRows-group_from P key g [] p h = h
  AllRows-group_from P key g (x ∷ xs) p h =
      AllRows-group_from P key (append_to (key x) x g) xs (λ a m. p a (inr m))
        (AllRows-append_to P (key x) x g (p x (inl refl)) h)

  pub AllRows-group_by :
      (P : K → A → Type 0) (key : A → K) (xs : List A)
      → ((a : A) → In a xs → P (key a) a)
      → AllRows P (group_by key xs)
  unfolding group_by
  AllRows-group_by P key xs p = AllRows-group_from P key [] xs p tt

  members-skip :
      (j k : K) (xs : List A) (g : List (K × List A))
      → (j == k) ≡ false
      → members k ((j, xs) ∷ g) ≡ members k g
  members-skip j k xs g differ = rw differ

  -- A key that has members has a group.
  pub entry_of_member :
      (k : K) (a : A) (g : List (K × List A)) → In a (members k g) → (j : K) × In (j, members k g) g
  entry_of_member k a [] m = absurd m
  entry_of_member k a ((j, xs) ∷ g) m = elim (Bool-cases (j == k)) [
    | inl same ↦ (j, rw same (inl refl))
    | inr differ ↦
        let (i, there) = entry_of_member k a g (rw differ at m) in
        (i, inr (subst (λ rows. In (i, rows) g) (sym (members-skip j k xs g differ)) there))
  ]

  members-single :
      (g : List (K × List A)) (j k : K) (a b : A)
      → length g ≤ 1
      → In a (members j g)
      → In b (members k g)
      → j ≡ k
  members-single [] j k a b short ma mb = absurd ma
  members-single ((i, xs) ∷ []) j k a b short ma mb = ground (arith, e.agrees i j, e.agrees i k)
  members-single (p ∷ q ∷ g) j k a b short ma mb = absurd (omega arith)

  -- Where there is at most one group, the keys agree.
  pub one_group :
      (key : A → K) (xs : List A) (a b : A)
      → length (group_by key xs) ≤ 1
      → In a xs
      → In b xs
      → key a ≡ key b
  one_group key xs a b short ma mb =
      members-single (group_by key xs) (key a) (key b) a b short (own a ma) (own b mb)
    where
      own : (c : A) → In c xs → In c (members (key c) (group_by key xs))
      own c m =
          rw (members-group_by key (key c) xs)
            (In-filter_of (λ x. key x == key c) c xs m ((e.agrees (key c) (key c)).1 refl))

  group_from-single :
      (key : A → K) (k : K) (rows xs : List A)
      → ((a : A) → In a xs → key a ≡ k)
      → length (group_from key ((k, rows) ∷ []) xs) ≡ 1
  unfolding group_from append_to
  group_from-single key k rows [] same = refl
  group_from-single key k rows (x ∷ xs) same =
      rw ((e.agrees k (key x)).1 (sym (same x (inl refl))))
        (group_from-single key k (rows ++ x ∷ []) xs (λ a m. same a (inr m)))

  -- Keys that agree make at most one group.
  pub group_by-single :
      (key : A → K) (xs : List A)
      → ((a b : A) → In a xs → In b xs → key a ≡ key b)
      → length (group_by key xs) ≤ 1
  unfolding group_by group_from append_to
  group_by-single key [] same = omega arith
  group_by-single key (x ∷ xs) same =
      omega (arith, group_from-single key (key x) (x ∷ []) xs (λ a m. same a x (inr m) (inl refl)))
