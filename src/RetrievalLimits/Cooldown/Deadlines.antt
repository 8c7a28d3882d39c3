-- ===== src/RetrievalLimits/Cooldown/Deadlines.antt =====
-- What the operations on the table of deadlines do to the deadlines and to their number.
use mathlib.Core.Path.{subst}
use awoki.Base.Member.{In}
use awoki.Base.{
  ℕ, ◌+◌, ◌≤◌, ◌<◌, ◌≡◌, refl, ◌∙◌, Bool, true, false, not, String, [], ◌∷◌, length, filter, leb,
  ltb, number_equality, text_equality, eq_iff, ◌==◌, Bool-cases, ◌⊎◌, inl, inr, arith,
  if◌then◌else◌,
}
use awoki.RetrievalLimits.Cooldown.{Table, deadline_of, put, soonest, evicted}

pub deadline_of-put : (key : String) (t : ℕ) (table : Table) → deadline_of key (put key t table) ≡ t
unfolding deadline_of put
deadline_of-put key t [] = let same : (key == key) ≡ true = (eq_iff key key).1 refl in rw same
deadline_of-put key t ((k, u) ∷ table) = elim (Bool-cases (k == key)) [
  | inl same ↦ rw same (rw same)
  | inr other ↦ rw other (rw other (deadline_of-put key t table))
]

pub deadline_of-put_other :
    (key other : String) (t : ℕ) (table : Table)
    → (key == other) ≡ false
    → deadline_of other (put key t table) ≡ deadline_of other table
unfolding deadline_of put
deadline_of-put_other key other t [] differ = rw differ
deadline_of-put_other key other t ((k, u) ∷ table) differ = elim (Bool-cases (k == key)) [
  | inl same ↦ let e : k ≡ key = (eq_iff k key).0 same in rw same (rw e (rw differ))
  | inr apart ↦ rw apart (rw (deadline_of-put_other key other t table differ))
]

pub length-put-le :
    (key : String) (t : ℕ) (table : Table) → length (put key t table) ≤ length table + 1
unfolding put
length-put-le key t [] = omega arith
length-put-le key t ((k, u) ∷ table) = elim (Bool-cases (k == key)) [
  | inl same ↦ rw same (omega arith)
  | inr apart ↦ rw apart (omega (arith, length-put-le key t table))
]

-- a deadline that is not over is kept
pub deadline_of-live :
    (now : ℕ) (key : String) (table : Table)
    → now < deadline_of key table
    → deadline_of key (filter (λ e. ltb now e.1) table) ≡ deadline_of key table
unfolding deadline_of
deadline_of-live now key [] live = refl
deadline_of-live now key ((k, u) ∷ table) live = elim (Bool-cases (k == key)) [
  | inl same ↦
      let early : now < u = rw same at live in
      let long : ltb now u ≡ true = ground (arith, early) in rw (same, long) (rw same)
  | inr other ↦
      let ih = deadline_of-live now key table (rw other at live) in
      elim (Bool-cases (ltb now u)) [
        | inl long ↦ rw (other, long) (rw other ih)
        | inr over ↦ rw (other, over) ih
      ]
]

-- every deadline is at most a time
abbrev pub AllBelow : ℕ → Table → Type 0
AllBelow u [] = Unit
AllBelow u (entry ∷ table) = (entry.1 ≤ u) × AllBelow u table

pub AllBelow-filter :
    (u : ℕ) (p : String × ℕ → Bool) (table : Table) → AllBelow u table → AllBelow u (filter p table)
AllBelow-filter u p [] below = tt
AllBelow-filter u p (entry ∷ table) (first, below) = elim (Bool-cases (p entry)) [
  | inl kept ↦ rw kept (first, AllBelow-filter u p table below)
  | inr gone ↦ rw gone (AllBelow-filter u p table below)
]

pub AllBelow-put :
    (u : ℕ) (key : String) (t : ℕ) (table : Table)
    → t ≤ u
    → AllBelow u table
    → AllBelow u (put key t table)
unfolding put
AllBelow-put u key t [] near below = (near, tt)
AllBelow-put u key t ((k, v) ∷ table) near (first, below) = elim (Bool-cases (k == key)) [
  | inl same ↦ rw same (near, below)
  | inr other ↦ rw other (first, AllBelow-put u key t table near below)
]

pub deadline_of-below :
    (u : ℕ) (key : String) (table : Table) → AllBelow u table → deadline_of key table ≤ u
unfolding deadline_of
deadline_of-below u key [] below = omega arith
deadline_of-below u key ((k, v) ∷ table) (first, below) = elim (Bool-cases (k == key)) [
  | inl same ↦ rw same first
  | inr other ↦ rw other (deadline_of-below u key table below)
]

picked : (b : Bool) (v w : String × ℕ) → ((if b then v else w) ≡ v) ⊎ ((if b then v else w) ≡ w)
picked true v w = inl refl
picked false v w = inr refl

pub soonest-In : (best : String × ℕ) (table : Table) → In (soonest best table) (best ∷ table)
unfolding soonest
soonest-In best [] = inl refl
soonest-In best (entry ∷ table) =
    elim (soonest-In (if ltb entry.1 best.1 then entry else best) table) [
      | inr m ↦ inr (inr m)
      | inl e ↦ elim (picked (ltb entry.1 best.1) entry best) [
        | inl new ↦ inr (inl (e ∙ new))
        | inr old ↦ inl (e ∙ old)
      ]
    ]

pub length-filter-le :
    (p : String × ℕ → Bool) (table : Table) → length (filter p table) ≤ length table
length-filter-le p [] = omega arith
length-filter-le p (entry ∷ table) = elim (Bool-cases (p entry)) [
  | inl kept ↦ rw kept (omega (arith, length-filter-le p table))
  | inr gone ↦ rw gone (omega (arith, length-filter-le p table))
]

pub length-filter-lt :
    (p : String × ℕ → Bool) (a : String × ℕ) (table : Table)
    → In a table
    → p a ≡ false
    → length (filter p table) < length table
length-filter-lt p a [] m out = absurd m
length-filter-lt p a (entry ∷ table) (inl e) out =
    let gone : p entry ≡ false = subst (λ b. p b ≡ false) e out in
    rw gone (omega (arith, length-filter-le p table))
length-filter-lt p a (entry ∷ table) (inr m) out = elim (Bool-cases (p entry)) [
  | inl kept ↦ rw kept (omega (arith, length-filter-lt p a table m out))
  | inr gone ↦ rw gone (omega (arith, length-filter-le p table))
]

pub evicted-room :
    (u : ℕ) (table : Table)
    → length table ≤ 128
    → AllBelow u table
    → (length (evicted table) ≤ 127) × AllBelow u (evicted table)
evicted-room u [] few below = (omega arith, tt)
evicted-room u (entry ∷ table) few below = elim (Bool-cases (leb 128 (length (entry ∷ table)))) [
  | inr room ↦ rw room (ground (arith, room), below)
  | inl full ↦
      let gone = (soonest entry table).0 in
      let out : not (gone == gone) ≡ false = rw (eq_iff gone gone).1 refl in
      let fewer =
        length-filter-lt (λ e. not (e.0 == gone)) (soonest entry table) (entry ∷ table)
          (soonest-In entry table) out in
      rw full (
        omega (arith, few, fewer),
        AllBelow-filter u (λ e. not (e.0 == gone)) (entry ∷ table) below,
      )
]
