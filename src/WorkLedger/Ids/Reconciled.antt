-- ===== src/WorkLedger/Ids/Reconciled.antt =====
-- A reconciled plan: identities are kept by one row each or new.
use awoki.Base.Member.{In}
use awoki.Base.{
  ℕ, zero, suc, ◌≤◌, ◌<◌, ◌≡◌, refl, sym, ap, ◌∙◌, Bool, true, false, String, List, [], ◌∷◌, length,
  contains, nonempty, strip, text_equality, number_equality, ◌==◌, eq_iff, Bool-cases, ◌⊎◌, inl,
  inr, arith,
}
use awoki.WorkLedger.State.{Todo}
use awoki.WorkLedger.Ids.{
  todo_id, ensure_ids, Slot, match_row, with_match, assign, assign_all, free_slots, reconcile,
}
use awoki.WorkLedger.Ids.Slots.{one_if, count, count_free, match_row-Takes}
use awoki.WorkLedger.Ids.Unique.{
  one_if_miss, todo_id-injective, strip-todo_id, nonempty-todo_id, Fresh, IsClear, IsNumbering,
  assign_step,
}

assign_all-IsNumbering :
    (key : String) (total idx seq : ℕ) (rows : List Todo) (slots : List Slot)
    → IsClear key seq slots
    → let (assigned, last) = assign_all key total idx seq rows slots in
      (seq ≤ last) × IsNumbering key seq last slots assigned
unfolding assign_all assign
assign_all-IsNumbering key total idx seq [] slots c =
    (omega arith, record { single = λ id. omega arith; known = λ id. inl (omega arith) })
assign_all-IsNumbering key total idx seq (row ∷ rows) slots c =
    let o = match_row total idx row slots in
    let (clear, up, number) =
      assign_step key seq row slots o (match_row-Takes total idx row slots) c in
    let next = with_match key seq row slots o in
    let (more, numbered) = assign_all-IsNumbering key total (suc idx) next.1 rows next.2 clear in
    (omega (arith, up, more), number _ _ more numbered)

-- the rows of a session's plan: identities that differ, each given out by the session
pub record IsNumbered (key : String) (seq : ℕ) (rows : List Todo) : Type 0 where
  pub single : (id : String) → count id rows ≤ 1
  pub given : (row : Todo) → In row rows → Fresh key 0 seq row.id

count-In :
    (id : String) (rows : List Todo)
    → 0 < count id rows
    → (row : Todo) × In row rows × (row.id ≡ id)
count-In id [] h = absurd (omega arith)
count-In id (row ∷ rows) h = elim (Bool-cases (row.id == id)) [
  | inl hit ↦ (row, inl refl, (eq_iff row.id id).0 hit)
  | inr miss ↦
      let (r, m, e) = count-In id rows (omega (arith, h, one_if_miss id row miss)) in (r, inr m, e)
]

one_if_self : (row : Todo) → one_if row.id row ≡ 1
one_if_self row = let same : (row.id == row.id) ≡ true = (eq_iff row.id row.id).1 refl in rw same

count_of_In : (row : Todo) (rows : List Todo) → In row rows → 0 < count row.id rows
count_of_In row [] m = absurd m
count_of_In row (r ∷ rows) (inl same) = rw (sym same) (omega (arith, one_if_self row))
count_of_In row (r ∷ rows) (inr m) = omega (arith, count_of_In row rows m)

count_free-free_slots :
    (id : String) (rows : List Todo) → count_free id (free_slots rows) ≡ count id rows
count_free-free_slots id [] = refl
count_free-free_slots id (row ∷ rows) = rw (count_free-free_slots id rows)

one_if_hit : (id : String) (row : Todo) → (row.id == id) ≡ true → one_if id row ≡ 1
one_if_hit id row hit = rw hit

contains_behind :
    (a id : String) (seen : List String)
    → (a == id) ≡ false
    → contains (a ∷ seen) id ≡ true
    → contains seen id ≡ true
contains_behind a id seen miss h = elim (Bool-cases (id == a)) [
  | inl hit ↦ cc (miss, (eq_iff a id).1 (sym ((eq_iff id a).0 hit)))
  | inr other ↦ rw other at h
]

-- identities of the session are left as they are
pub ensure_ids-same :
    (key : String) (seq : ℕ) (seen : List String) (rows : List Todo)
    → ((row : Todo) → In row rows → (k : ℕ) × (row.id ≡ todo_id key k))
    → ((id : String) → count id rows ≤ 1)
    → ((id : String) → contains seen id ≡ true → count id rows ≡ 0)
    → ensure_ids key seq seen rows ≡ (rows, seq)
unfolding ensure_ids
ensure_ids-same key seq seen [] named single apart = refl
ensure_ids-same key seq seen (row ∷ rows) named single apart =
    let (k, e) = named row (inl refl) in
    let stripped : strip row.id ≡ row.id = ap strip e ∙ strip-todo_id key k ∙ sym e in
    let full : nonempty row.id ≡ true = ap nonempty e ∙ nonempty-todo_id key k in
    rw (
      stripped,
      full,
      lacks (contains seen row.id) refl,
      ensure_ids-same key seq (row.id ∷ seen) rows (λ r m. named r (inr m))
          (λ id. omega (arith, single id)) later,
    )
  where
    lacks : (b : Bool) → contains seen row.id ≡ b → contains seen row.id ≡ false
    lacks false h = h
    lacks true h = absurd (omega (arith, apart row.id h, one_if_self row))

    later : (id : String) → contains (row.id ∷ seen) id ≡ true → count id rows ≡ 0
    later id h = elim (Bool-cases (row.id == id)) [
      | inl hit ↦ omega (arith, single id, one_if_hit id row hit)
      | inr miss ↦ omega (arith, apart id (contains_behind row.id id seen miss h))
    ]

fresh_unused :
    (key : String) (seq : ℕ) (rows : List Todo)
    → IsNumbered key seq rows
    → (k : ℕ) → seq ≤ k
    → count (todo_id key k) rows ≡ 0
fresh_unused key seq rows n k le = none_left (count (todo_id key k) rows) refl
  where
    none_left : (c : ℕ) → count (todo_id key k) rows ≡ c → c ≡ 0
    none_left zero h = refl
    none_left (suc c) h =
        let (row, m, e) = count-In (todo_id key k) rows (omega (arith, h)) in
        let (j, low, below, same) = n.given row m in
        let equal : j ≡ k = todo_id-injective key j k (sym same ∙ e) in
        absurd (omega (arith, below, le, equal))

free_slots-IsClear :
    (key : String) (seq : ℕ) (rows : List Todo)
    → IsNumbered key seq rows
    → IsClear key seq (free_slots rows)
free_slots-IsClear key seq rows n = record {
  single = λ id. omega (arith, n.single id, count_free-free_slots id rows);
  unused = λ k le.
      omega (arith, fresh_unused key seq rows n k le, count_free-free_slots (todo_id key k) rows);
}

-- the identities of numbered rows and slots, row by row
origin :
    (key : String) (seq last : ℕ) (old assigned : List Todo)
    → IsNumbering key seq last (free_slots old) assigned
    → (row : Todo) → In row assigned
    → ((was : Todo) × In was old × (was.id ≡ row.id)) ⊎ Fresh key seq last row.id
origin key seq last old assigned n row m = elim (n.known row.id) [
  | inl few ↦ inl (
      count-In row.id old
        (omega (arith, few, count_of_In row assigned m, count_free-free_slots row.id old)))
  | inr fresh ↦ inr fresh
]

renumbered :
    (key : String) (seq last : ℕ) (old assigned : List Todo)
    → IsNumbered key seq old
    → seq ≤ last
    → IsNumbering key seq last (free_slots old) assigned
    → IsNumbered key last assigned
renumbered key seq last old assigned was up n = record {
  single = n.single;
  given = λ row m. elim (origin key seq last old assigned n row m) [
    | inl (prior, there, same) ↦
        let (k, low, below, e) = was.given prior there in
        (k, low, omega (arith, below, up), sym same ∙ e)
    | inr (k, over, under, e) ↦ (k, omega arith, under, e)
  ];
}

-- Reconciling a numbered plan numbers the new plan: identities differ and were given out by the session,
-- the sequence does not go back, and each identity was one of the old plan or is given out for the
-- first time, so that none is used again.
pub reconcile-IsNumbered :
    (key : String) (seq : ℕ) (old cleaned : List Todo)
    → IsNumbered key seq old
    → let (assigned, rows, last) = reconcile key seq old cleaned in
      IsNumbered key last assigned
      × (seq ≤ last)
      × ((row : Todo)
          → In row assigned
          → ((was : Todo) × In was old × (was.id ≡ row.id)) ⊎ Fresh key seq last row.id)
unfolding reconcile
reconcile-IsNumbered key seq old cleaned n =
    rw
      (ensure_ids-same key seq [] old (λ row m. let (k, low, below, e) = n.given row m in (k, e))
        n.single (λ id h. cc))
      (let (up, numbering) =
          assign_all-IsNumbering key (length cleaned) 0 seq cleaned (free_slots old)
            (free_slots-IsClear key seq old n) in
        (renumbered key seq _ old _ n up numbering, up, origin key seq _ old _ numbering))
