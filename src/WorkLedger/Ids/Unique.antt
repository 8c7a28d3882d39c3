-- ===== src/WorkLedger/Ids/Unique.antt =====
-- TODO identities are not shared and not used again.
use Prim.Native.Nat.{max}
use Prim.Native.String
use text.Mathlib.TextLemmas.{append_cancel_left, append_assoc, cons-append, nil-append}
use mathlib.Core.Path.{subst}
use awoki.Base.Decimal.{decimal6, decimal6-injective}
use awoki.Base.Decimal.Solid.{strip_numbered}
use awoki.Base.{
  ℕ, ◌+◌, ◌≤◌, ◌<◌, ◌≡◌, refl, sym, ap, ◌∙◌, true, false, String, Option, none, some, List, ◌∷◌,
  nonempty, strip, prefix, is_space, text_equality, number_equality, ◌==◌, eq_iff, Bool-cases, ◌⊎◌,
  inl, inr, arith,
}
use awoki.WorkLedger.State.{Todo}
use awoki.WorkLedger.Ids.{todo_id, Slot, with_match}
use awoki.WorkLedger.Ids.Slots.{one_if, count, count_free, Takes}

pub todo_id-injective : (key : String) (m n : ℕ) → todo_id key m ≡ todo_id key n → m ≡ n
unfolding todo_id
todo_id-injective key m n h =
    decimal6-injective m n (append_cancel_left _ (decimal6 m) (decimal6 n) h)

-- the identity, character by character
todo_id-shape :
    (key : String) (n : ℕ)
    → todo_id key n
      ≡ Prim.Native.String.◌∷◌ "a" (
          Prim.Native.String.◌++◌
            (Prim.Native.String.◌++◌ "td_" (prefix 8 key))
            (Prim.Native.String.◌∷◌ "_" (decimal6 n)))
unfolding todo_id
todo_id-shape key n =
    append_assoc (String.◌++◌ "atd_" p) "_" d
    ∙ ap (λ t. String.◌++◌ (String.◌++◌ "atd_" p) t)
        (cons-append "_" "" d ∙ ap (λ t. String.◌∷◌ "_" t) (nil-append d))
    ∙ ap (λ t. String.◌++◌ t (String.◌∷◌ "_" d)) (cons-append "a" "td_" p)
    ∙ cons-append "a" (String.◌++◌ "td_" p) (String.◌∷◌ "_" d)
  where
    p : String
    p = prefix 8 key

    d : String
    d = decimal6 n

pub strip-todo_id : (key : String) (n : ℕ) → strip (todo_id key n) ≡ todo_id key n
unfolding is_space
strip-todo_id key n = rw (todo_id-shape key n) (strip_numbered "a" _ "_" n refl refl)

pub nonempty-todo_id : (key : String) (n : ℕ) → nonempty (todo_id key n) ≡ true
nonempty-todo_id key n = rw (todo_id-shape key n)

-- an identity that the session gives out between two states of its sequence
abbrev pub Fresh : String → ℕ → ℕ → String → Type 0
Fresh key seq last id = (k : ℕ) × (seq ≤ k) × (k < last) × (id ≡ todo_id key k)

-- free rows whose identities differ, none of which is yet to be given out
pub record IsClear (key : String) (seq : ℕ) (slots : List Slot) : Type 0 where
  pub single : (id : String) → count_free id slots ≤ 1
  pub unused : (k : ℕ) → seq ≤ k → count_free (todo_id key k) slots ≡ 0

-- rows whose identities differ and come from the slots or are fresh
pub record IsNumbering (key : String) (seq last : ℕ) (slots : List Slot) (rows : List Todo)
    : Type 0 where
  pub single : (id : String) → count id rows ≤ 1
  pub known : (id : String) → (count id rows ≤ count_free id slots) ⊎ Fresh key seq last id

one_if_le : (id : String) (row : Todo) → one_if id row ≤ 1
one_if_le id row = ground arith

pub one_if_miss : (id : String) (row : Todo) → (row.id == id) ≡ false → one_if id row ≡ 0
one_if_miss id row miss = rw miss

take-IsClear :
    (key : String) (seq : ℕ) (slots left : List Slot) (row : Todo)
    → Takes slots row left
    → IsClear key seq slots
    → IsClear key seq left
take-IsClear key seq slots left row t c = record {
  single = λ id. omega (arith, t id, c.single id);
  unused = λ k h. omega (arith, t (todo_id key k), c.unused k h);
}

later-IsClear :
    (key : String) (seq next : ℕ) (slots : List Slot)
    → seq ≤ next
    → IsClear key seq slots
    → IsClear key next slots
later-IsClear key seq next slots le c = record {
  single = c.single;
  unused = λ k h. c.unused k (omega arith);
}

-- a row with a fresh identity, in front
number_fresh :
    (key : String) (seq k last : ℕ) (slots left : List Slot) (item : Todo) (rest : List Todo)
    → ((id : String) → count_free id left ≤ count_free id slots)
    → IsClear key seq slots
    → seq ≤ k
    → k < last
    → item.id ≡ todo_id key k
    → IsNumbering key (k + 1) last left rest
    → IsNumbering key seq last slots (item ∷ rest)
number_fresh key seq k last slots left item rest fewer c le below named n = record {
  single = λ id. elim (Bool-cases (item.id == id)) [
    | inl hit ↦ omega (arith, rest_lacks id hit, one_if_le id item)
    | inr miss ↦ omega (arith, n.single id, one_if_miss id item miss)
  ];
  known = λ id. elim (Bool-cases (item.id == id)) [
    | inl hit ↦ inr (k, le, below, sym ((eq_iff item.id id).0 hit) ∙ named)
    | inr miss ↦ elim (n.known id) [
      | inl few ↦ inl (omega (arith, few, fewer id, one_if_miss id item miss))
      | inr (m, over, under, same) ↦ inr (m, omega (arith, over, le), under, same)
    ]
  ];
}
  where
    rest_lacks : (id : String) → (item.id == id) ≡ true → count id rest ≡ 0
    rest_lacks id hit =
        let same : id ≡ todo_id key k = sym ((eq_iff item.id id).0 hit) ∙ named in
        elim (n.known id) [
          | inl few ↦
              omega (
                arith,
                few,
                fewer id,
                subst (λ i. count_free i slots ≡ 0) (sym same) (c.unused k le),
              )
          | inr (m, over, under, other) ↦
              let equal : m ≡ k = todo_id-injective key m k (sym other ∙ same) in
              absurd (omega (arith, over, equal))
        ]

-- a row that keeps its identity, in front
number_kept :
    (key : String) (seq last : ℕ) (slots left : List Slot) (found item : Todo) (rest : List Todo)
    → Takes slots found left
    → IsClear key seq slots
    → item.id ≡ found.id
    → IsNumbering key seq last left rest
    → IsNumbering key seq last slots (item ∷ rest)
number_kept key seq last slots left found item rest t c named n = record {
  single = λ id. elim (Bool-cases (found.id == id)) [
    | inl hit ↦ omega (arith, rest_lacks id hit, one_if_le id item)
    | inr miss ↦ omega (arith, n.single id, one_if_miss id item (rw (named, miss)))
  ];
  known = λ id. elim (n.known id) [
    | inl few ↦ inl (omega (arith, few, t id, moved id))
    | inr fresh ↦ elim (Bool-cases (found.id == id)) [
      | inl hit ↦ inl (omega (arith, rest_lacks id hit, t id, moved id))
      | inr miss ↦ inr fresh
    ]
  ];
}
  where
    moved : (id : String) → one_if id item ≡ one_if id found
    moved id = rw named

    one_here : (id : String) → (found.id == id) ≡ true → one_if id found ≡ 1
    one_here id hit = rw hit

    rest_lacks : (id : String) → (found.id == id) ≡ true → count id rest ≡ 0
    rest_lacks id hit = elim (n.known id) [
      | inl few ↦ omega (arith, few, t id, c.single id, one_here id hit)
      | inr (m, over, under, same) ↦ absurd (
          omega (
            arith,
            t id,
            one_here id hit,
            subst (λ i. count_free i slots ≡ 0) (sym same) (c.unused m over),
          ))
    ]

pub assign_step :
    (key : String) (seq : ℕ) (row : Todo) (slots : List Slot) (o : Option (Todo × List Slot))
    → ((found : Todo) (left : List Slot) → o ≡ some (found, left) → Takes slots found left)
    → IsClear key seq slots
    → let (item, next, left) = with_match key seq row slots o in
      IsClear key next left
      × (seq ≤ next)
      × ((last : ℕ) (rest : List Todo)
          → next ≤ last
          → IsNumbering key next last left rest
          → IsNumbering key seq last slots (item ∷ rest))
unfolding with_match
assign_step key seq row slots none t c = (
  later-IsClear key seq (max 1 seq + 1) slots (omega arith) c,
  omega arith,
  λ last rest le n.
      number_fresh key seq (max 1 seq) last slots slots _ rest (λ id. omega arith) c (omega arith)
        (omega (arith, le)) refl n,
)
assign_step key seq row slots (some (found, left)) t c = elim (Bool-cases (nonempty found.id)) [
  | inl named ↦ rw named (
    take-IsClear key seq slots left found (t found left refl) c,
    omega arith,
    λ last rest le n. number_kept key seq last slots left found _ rest (t found left refl) c refl n,
  )
  | inr blank ↦ rw blank (
    later-IsClear key seq (max 1 seq + 1) left (omega arith)
        (take-IsClear key seq slots left found (t found left refl) c),
    omega arith,
    λ last rest le n.
        number_fresh key seq (max 1 seq) last slots left _ rest
          (λ id. omega (arith, t found left refl id)) c (omega arith) (omega (arith, le)) refl n,
  )
]
