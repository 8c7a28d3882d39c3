-- ===== src/WorkLedger/Ids/Slots.antt =====
-- A match takes one free row and leaves the others free.
use awoki.Base.{
  ℕ, zero, suc, ◌+◌, ◌-◌, ◌≡◌, sym, Bool, true, false, not, ◌&&◌, String, Option, none, some, List,
  [], ◌∷◌, length, nonempty, text_equality, number_equality, ◌==◌, Bool-cases, ◌⊎◌, inl, inr, arith,
  if◌then◌else◌,
}
use awoki.WorkLedger.State.{Todo}
use awoki.WorkLedger.Ids.{Slot, behind, claim, claim_at, same_todo, match_row, or_else, free}

-- 1 where the row has the identity
abbrev pub one_if : String → Todo → ℕ
one_if id row = if row.id == id then 1 else 0

-- how many rows have an identity
abbrev pub count : String → List Todo → ℕ
count id [] = 0
count id (row ∷ rows) = one_if id row + count id rows

-- how many rows that are still free have it
abbrev pub count_free : String → List Slot → ℕ
count_free id [] = 0
count_free id (s ∷ slots) = (if s.taken then 0 else one_if id s.row) + count_free id slots

-- `left` is `slots` with a free row taken
abbrev pub Takes : List Slot → Todo → List Slot → Type 0
Takes slots row left = (id : String) → count_free id slots ≡ count_free id left + one_if id row

behind-some :
    (s : Slot) (o : Option (Todo × List Slot)) (row : Todo) (left : List Slot)
    → behind s o ≡ some (row, left)
    → (rest : List Slot) × (o ≡ some (row, rest)) × (left ≡ s ∷ rest)
behind-some s none row left h = cc
behind-some s (some (found, rest)) row left h = (rest, cc, cc)

Takes-behind :
    (s : Slot) (o : Option (Todo × List Slot)) (slots : List Slot) (row : Todo) (left : List Slot)
    → ((rest : List Slot) → o ≡ some (row, rest) → Takes slots row rest)
    → behind s o ≡ some (row, left)
    → Takes (s ∷ slots) row left
Takes-behind s o slots row left ih h id =
    let (rest, e, same) = behind-some s o row left h in rw same (omega (arith, ih rest e id))

Takes-first :
    (s : Slot) (slots : List Slot) (row : Todo) (left : List Slot)
    → s.taken ≡ false
    → Path
        (Option (Todo × List Slot))
        (some (s.row, record s { taken = true } ∷ slots))
        (some (row, left))
    → Takes (s ∷ slots) row left
Takes-first s slots row left isfree h id =
    let same : s.row ≡ row = cc in
    let rest : record s { taken = true } ∷ slots ≡ left = cc in
    rw (sym rest, sym same, isfree) (omega arith)

claim-Takes :
    (fits : Todo → Bool) (slots : List Slot) (row : Todo) (left : List Slot)
    → claim fits slots ≡ some (row, left)
    → Takes slots row left
unfolding claim
claim-Takes fits [] row left h = cc
claim-Takes fits (s ∷ slots) row left h = elim (Bool-cases (not s.taken && fits s.row)) [
  | inl hit ↦ Takes-first s slots row left (ground arith) (rw hit at h)
  | inr miss ↦
      Takes-behind s (claim fits slots) slots row left (claim-Takes fits slots row) (rw miss at h)
]

claim_at-Takes :
    (i : ℕ) (slots : List Slot) (row : Todo) (left : List Slot)
    → claim_at i slots ≡ some (row, left)
    → Takes slots row left
unfolding claim_at
claim_at-Takes i [] row left h = cc
claim_at-Takes zero (s ∷ slots) row left h = elim (Bool-cases s.taken) [
  | inl taken ↦ cc (rw taken at h)
  | inr isfree ↦ Takes-first s slots row left isfree (rw isfree at h)
]
claim_at-Takes (suc i) (s ∷ slots) row left h =
    Takes-behind s (claim_at i slots) slots row left (claim_at-Takes i slots row) h

or_else-some :
    (a b : Option (Todo × List Slot)) (x : Todo × List Slot)
    → or_else a b ≡ some x
    → (a ≡ some x) ⊎ (b ≡ some x)
or_else-some none b x h = inr h
or_else-some (some y) b x h = inl h

guarded_some :
    (b : Bool) (o : Option (Todo × List Slot)) (x : Todo × List Slot)
    → (if b then o else none) ≡ some x
    → o ≡ some x
guarded_some true o x h = h
guarded_some false o x h = cc

-- Whatever way a row is matched, exactly the match is taken.
pub match_row-Takes :
    (total idx : ℕ) (new : Todo) (slots : List Slot) (row : Todo) (left : List Slot)
    → match_row total idx new slots ≡ some (row, left)
    → Takes slots row left
unfolding match_row
match_row-Takes total idx new slots row left h =
    elim (or_else-some by_source (or_else by_fields (or_else by_content by_position)) (row, left)
      h) [
        | inl first ↦
            claim-Takes (λ o. o.source_id == new.source_id) slots row left
              (guarded_some (nonempty new.source_id)
                (claim (λ o. o.source_id == new.source_id) slots) (row, left) first)
        | inr later ↦
            elim (or_else-some by_fields (or_else by_content by_position) (row, left) later) [
              | inl second ↦ claim-Takes (λ o. same_todo o new) slots row left second
              | inr last ↦ elim (or_else-some by_content by_position (row, left) last) [
                | inl third ↦ claim-Takes (λ o. o.content == new.content) slots row left third
                | inr fourth ↦ claim_at-Takes idx slots row left (
                    guarded_some (length slots == total && free slots == total - idx)
                      (claim_at idx slots) (row, left) fourth)
              ]
            ]
      ]
  where
    by_source : Option (Todo × List Slot)
    by_source =
        if nonempty new.source_id then claim (λ o. o.source_id == new.source_id) slots else none

    by_fields : Option (Todo × List Slot)
    by_fields = claim (λ o. same_todo o new) slots

    by_content : Option (Todo × List Slot)
    by_content = claim (λ o. o.content == new.content) slots

    by_position : Option (Todo × List Slot)
    by_position =
        if length slots == total && free slots == total - idx then claim_at idx slots else none
