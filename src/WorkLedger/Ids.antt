-- ===== src/WorkLedger/Ids.antt =====
-- Identities of TODOs: `_allocate_todo_id`, `_ensure_existing_ids` and `_reconcile_todo_ids`. The
-- identities belong to the ledger; those that the host sends are hints.
pub mod Slots
pub mod Unique
pub mod Reconciled
use Prim.Native.Nat.{max}
use awoki.Base.Decimal.{decimal6}
use awoki.Base.{
  ℕ, zero, suc, ◌+◌, ◌-◌, Bool, true, false, not, ◌&&◌, ◌||◌, String, Option, none, some, List, [],
  ◌∷◌, length, contains, nonempty, strip, prefix, text_equality, number_equality, ◌==◌,
  if◌then◌else◌,
}
use awoki.WorkLedger.State.{
  Todo, TodoStatus, pending, in_progress, completed, cancelled, Priority, low, medium, high,
}

-- the identity with a number, in the session of a key
unfoldable pub todo_id : String → ℕ → String
todo_id key seq =
    Prim.Native.String.◌++◌
      (Prim.Native.String.◌++◌ (Prim.Native.String.◌++◌ "atd_" (prefix 8 key)) "_") (decimal6 seq)

-- `_allocate_todo_id`: the identity and the sequence that is left
abbrev pub allocate : String → ℕ → String × ℕ
allocate key seq = (todo_id key (max 1 seq), max 1 seq + 1)

-- `_ensure_existing_ids`, past the identities in `seen`
unfoldable pub ensure_ids : String → ℕ → List String → List Todo → List Todo × ℕ
ensure_ids key seq seen [] = ([], seq)
ensure_ids key seq seen (row ∷ rows) =
    let (fresh, next) = allocate key seq in
    let changed = ensure_ids key next (fresh ∷ seen) rows in
    let kept = ensure_ids key seq (row.id ∷ seen) rows in
    let id = strip row.id in
    if not (nonempty id) || contains seen id
    then (record row { id = fresh } ∷ changed.0, changed.1)
    else (row ∷ kept.0, kept.1)

-- The rows of `old`, each with the flag that says that its index is in `used`.
pub record Slot : Type 0 where
  pub taken : Bool
  pub row : Todo

-- a find further on in the slots
abbrev behind : Slot → Option (Todo × List Slot) → Option (Todo × List Slot)
behind s none = none
behind s (some (row, slots)) = some (row, s ∷ slots)

-- `claim`: the first free row with the property, and the slots with that row taken
unfoldable pub claim : (Todo → Bool) → List Slot → Option (Todo × List Slot)
claim fits [] = none
claim fits (s ∷ slots) =
    let later = behind s (claim fits slots) in
    if not s.taken && fits s.row then some (s.row, record s { taken = true } ∷ slots) else later

-- the number of free rows
abbrev free : List Slot → ℕ
free [] = 0
free (s ∷ slots) = if s.taken then free slots else suc (free slots)

-- the row at an index, if it is free
unfoldable pub claim_at : ℕ → List Slot → Option (Todo × List Slot)
claim_at i [] = none
claim_at zero (s ∷ slots) =
    if s.taken then none else some (s.row, record s { taken = true } ∷ slots)
claim_at (suc i) (s ∷ slots) = behind s (claim_at i slots)

abbrev same_status : TodoStatus → TodoStatus → Bool
same_status pending pending = true
same_status in_progress in_progress = true
same_status completed completed = true
same_status cancelled cancelled = true
same_status _ _ = false

abbrev same_priority : Priority → Priority → Bool
same_priority low low = true
same_priority medium medium = true
same_priority high high = true
same_priority _ _ = false

abbrev pub same_todo : Todo → Todo → Bool
same_todo a b =
    a.content == b.content && same_status a.status b.status && same_priority a.priority b.priority

abbrev or_else : Option (Todo × List Slot) → Option (Todo × List Slot) → Option (Todo × List Slot)
or_else none second = second
or_else (some found) _ = some found

-- The four ways to match a row, in order: by the host's identity, by all three visible fields, by the
-- content, and by position where two lists of one length have nothing else left.
unfoldable pub match_row : ℕ → ℕ → Todo → List Slot → Option (Todo × List Slot)
match_row total idx row slots =
    let by_source =
      if nonempty row.source_id then claim (λ o. o.source_id == row.source_id) slots else none in
    let by_fields = claim (λ o. same_todo o row) slots in
    let by_content = claim (λ o. o.content == row.content) slots in
    let by_position =
      if length slots == total && free slots == total - idx then claim_at idx slots else none in
    or_else by_source (or_else by_fields (or_else by_content by_position))

abbrev or_text : String → String → String
or_text s d = if nonempty s then s else d

-- the row with the identity of its match, or with a new one; the sequence and the slots that are left
unfoldable pub with_match :
    String → ℕ → Todo → List Slot → Option (Todo × List Slot) → Todo × ℕ × List Slot
with_match key seq row slots none =
    (record row { id = (allocate key seq).0 }, (allocate key seq).1, slots)
with_match key seq row slots (some (found, left)) =
    let source = or_text row.source_id found.source_id in
    if nonempty found.id
    then (record row { id = found.id; source_id = source }, seq, left)
    else (record row { id = (allocate key seq).0; source_id = source }, (allocate key seq).1, left)

unfoldable pub assign : String → ℕ → ℕ → ℕ → Todo → List Slot → Todo × ℕ × List Slot
assign key total idx seq row slots = with_match key seq row slots (match_row total idx row slots)

-- the loop over `cleaned`; `idx` rows are assigned
unfoldable pub assign_all : String → ℕ → ℕ → ℕ → List Todo → List Slot → List Todo × ℕ
assign_all key total idx seq [] slots = ([], seq)
assign_all key total idx seq (row ∷ rows) slots =
    let (item, next, left) = assign key total idx seq row slots in
    let rest = assign_all key total (suc idx) next rows left in (item ∷ rest.0, rest.1)

abbrev free_slots : List Todo → List Slot
free_slots [] = []
free_slots (row ∷ rows) = record { taken = false; row = row } ∷ free_slots rows

-- `_reconcile_todo_ids`: the rows of the new plan, the rows that `_ensure_existing_ids` leaves in the
-- state, and the next sequence
unfoldable pub reconcile : String → ℕ → List Todo → List Todo → List Todo × List Todo × ℕ
reconcile key seq old cleaned =
    let (rows, next) = ensure_ids key seq [] old in
    let (assigned, last) = assign_all key (length cleaned) 0 next cleaned (free_slots rows) in
    (assigned, rows, last)
