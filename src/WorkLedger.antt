-- ===== src/WorkLedger.antt =====
-- .harness/work_ledger.py: the mirror of a session's TODOs and references. An operation takes what
-- `_read` finds and gives its reply with the file that is left, or `err` where `_read` raises. `key`
-- is the hash of the session's name, `now` the time, `redact` the text that `safety.redact_text`
-- leaves with its flag, and `find_refs` the matches of `cont_...` in a text, all of them whole words.
pub mod State
pub mod Ids
pub mod Ordered
pub mod Recovery
mod Tests
use Prim.Native.Nat.{min, max}
use Prim.Native.String.{count}
use awoki.Base.Int.{ℤ, pos_part}
use awoki.Base.{
  ℕ, ◌+◌, ◌-◌, Bool, true, false, not, ◌&&◌, ◌||◌, String, Option, none, some, List, [], ◌∷◌, ◌++◌,
  map, filter, any, length, take, take_last, unique, is_nonempty, nonempty, strip, lower, prefix,
  leb, ltb, text_equality, number_equality, ◌==◌, if◌then◌else◌, Raises, ok, err, ◌>>=◌,
}
use State.{
  Todo, TodoStatus, pending, in_progress, completed, cancelled, Priority, low, medium, high,
  Reference, Trigger, automatic_context_pressure, explicit_request, Work, schema_name, base, Stored,
  absent, corrupt, present,
}
use Ids.{ensure_ids, same_todo, reconcile}

-- one element of `todos`; `malformed` is no dict, or one whose content is no text
pub data Item : Type 0 where
  malformed : Item
  item : (id content status priority : String) → (content_truncated : Bool) → Item

pub data Reply : Type 0 where
  ignored rejected_todos rejected_scope nothing unknown_state : Reply
  saved_todos :
      (project_id : String)
      → (todo_count : ℕ) → (todos_need_review : Bool) → (todo_generation : ℕ) → Reply
  unchanged : (user_turn_generation : ℕ) → Reply
  marked_turn :
      (user_turn_generation : ℕ) → (todos_need_review references_need_review : Bool) → Reply
  saved_reference : (active_reference_count : ℕ) → Reply
  marked_trigger : Trigger → String → Reply
  marked_compacted : (compaction_generation : ℕ) → Trigger → String → Reply
  known : Work → Reply

-- the `ValueError`s of `_read`
pub data Unreadable : Type 0 where
  unreadable : Unreadable

-- `{**_base(session_id), **_read(path)}`
abbrev pub opened : String → String → Stored → Raises Unreadable Work
opened key now absent = ok (base key now)
opened key now corrupt = err unreadable
opened key now (present w) = ok w

abbrev status_of : String → TodoStatus
status_of s =
    if s == "in_progress"
    then in_progress
    else if s == "completed"
    then completed
    else if s == "cancelled"
    then cancelled
    else pending

abbrev priority_of : String → Priority
priority_of s = if s == "low" then low else if s == "high" then high else medium

-- `_clean_todo`
unfoldable pub clean_todo : (String → String × Bool) → (String → List String) → Item → Option Todo
clean_todo redact find_refs malformed = none
clean_todo redact find_refs (item id content status priority content_truncated) =
    let (original, redacted) = redact (strip content) in
    let kept = prefix 800 original in
    let refs = unique (filter (λ r. leb (count r) 200) (find_refs original)) in
    if nonempty kept
    then some (record {
      id = "";
      source_id = prefix 200 (strip id);
      content = kept;
      status = status_of (lower (strip status));
      priority = priority_of (lower (strip priority));
      redacted = redacted;
      content_truncated = ltb 800 (count original) || content_truncated;
      record_refs = take 8 refs;
      record_refs_omitted = length refs - 8;
    })
    else none

-- the rows that `_clean_todo` keeps
unfoldable pub clean_todos :
    (String → String × Bool) → (String → List String) → List Item → List Todo
clean_todos redact find_refs [] = []
clean_todos redact find_refs (raw ∷ raws) =
    let rest = clean_todos redact find_refs raws in
    elim (clean_todo redact find_refs raw) [ none ↦ rest | some row ↦ row ∷ rest ]

-- an item for which the whole call is rejected
abbrev pub is_invalid : Item → Bool
is_invalid malformed = true
is_invalid (item id content status priority content_truncated) = not (nonempty (strip content))

-- `comparable(old_todos) == comparable(reconciled)`
unfoldable pub same_plan : List Todo → List Todo → Bool
same_plan [] [] = true
same_plan [] (b ∷ ys) = false
same_plan (a ∷ xs) [] = false
same_plan (a ∷ xs) (b ∷ ys) = same_todo a b && same_plan xs ys

-- the state that `sync_todos` writes
unfoldable pub synced : String → String → List Todo → ℕ → Work → Work
synced now current_project cleaned omitted w =
    let (assigned, rows, next) = reconcile w.session_key w.next_todo_sequence w.todos cleaned in
    let stays = same_plan rows assigned in
    let stale_scope =
      nonempty w.project_id && not (w.project_id == current_project) && is_nonempty rows && stays in
    record w {
      schema = schema_name;
      next_todo_sequence = next;
      project_id = if stale_scope then w.project_id else current_project;
      updated_at = now;
      todo_generation = w.todo_generation + 1;
      todos_need_review = stale_scope || (stays && w.todos_need_review);
      todos = assigned;
      todos_omitted = omitted;
    }

-- `attachment` is the project of the session, `none` where its status is "unknown"
unfoldable pub sync_todos :
    (String → String × Bool)
    → (String → List String)
    → (key now session_id : String) → (attachment : Option String) → List Item
    → ℤ
    → Stored
    → Raises Unreadable (Reply × Stored)
sync_todos redact find_refs key now session_id attachment todos todos_omitted file =
    let source_omitted = min (pos_part todos_omitted) 1000000 in
    let cleaned = clean_todos redact find_refs (take 64 todos) in
    let omitted = (length todos - 64) + source_omitted in
    let write : String → Work → Reply × Stored = λ project w.
      let next = synced now project cleaned omitted w in
      (
        saved_todos next.project_id (length cleaned) next.todos_need_review next.todo_generation,
        present next,
      ) in
    if not (nonempty (strip session_id))
    then ok (ignored, file)
    else if any is_invalid todos
    then ok (rejected_todos, file)
    else opened key now file >>= λ w. elim attachment [
      | none ↦ ok (rejected_scope, file)
      | some project ↦ ok (write project w)
    ]

-- `_references_need_review`
abbrev references_need_review : ℕ → List Reference → Bool
references_need_review generation = any (λ r. ltb r.user_turn_generation generation)

unfoldable pub mark_user_turn :
    (key now session_id message_id : String) → Stored → Raises Unreadable (Reply × Stored)
mark_user_turn key now session_id message_id file =
    let id = prefix 200 (strip message_id) in
    let next = λ (w : Work). record w {
      last_user_message_id = id;
      user_turn_generation = w.user_turn_generation + 1;
      todos_need_review = is_nonempty w.todos;
      references_need_review = is_nonempty w.active_references;
      updated_at = now;
    } in
    if not (nonempty (strip session_id))
    then ok (ignored, file)
    else opened key now file >>= λ w.
        if nonempty id && id == w.last_user_message_id
        then ok (unchanged w.user_turn_generation, file)
        else ok (
          marked_turn (next w).user_turn_generation (next w).todos_need_review
              (next w).references_need_review,
          present (next w),
        )

-- the row goes to the end, past a row of its identity, and the last twelve stay
unfoldable pub touch : Reference → List Reference → List Reference
touch row rows =
    take_last 12 (filter (λ r. not (r.reference_id == row.reference_id)) rows ++ row ∷ [])

unfoldable pub touch_reference :
    (String → String × Bool)
    → (key now session_id project_id reference_id label why_saved : String) → Stored
    → Raises Unreadable (Reply × Stored)
touch_reference redact key now session_id project_id reference_id label why_saved file =
    let next = λ (w : Work).
      let row : Reference = record {
        project_id = prefix 200 project_id;
        reference_id = prefix 200 (strip reference_id);
        label = (redact (prefix 240 (strip label))).0;
        why_saved = (redact (prefix 500 (strip why_saved))).0;
        touched_at = now;
        user_turn_generation = w.user_turn_generation;
      } in
      let rows = touch row w.active_references in
      record w {
        active_references = rows;
        references_need_review = references_need_review w.user_turn_generation rows;
        updated_at = now;
      } in
    if not (nonempty (strip session_id)) || not (nonempty (strip reference_id))
    then ok (ignored, file)
    else opened key now file >>= λ w.
        ok (saved_reference (length (next w).active_references), present (next w))

abbrev pub trigger_of : String → Trigger
trigger_of s =
    if s == "automatic_context_pressure"
    then automatic_context_pressure
    else if s == "explicit_request"
    then explicit_request
    else Trigger.unknown

unfoldable pub mark_compaction_trigger :
    (key now session_id trigger source : String) → Stored → Raises Unreadable (Reply × Stored)
mark_compaction_trigger key now session_id trigger source file =
    let clean = trigger_of (lower (strip trigger)) in
    let next = λ (w : Work). record w {
      pending_compaction_trigger = some clean;
      pending_compaction_trigger_source = prefix 120 source;
      updated_at = now;
    } in
    if not (nonempty (strip session_id))
    then ok (ignored, file)
    else opened key now file >>= λ w.
        ok (marked_trigger clean (prefix 120 source), present (next w))

abbrev or_unknown : Option Trigger → Trigger
or_unknown none = Trigger.unknown
or_unknown (some t) = t

unfoldable pub mark_compacted :
    (key now session_id : String) → Stored → Raises Unreadable (Reply × Stored)
mark_compacted key now session_id file =
    let next = λ (w : Work). record w {
      compaction_generation = w.compaction_generation + 1;
      last_compacted_at = now;
      last_compaction_trigger = or_unknown w.pending_compaction_trigger;
      pending_compaction_trigger = none;
      pending_compaction_trigger_source = "";
      updated_at = now;
    } in
    if not (nonempty (strip session_id))
    then ok (ignored, file)
    else opened key now file >>= λ w. ok (
      marked_compacted (w.compaction_generation + 1) (or_unknown w.pending_compaction_trigger)
          w.pending_compaction_trigger_source,
      present (next w),
    )

-- the repairs that `status` makes, less the time
abbrev repaired : Work → Work
repaired w =
    let (rows, next) = ensure_ids w.session_key w.next_todo_sequence [] w.todos in
    record w {
      todos = rows;
      next_todo_sequence = next;
      references_need_review = references_need_review w.user_turn_generation w.active_references;
      schema = schema_name;
    }

abbrev same_flag : Bool → Bool → Bool
same_flag a b = if a then b else not b

-- whether `_ensure_existing_ids` gives an identity, or another repair changes something
unfoldable pub is_changed : Work → Bool
is_changed w =
    not (same_number (repaired w).next_todo_sequence w.next_todo_sequence)
    || not (same_flag w.references_need_review (repaired w).references_need_review)
    || not (w.schema == schema_name)
  where
    same_number : ℕ → ℕ → Bool
    same_number a b = a == b

unfoldable pub status : (now session_id : String) → Stored → Reply × Stored
status now session_id file =
    let report : Work → Reply × Stored = λ w.
      let next = if is_changed w then record (repaired w) { updated_at = now } else w in
      (known next, present next) in
    if not (nonempty (strip session_id)) then (ignored, file) else elim file [
      | absent ↦ (nothing, absent)
      | corrupt ↦ (unknown_state, corrupt)
      | present w ↦ report w
    ]
