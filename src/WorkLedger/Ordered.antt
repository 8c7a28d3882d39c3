-- ===== src/WorkLedger/Ordered.antt =====
-- What every sequence of operations on a session's file keeps.
use mathlib.Core.Path.{subst}
use Prim.Native.Nat.{min}
use awoki.Base.Int.{ℤ, pos_part}
use awoki.Base.{
  ℕ, suc, ◌+◌, ◌-◌, ◌≤◌, ◌≡◌, refl, ap, Bool, not, ◌&&◌, String, Option, none, some, List, [], ◌∷◌,
  ◌++◌, filter, any, length, take, length-take_last-le, length-take-le, nonempty, strip, prefix,
  text_equality, number_equality, ◌==◌, Bool-cases, inl, inr, arith, if◌then◌else◌, Raises, ok, err,
  ◌>>=◌, ok-injective,
}
use awoki.WorkLedger.State.{Todo, Reference, Work, base, Stored, absent, corrupt, present}
use awoki.WorkLedger.Ids.{Slot, assign, assign_all, reconcile}
use awoki.WorkLedger.Ids.Reconciled.{IsNumbered, reconcile-IsNumbered, ensure_ids-same}
use awoki.WorkLedger.{
  Item, Reply, rejected_scope, saved_todos, nothing, unknown_state, known, Unreadable, opened,
  clean_todo, clean_todos, is_invalid, synced, sync_todos, mark_user_turn, touch, touch_reference,
  mark_compaction_trigger, mark_compacted, repaired, is_changed, status,
}

-- one operation on the session's file; the arguments that the harness supplies stand in the parameters
pub data Call : Type 0 where
  sync : Option String → List Item → ℤ → Call
  turn : (message_id : String) → Call
  reference : (project_id reference_id label why_saved : String) → Call
  trigger : (trigger source : String) → Call
  compacted : Call
  read_status : Call

-- A file in order: at most 64 TODOs with identities of their own, at most twelve references.
pub record IsOrdered (w : Work) : Type 0 where
  pub numbered : IsNumbered w.session_key w.next_todo_sequence w.todos
  pub few_todos : length w.todos ≤ 64
  pub few_references : length w.active_references ≤ 12

abbrev pub FileIsOrdered : Stored → Type 0
FileIsOrdered absent = Unit
FileIsOrdered corrupt = Unit
FileIsOrdered (present w) = IsOrdered w

base-IsOrdered : (key now : String) → IsOrdered (base key now)
base-IsOrdered key now = record {
  numbered = record { single = λ id. omega arith; given = λ row m. absurd m };
  few_todos = omega arith;
  few_references = omega arith;
}

length-assign_all :
    (key : String) (total idx seq : ℕ) (rows : List Todo) (slots : List Slot)
    → length (assign_all key total idx seq rows slots).0 ≡ length rows
unfolding assign_all
length-assign_all key total idx seq [] slots = refl
length-assign_all key total idx seq (row ∷ rows) slots =
    let next = assign key total idx seq row slots in
    ap suc (length-assign_all key total (suc idx) next.1 rows next.2)

length-kept-le :
    (o : Option Todo) (rest : List Todo) (n : ℕ)
    → length rest + 1 ≤ n
    → length (elim o [ none ↦ rest | some row ↦ row ∷ rest ]) ≤ n
length-kept-le none rest n h = omega (arith, h)
length-kept-le (some row) rest n h = omega (arith, h)

length-clean_todos-le :
    (redact : String → String × Bool) (find_refs : String → List String) (raws : List Item)
    → length (clean_todos redact find_refs raws) ≤ length raws
unfolding clean_todos
length-clean_todos-le redact find_refs [] = omega arith
length-clean_todos-le redact find_refs (raw ∷ raws) =
    length-kept-le (clean_todo redact find_refs raw) (clean_todos redact find_refs raws)
      (suc (length raws)) (omega (arith, length-clean_todos-le redact find_refs raws))

synced-IsOrdered :
    (now project : String) (cleaned : List Todo) (omitted : ℕ) (w : Work)
    → length cleaned ≤ 64
    → IsOrdered w
    → IsOrdered (synced now project cleaned omitted w)
unfolding synced reconcile
synced-IsOrdered now project cleaned omitted w short o = record {
  numbered = (reconcile-IsNumbered w.session_key w.next_todo_sequence w.todos cleaned o.numbered).0;
  few_todos = omega (arith, short, length-assign_all w.session_key (length cleaned) 0 _ cleaned _);
  few_references = o.few_references;
}

length-touch-le : (row : Reference) (rows : List Reference) → length (touch row rows) ≤ 12
unfolding touch
length-touch-le row rows =
    length-take_last-le 12 (filter (λ r. not (r.reference_id == row.reference_id)) rows ++ row ∷ [])

-- `status` finds nothing to repair in the identities of a file in order.
repaired-IsOrdered : (w : Work) → IsOrdered w → IsOrdered (repaired w)
repaired-IsOrdered w o =
    let same =
      ensure_ids-same w.session_key w.next_todo_sequence [] w.todos
        (λ row m. let (k, low, below, e) = o.numbered.given row m in (k, e)) o.numbered.single
        (λ id h. cc) in
    record {
      numbered = rw same o.numbered;
      few_todos = rw same o.few_todos;
      few_references = o.few_references;
    }

opened-IsOrdered :
    (key now : String) (file : Stored)
    → FileIsOrdered file
    → (w : Work) → opened key now file ≡ ok w
    → IsOrdered w
opened-IsOrdered key now absent f w h =
    subst IsOrdered (ok-injective (base key now) w h) (base-IsOrdered key now)
opened-IsOrdered key now corrupt f w h = cc
opened-IsOrdered key now (present v) f w h = subst IsOrdered (ok-injective v w h) f

-- the file after an operation: where it raises, the file is as it was
abbrev pub left : Stored → Raises Unreadable (Reply × Stored) → Stored
left file (err e) = file
left file (ok (reply, next)) = next

bind-FileIsOrdered :
    (file : Stored) (r : Raises Unreadable Work) (k : Work → Raises Unreadable (Reply × Stored))
    → FileIsOrdered file
    → ((w : Work) → r ≡ ok w → FileIsOrdered (left file (k w)))
    → FileIsOrdered (left file (r >>= k))
bind-FileIsOrdered file (err e) k f h = f
bind-FileIsOrdered file (ok w) k f h = h w refl

module _ (redact : String → String × Bool) (find_refs : String → List String)
    (key session_id : String) where
  -- an operation at a time
  unfoldable pub perform : String → Call → Stored → Raises Unreadable (Reply × Stored)
  perform now (sync attachment todos omitted) file =
      sync_todos redact find_refs key now session_id attachment todos omitted file
  perform now (turn id) file = mark_user_turn key now session_id id file
  perform now (reference project id label why) file =
      touch_reference redact key now session_id project id label why file
  perform now (trigger word source) file =
      mark_compaction_trigger key now session_id word source file
  perform now compacted file = mark_compacted key now session_id file
  perform now read_status file = ok (status now session_id file)

  -- a sequence of operations, each at its time
  unfoldable pub run : List (String × Call) → Stored → Stored
  run [] file = file
  run ((now, call) ∷ calls) file = run calls (left file (perform now call file))

  perform-FileIsOrdered :
      (now : String) (call : Call) (file : Stored)
      → FileIsOrdered file
      → FileIsOrdered (left file (perform now call file))
  unfolding perform sync_todos mark_user_turn touch_reference mark_compaction_trigger mark_compacted
      status
  perform-FileIsOrdered now (sync attachment todos omitted) file f =
      elim (Bool-cases (nonempty (strip session_id))) [
        | inr blank ↦ rw blank f
        | inl named ↦ elim (Bool-cases (any is_invalid todos)) [
          | inl invalid ↦ rw (named, invalid) f
          | inr valid ↦
              rw (named, valid)
                (bind-FileIsOrdered file (opened key now file) _ f
                  (λ w e. written attachment w (opened-IsOrdered key now file f w e)))
        ]
      ]
    where
      cleaned : List Todo
      cleaned = clean_todos redact find_refs (take 64 todos)

      short : length cleaned ≤ 64
      short =
          omega
            (arith, length-clean_todos-le redact find_refs (take 64 todos), length-take-le 64 todos)

      written :
          (a : Option String) (w : Work)
          → IsOrdered w
          → FileIsOrdered (
              left file (elim a [
                | none ↦ ok (rejected_scope, file)
                | some project ↦
                    let next =
                      synced now project cleaned
                        ((length todos - 64) + min (pos_part omitted) 1000000)
                        w in
                    ok (
                      saved_todos next.project_id
                          (length cleaned)
                          next.todos_need_review
                          next.todo_generation,
                      present next,
                    )
              ]))
      written none w o = f
      written (some project) w o = synced-IsOrdered now project cleaned _ w short o
  perform-FileIsOrdered now (turn id) file f = elim (Bool-cases (nonempty (strip session_id))) [
    | inr blank ↦ rw blank f
    | inl named ↦ rw named (
        bind-FileIsOrdered file (opened key now file) _ f (λ w e.
          let o = opened-IsOrdered key now file f w e in
          elim (Bool-cases
            (nonempty (prefix 200 (strip id)) && prefix 200 (strip id) == w.last_user_message_id)) [
              | inl again ↦ rw again f
              | inr new ↦ rw new record {
                numbered = o.numbered;
                few_todos = o.few_todos;
                few_references = o.few_references;
              }
            ]))
  ]
  perform-FileIsOrdered now (reference project id label why) file f =
      elim (Bool-cases (nonempty (strip session_id))) [
        | inr blank ↦ rw blank f
        | inl named ↦ elim (Bool-cases (nonempty (strip id))) [
          | inr unnamed ↦ rw (named, unnamed) f
          | inl kept ↦
              rw (named, kept)
                (bind-FileIsOrdered file (opened key now file) _ f (λ w e.
                  let o = opened-IsOrdered key now file f w e in
                  record {
                    numbered = o.numbered;
                    few_todos = o.few_todos;
                    few_references = length-touch-le _ w.active_references;
                  }))
        ]
      ]
  perform-FileIsOrdered now (trigger word source) file f =
      elim (Bool-cases (nonempty (strip session_id))) [
        | inr blank ↦ rw blank f
        | inl named ↦ rw named (
            bind-FileIsOrdered file (opened key now file) _ f (λ w e.
              let o = opened-IsOrdered key now file f w e in
              record {
                numbered = o.numbered;
                few_todos = o.few_todos;
                few_references = o.few_references;
              }))
      ]
  perform-FileIsOrdered now compacted file f = elim (Bool-cases (nonempty (strip session_id))) [
    | inr blank ↦ rw blank f
    | inl named ↦ rw named (
        bind-FileIsOrdered file (opened key now file) _ f (λ w e.
          let o = opened-IsOrdered key now file f w e in
          record {
            numbered = o.numbered;
            few_todos = o.few_todos;
            few_references = o.few_references;
          }))
  ]
  perform-FileIsOrdered now read_status file f = elim (Bool-cases (nonempty (strip session_id))) [
    | inr blank ↦ rw blank f
    | inl named ↦ rw named (reported file f)
  ]
    where
      reported :
          (g : Stored)
          → FileIsOrdered g
          → FileIsOrdered (
              left g (
                ok (elim g [
                  | absent ↦ (nothing, absent)
                  | corrupt ↦ (unknown_state, corrupt)
                  | present w ↦
                      let next =
                        if is_changed w then record (repaired w) { updated_at = now } else w in
                      (known next, present next)
                ])))
      reported absent g = tt
      reported corrupt g = tt
      reported (present w) o = elim (Bool-cases (is_changed w)) [
        | inl changed ↦
            let r = repaired-IsOrdered w o in
            rw changed (record {
              numbered = r.numbered;
              few_todos = r.few_todos;
              few_references = r.few_references;
            })
        | inr same ↦ rw same o
      ]

  -- Any operations, from no file or a file in order, leave no file or a file in order: its TODOs have
  -- identities that differ and were given out by the session, there are at most 64 of them, and at most
  -- twelve references.
  pub run-FileIsOrdered :
      (calls : List (String × Call)) (file : Stored)
      → FileIsOrdered file
      → FileIsOrdered (run calls file)
  unfolding run
  run-FileIsOrdered [] file f = f
  run-FileIsOrdered ((now, call) ∷ calls) file f =
      run-FileIsOrdered calls (left file (perform now call file))
        (perform-FileIsOrdered now call file f)
