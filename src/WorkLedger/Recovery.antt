-- ===== src/WorkLedger/Recovery.antt =====
-- A state that cannot be read is kept, and a compaction is attributed once.
use awoki.Base.{
  ◌≡◌, ◌≢◌, refl, ap, ◌∙◌, Bool, true, String, Option, none, some, List, [], ◌∷◌, nonempty, strip,
  lower, prefix, arith, Raises, ok,
}
use awoki.WorkLedger.State.{Trigger, Stored, absent, corrupt, present}
use awoki.WorkLedger.{
  Reply, marked_compacted, Unreadable, sync_todos, mark_user_turn, touch_reference, trigger_of,
  mark_compaction_trigger, mark_compacted, status,
}
use awoki.WorkLedger.Ordered.{
  Call, sync, turn, reference, trigger, compacted, read_status, left, perform, run,
}

module _ (redact : String → String × Bool) (find_refs : String → List String)
    (key session_id : String) where
  perform_corrupt :
      (now : String) (call : Call)
      → left corrupt (perform redact find_refs key session_id now call corrupt) ≡ corrupt
  unfolding perform sync_todos mark_user_turn touch_reference mark_compaction_trigger mark_compacted
      status
  perform_corrupt now (sync attachment todos omitted) = ground arith
  perform_corrupt now (turn id) = ground arith
  perform_corrupt now (reference project id label why) = ground arith
  perform_corrupt now (trigger word source) = ground arith
  perform_corrupt now compacted = ground arith
  perform_corrupt now read_status = ground arith

  -- No operation overwrites a document that cannot be read: after any operations it is what it was.
  pub run_corrupt :
      (calls : List (String × Call)) → run redact find_refs key session_id calls corrupt ≡ corrupt
  unfolding run
  run_corrupt [] = refl
  run_corrupt ((now, call) ∷ calls) =
      ap (run redact find_refs key session_id calls) (perform_corrupt now call) ∙ run_corrupt calls

-- the trigger and its source in the reply of a compaction
abbrev pub attributed_to : Raises Unreadable (Reply × Stored) → Option (Trigger × String)
attributed_to (ok (marked_compacted generation t source, file)) = some (t, source)
attributed_to _ = none

-- A compaction is attributed to the trigger that was marked before it, and that trigger is used up: the
-- next compaction is attributed to none. This takes a session with a name and a readable file.
pub compaction_attributed_once :
    (key t₁ t₂ t₃ session_id word source : String) (file : Stored)
    → nonempty (strip session_id) ≡ true
    → file ≢ corrupt
    → let marked = left file (mark_compaction_trigger key t₁ session_id word source file) in
      let first = mark_compacted key t₂ session_id marked in
      let second = mark_compacted key t₃ session_id (left marked first) in
      (attributed_to first ≡ some (trigger_of (lower (strip word)), prefix 120 source))
      × (attributed_to second ≡ some (Trigger.unknown, ""))
unfolding mark_compaction_trigger mark_compacted
compaction_attributed_once key t₁ t₂ t₃ session_id word source absent named readable =
    rw named (refl, refl)
compaction_attributed_once key t₁ t₂ t₃ session_id word source corrupt named readable =
    absurd (readable refl)
compaction_attributed_once key t₁ t₂ t₃ session_id word source (present w) named readable =
    rw named (refl, refl)
