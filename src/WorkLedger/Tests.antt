-- ===== src/WorkLedger/Tests.antt =====
-- Plans of a session, and the theorems at concrete plans.
use awoki.Base.Int.{pos}
use awoki.Base.Member.{In}
use awoki.Base.{
  ◌≡◌, ◌≢◌, ◌≤◌, ◌⊎◌, refl, Bool, true, false, String, some, List, [], ◌∷◌, map, strip, lower,
  prefix, is_space, nonempty, arith,
}
use awoki.WorkLedger.State.{Todo, pending, completed, medium, Trigger, absent, corrupt}
use awoki.WorkLedger.{Item, item, trigger_of, mark_compaction_trigger, mark_compacted}
use awoki.WorkLedger.Ids.{ensure_ids, claim, match_row, with_match, assign, assign_all, reconcile}
use awoki.WorkLedger.Ids.Unique.{Fresh}
use awoki.WorkLedger.Ids.Reconciled.{IsNumbered, reconcile-IsNumbered}
use awoki.WorkLedger.Ordered.{
  Call, sync, turn, compacted, read_status, FileIsOrdered, left, run, run-FileIsOrdered,
}
use awoki.WorkLedger.Recovery.{run_corrupt, attributed_to, compaction_attributed_once}

abbrev row : String → Todo
row content = record {
  id = "";
  source_id = "";
  content = content;
  status = pending;
  priority = medium;
  redacted = false;
  content_truncated = false;
  record_refs = [];
  record_refs_omitted = 0;
}

abbrev plain : String → String × Bool
plain s = (s, false)

abbrev no_refs : String → List String
no_refs s = []

abbrev todo : String → String → Item
todo content status = item "" content status "" false

abbrev ids : List Todo → List String
ids = map (λ r. r.id)

-- a row that is done keeps its identity, whatever the host calls it
kept_id :
    ids
      (reconcile "0123456789" 3
        (record (row "write") { id = "atd_01234567_000002" } ∷ [])
        (record (row "write") { status = completed; source_id = "h1" } ∷ [])).0
    ≡ ("atd_01234567_000002" ∷ [])
unfolding reconcile ensure_ids assign_all assign with_match match_row claim strip is_space
kept_id = refl

nothing_yet : IsNumbered "0123456789" 1 []
nothing_yet = record { single = λ id. omega arith; given = λ row m. absurd m }

reconcile-IsNumbered_example :
    let (assigned, rows, last) = reconcile "0123456789" 1 [] (row "read" ∷ row "write" ∷ []) in
    IsNumbered "0123456789" last assigned
    × (1 ≤ last)
    × ((r : Todo)
        → In r assigned
        → ((was : Todo) × In was [] × (was.id ≡ r.id)) ⊎ Fresh "0123456789" 1 last r.id)
reconcile-IsNumbered_example =
    reconcile-IsNumbered "0123456789" 1 [] (row "read" ∷ row "write" ∷ []) nothing_yet

abbrev calls : List (String × Call)
calls =
    ("t1", sync (some "p") (todo "read" "pending" ∷ todo "write" "" ∷ []) (pos 0))
    ∷ ("t2", turn "m1")
    ∷ ("t3", compacted)
    ∷ ("t4", read_status)
    ∷ []

run-FileIsOrdered_example : FileIsOrdered (run plain no_refs "0123456789" "s" calls absent)
run-FileIsOrdered_example = run-FileIsOrdered plain no_refs "0123456789" "s" calls absent tt

run_corrupt_example : run plain no_refs "0123456789" "s" calls corrupt ≡ corrupt
run_corrupt_example = run_corrupt plain no_refs "0123456789" "s" calls

s_named : nonempty (strip "s") ≡ true
unfolding strip is_space
s_named = refl

absent-ne-corrupt : absent ≢ corrupt
absent-ne-corrupt h = cc

compaction_attributed_once_example :
    let marked =
      left absent (mark_compaction_trigger "k" "t1" "s" " Explicit_Request" "user" absent) in
    let first = mark_compacted "k" "t2" "s" marked in
    let second = mark_compacted "k" "t3" "s" (left marked first) in
    (attributed_to first ≡ some (trigger_of (lower (strip " Explicit_Request")), prefix 120 "user"))
    × (attributed_to second ≡ some (Trigger.unknown, ""))
compaction_attributed_once_example =
    compaction_attributed_once "k" "t1" "t2" "t3" "s" " Explicit_Request" "user" absent s_named
      absent-ne-corrupt
