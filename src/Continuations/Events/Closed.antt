-- ===== src/Continuations/Events/Closed.antt =====
-- A continuation that is over stays over.
use awoki.Base.Int.{ℤ}
use awoki.Base.{
  String, ℕ, ◌≡◌, refl, Bool, true, false, Option, none, some, List, [], ◌∷◌, contains,
  number_equality, text_equality, ◌==◌, Bool-cases, inl, inr, arith, if◌then◌else◌,
}
use awoki.Continuations.State.{Continuation, is_closed, is_claimed, is_waiting, is_due, Harness}
use awoki.Continuations.{release, finalize, cancel}
use awoki.Continuations.Claim.{claim_due}
use awoki.Continuations.Poll.{Observation, poll_begin, poll_end}
use awoki.Continuations.Events.{
  Event, schedules, begins, ends, claims, releases, finalizes, cancels, World, perform, resumes,
  run, resumptions, AllEvents, is_quiet,
}

-- the document holds a continuation that is done, cancelled or blocked
abbrev pub IsOver : Option Continuation → Type 0
IsOver none = ⊥
IsOver (some r) = is_closed r.status ≡ true

waiting_open :
    (r : Continuation)
    → is_closed r.status ≡ true
    → (is_waiting r.status ≡ false) × (is_claimed r.status ≡ false)
waiting_open r over = ground arith

poll_begin-IsOver :
    (now : ℕ) (file : Option Continuation) → IsOver file → IsOver (poll_begin now file).1
unfolding poll_begin
poll_begin-IsOver now none over = over
poll_begin-IsOver now (some r) over =
    let (idle, unclaimed) = waiting_open r over in
    elim (Bool-cases r.auto_resume) [
      | inl auto ↦ rw (auto, idle) over
      | inr manual ↦ rw manual over
    ]

poll_end-IsOver :
    (now generation : ℕ) (o : Observation) (file : Option Continuation)
    → IsOver file
    → IsOver (poll_end now generation o file).1
unfolding poll_end
poll_end-IsOver now generation o none over = over
poll_end-IsOver now generation o (some r) over =
    let (idle, unclaimed) = waiting_open r over in
    elim (Bool-cases (r.generation == generation)) [
      | inl same ↦ rw (same, idle) over
      | inr other ↦ rw other over
    ]

release-IsOver :
    (now generation : ℕ) (n : ℤ) (reason : String) (file : Option Continuation)
    → IsOver file
    → IsOver (release now generation n reason file).1
unfolding release
release-IsOver now generation n reason none over = over
release-IsOver now generation n reason (some r) over =
    let (idle, unclaimed) = waiting_open r over in
    elim (Bool-cases (r.generation == generation)) [
      | inl same ↦ rw (same, unclaimed) over
      | inr other ↦ rw other over
    ]

claim_due-IsOver :
    (h : Harness) (now : ℕ) (file : Option Continuation)
    → IsOver file
    → IsOver (claim_due h now file).1 × (is_due (claim_due h now file).0 ≡ false)
unfolding claim_due
claim_due-IsOver h now none over = absurd over
claim_due-IsOver h now (some r) over = elim (Bool-cases r.auto_resume) [
  | inl auto ↦ rw (auto, over) (over, refl)
  | inr manual ↦ rw manual (over, refl)
]

finalize-IsOver :
    (now : ℕ) (reason : String) (file : Option Continuation)
    → IsOver file
    → IsOver (finalize now reason file).1
unfolding finalize
finalize-IsOver now reason none over = over
finalize-IsOver now reason (some r) over = refl

cancel-IsOver :
    (now : ℕ) (reason : String) (file : Option Continuation)
    → IsOver file
    → IsOver (cancel now reason file).1
unfolding cancel
cancel-IsOver now reason none over = over
cancel-IsOver now reason (some r) over = refl

if-IsOver :
    (b : Bool) (v w : World) → IsOver v.file → IsOver w.file → IsOver (if b then v else w).file
if-IsOver true v w hv hw = hv
if-IsOver false v w hv hw = hw

perform-IsOver :
    (now : ℕ) (event : Event) (w : World)
    → is_quiet event ≡ true
    → IsOver w.file
    → IsOver (perform now event w).file × (resumes now event w ≡ false)
unfolding perform
perform-IsOver now (schedules h r) w quiet over = cc
perform-IsOver now begins w quiet over = (poll_begin-IsOver now w.file over, refl)
perform-IsOver now (ends generation o) w quiet over = (
  if-IsOver (contains w.reading generation)
      (record w { file = (poll_end now generation o w.file).1 }) w
      (poll_end-IsOver now generation o w.file over) over,
  refl,
)
perform-IsOver now (claims h) w quiet over = claim_due-IsOver h now w.file over
perform-IsOver now (releases generation n reason) w quiet over =
    (release-IsOver now generation n reason w.file over, refl)
perform-IsOver now (finalizes reason) w quiet over = (finalize-IsOver now reason w.file over, refl)
perform-IsOver now (cancels reason) w quiet over = (cancel-IsOver now reason w.file over, refl)

-- A continuation that is done, cancelled or blocked is never brought back but by `schedule`: whatever
-- polls (also those that began before it was over), claims, releases and endings follow, in any order, it
-- is over, and the model is not resumed.
pub closed_stays_closed :
    (events : List (ℕ × Event)) (w : World)
    → AllEvents (λ now event. is_quiet event ≡ true) events
    → IsOver w.file
    → IsOver (run events w).file × (resumptions events w ≡ 0)
unfolding run resumptions
closed_stays_closed [] w quiet over = (over, refl)
closed_stays_closed ((now, event) ∷ events) w quiet over =
    let (still, idle) = perform-IsOver now event w quiet.0 over in
    let (last, none_more) = closed_stays_closed events (perform now event w) quiet.1 still in
    (last, rw (idle, none_more))
