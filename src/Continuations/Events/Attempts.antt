-- ===== src/Continuations/Events/Attempts.antt =====
-- The model is resumed a bounded number of times, and a chain ends by its first deadline.
use awoki.Base.Int.{ℤ}
use awoki.Base.{
  Raises, ok, err, String, ℕ, ◌+◌, ◌-◌, ◌≤◌, ◌<◌, ◌≡◌, refl, ap, ◌∙◌, true, false, Option, none,
  some, List, [], ◌∷◌, contains, number_equality, text_equality, Bool-cases, ◌⊎◌, inl, inr, arith,
}
use awoki.Continuations.State.{Continuation, is_due, Rejection, Harness}
use awoki.Continuations.{
  Request, admit, same_chain, planned, scheduled_or, schedule, release, finalize, cancel,
}
use awoki.Continuations.Claim.{claim_due, claim_ready, reopened}
use awoki.Continuations.Claim.Conditions.{claim_due_iff}
use awoki.Continuations.Poll.{Observation, read_job, poll_begin, poll_end}
use awoki.Continuations.Events.{
  Event, schedules, begins, ends, claims, releases, finalizes, cancels, World, perform, resumes,
  run, resumptions,
}

-- the attempts that the continuation has made, and its deadline
abbrev pub attempts_of : Option Continuation → ℕ
attempts_of none = 0
attempts_of (some r) = r.attempts

abbrev pub deadline_of : Option Continuation → Option ℕ
deadline_of none = none
deadline_of (some r) = r.deadline_at

-- the two parts of a file that no quiet event but a claim changes
abbrev Keeps : Option Continuation → Option Continuation → Type 0
Keeps before after =
    (attempts_of after ≡ attempts_of before) × (deadline_of after ≡ deadline_of before)

poll_begin-Keeps : (now : ℕ) (file : Option Continuation) → Keeps file (poll_begin now file).1
unfolding poll_begin
poll_begin-Keeps now none = (refl, refl)
poll_begin-Keeps now (some r) = ground arith

poll_end-Keeps :
    (now generation : ℕ) (o : Observation) (file : Option Continuation)
    → Keeps file (poll_end now generation o file).1
unfolding poll_end read_job
poll_end-Keeps now generation o none = (refl, refl)
poll_end-Keeps now generation o (some r) = ground arith

release-Keeps :
    (now generation : ℕ) (n : ℤ) (reason : String) (file : Option Continuation)
    → Keeps file (release now generation n reason file).1
unfolding release
release-Keeps now generation n reason none = (refl, refl)
release-Keeps now generation n reason (some r) = ground arith

finalize-Keeps :
    (now : ℕ) (reason : String) (file : Option Continuation)
    → Keeps file (finalize now reason file).1
unfolding finalize
finalize-Keeps now reason none = (refl, refl)
finalize-Keeps now reason (some r) = (refl, refl)

cancel-Keeps :
    (now : ℕ) (reason : String) (file : Option Continuation) → Keeps file (cancel now reason file).1
unfolding cancel
cancel-Keeps now reason none = (refl, refl)
cancel-Keeps now reason (some r) = (refl, refl)

claim_ready-not_due :
    (h : Harness) (now : ℕ) (r : Continuation)
    → is_due (claim_ready h now r).0 ≡ false
    → Keeps (some r) (claim_ready h now r).1
unfolding claim_ready
claim_ready-not_due h now r d = ground arith

reopened-Keeps : (now : ℕ) (r : Continuation) → Keeps (some r) (some (reopened now r))
reopened-Keeps now r = ground arith

claim_due-not_due :
    (h : Harness) (now : ℕ) (file : Option Continuation)
    → is_due (claim_due h now file).0 ≡ false
    → Keeps file (claim_due h now file).1
unfolding claim_due
claim_due-not_due h now none d = (refl, refl)
claim_due-not_due h now (some r) d =
    ground (arith, claim_ready-not_due h now (reopened now r), reopened-Keeps now r)

-- a schedule goes on with the chain that is there, or is rejected
abbrev pub Continues : Event → World → Type 0
Continues (schedules h r) w =
    (workflow project direction : String)
    → admit h r ≡ ok (workflow, project, direction)
    → same_chain workflow project w.file ≡ true
Continues _ w = Unit

-- no event of the sequence begins a new chain
abbrev pub StaysInChain : List (ℕ × Event) → World → Type 0
StaysInChain [] w = Unit
StaysInChain ((now, event) ∷ events) w =
    Continues event w × StaysInChain events (perform now event w)

-- each event that resumes the model does so at a time with the property
abbrev pub AllResumed : (ℕ → Type 0) → List (ℕ × Event) → World → Type 0
AllResumed P [] w = Unit
AllResumed P ((now, event) ∷ events) w =
    (resumes now event w ≡ true → P now) × AllResumed P events (perform now event w)

planned-Keeps :
    (h : Harness) (now : ℕ) (r : Request) (workflow project direction : String)
    (prior : Continuation) (t : ℕ)
    → same_chain workflow project (some prior) ≡ true
    → prior.deadline_at ≡ some t
    → Keeps (some prior) (some (planned h now r workflow project direction (some prior)))
unfolding planned
planned-Keeps h now r workflow project direction prior t same known = rw (same, known) (refl, refl)

schedule-Keeps :
    (h : Harness) (now : ℕ) (r : Request) (w : World) (t : ℕ)
    (a : Raises Rejection (String × String × String))
    → ((workflow project direction : String)
        → a ≡ ok (workflow, project, direction)
        → same_chain workflow project w.file ≡ true)
    → deadline_of w.file ≡ some t
    → Keeps w.file (scheduled_or h now r w.file a).1
schedule-Keeps h now r w t (err e) same known = (refl, refl)
schedule-Keeps h now r w t (ok (workflow, project, direction)) same known =
    kept w.file (same workflow project direction refl) known
  where
    kept :
        (file : Option Continuation)
        → same_chain workflow project file ≡ true
        → deadline_of file ≡ some t
        → Keeps file (some (planned h now r workflow project direction file))
    kept none goes_on k = cc
    kept (some prior) goes_on k = planned-Keeps h now r workflow project direction prior t goes_on k

-- what an event of a chain does to its attempts, its deadline, and whom it may resume
abbrev Advances : ℕ → ℕ → Event → World → Type 0
Advances t now event w =
    (deadline_of (perform now event w).file ≡ some t)
    × ((resumes now event w ≡ false) × (attempts_of (perform now event w).file ≡ attempts_of w.file)
        ⊎ (resumes now event w ≡ true)
          × (attempts_of w.file < 3)
          × (attempts_of (perform now event w).file ≡ attempts_of w.file + 1)
          × (now < t))

idle :
    (t now : ℕ) (event : Event) (w : World)
    → deadline_of w.file ≡ some t
    → resumes now event w ≡ false
    → Keeps w.file (perform now event w).file
    → Advances t now event w
idle t now event w known quiet kept = (kept.1 ∙ known, inl (quiet, kept.0))

claim_due-due :
    (h : Harness) (now t : ℕ) (file : Option Continuation)
    → deadline_of file ≡ some t
    → is_due (claim_due h now file).0 ≡ true
    → (deadline_of (claim_due h now file).1 ≡ some t)
      × (attempts_of file < 3)
      × (attempts_of (claim_due h now file).1 ≡ attempts_of file + 1)
      × (now < t)
claim_due-due h now t none known d = cc
claim_due-due h now t (some r) known d =
    let (exactly, left) = claim_due_iff h now r in
    let c = exactly.0 d in
    let (same_attempts, same_deadline) = reopened-Keeps now r in
    (
      ap deadline_of (left d) ∙ same_deadline ∙ known,
      c.tries_left,
      ap attempts_of (left d) ∙ ap (λ n. n + 1) same_attempts,
      c.in_time t known,
    )

perform-Advances :
    (t now : ℕ) (event : Event) (w : World)
    → Continues event w
    → deadline_of w.file ≡ some t
    → Advances t now event w
unfolding perform schedule
perform-Advances t now (schedules h r) w goes_on known =
    idle t now (schedules h r) w known refl (schedule-Keeps h now r w t (admit h r) goes_on known)
perform-Advances t now begins w goes_on known =
    idle t now begins w known refl (poll_begin-Keeps now w.file)
perform-Advances t now (ends generation o) w goes_on known =
    idle t now (ends generation o) w known refl (elim (Bool-cases (contains w.reading generation)) [
      | inl begun ↦ rw begun (poll_end-Keeps now generation o w.file)
      | inr stray ↦ rw stray (refl, refl)
    ])
perform-Advances t now (claims h) w goes_on known =
    elim (Bool-cases (is_due (claim_due h now w.file).0)) [
      | inl yes_due ↦
          let (deadline, few, more, early) = claim_due-due h now t w.file known yes_due in
          (deadline, inr (yes_due, few, more, early))
      | inr not_due ↦ idle t now (claims h) w known not_due (claim_due-not_due h now w.file not_due)
    ]
perform-Advances t now (releases generation n reason) w goes_on known =
    idle t now (releases generation n reason) w known refl
      (release-Keeps now generation n reason w.file)
perform-Advances t now (finalizes reason) w goes_on known =
    idle t now (finalizes reason) w known refl (finalize-Keeps now reason w.file)
perform-Advances t now (cancels reason) w goes_on known =
    idle t now (cancels reason) w known refl (cancel-Keeps now reason w.file)

-- As long as no new chain begins, the model is resumed at most three times, less the attempts already
-- made, and only before the chain's first deadline, however often it is rescheduled: rescheduling keeps
-- the deadline and the attempts.
pub chain_is_bounded :
    (t : ℕ) (events : List (ℕ × Event)) (w : World)
    → StaysInChain events w
    → deadline_of w.file ≡ some t
    → (resumptions events w ≤ 3 - attempts_of w.file)
      × AllResumed (λ now. now < t) events w
      × (deadline_of (run events w).file ≡ some t)
unfolding run resumptions
chain_is_bounded t [] w stays known = (omega arith, tt, known)
chain_is_bounded t ((now, event) ∷ events) w (goes_on, stays) known =
    let (kept, what) = perform-Advances t now event w goes_on known in
    let (few, early, last) = chain_is_bounded t events (perform now event w) stays kept in
    elim what [
      | inl (quiet, same) ↦ (rw quiet (omega (arith, few, same)), (λ r. cc (r, quiet), early), last)
      | inr (resumed, tries, more, in_time) ↦
          (rw resumed (omega (arith, few, tries, more)), (λ r. in_time, early), last)
    ]
