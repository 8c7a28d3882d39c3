-- ===== src/Continuations/Events/Lease.antt =====
-- A claimed continuation belongs to one session for the time of its lease.
use mathlib.Core.Path.{subst}
use awoki.Base.{
  String, ℕ, ◌+◌, ◌<◌, ◌≡◌, refl, sym, Bool, true, false, ◌&&◌, Option, none, some, List, [], ◌∷◌,
  contains, number_equality, text_equality, ◌==◌, Bool-cases, ◌⊎◌, inl, inr, arith,
}
use awoki.Continuations.State.{
  Continuation, claimed, seconds, is_closed, is_claimed, is_waiting, is_past, is_before, is_due,
  Harness,
}
use awoki.Continuations.{finalize, cancel}
use awoki.Continuations.Claim.{is_elsewhere, claim_due}
use awoki.Continuations.Claim.Conditions.{claim_due_iff}
use awoki.Continuations.Poll.{Observation, poll_begin, poll_end}
use awoki.Continuations.Events.{
  Event, schedules, begins, ends, claims, releases, finalizes, cancels, World, perform, resumes,
  resumptions, AllEvents,
}

-- an event that neither begins a new wait nor gives the lease back
abbrev pub keeps_lease : Event → Bool
keeps_lease (schedules h r) = false
keeps_lease (releases generation n reason) = false
keeps_lease _ = true

-- claimed until a point in time, or over
abbrev IsHeld : ℕ → Option Continuation → Type 0
IsHeld u none = ⊥
IsHeld u (some r) = ((r.status ≡ claimed) × (r.lease_until ≡ some u)) ⊎ (is_closed r.status ≡ true)

held_not_waiting : (u : ℕ) (r : Continuation) → IsHeld u (some r) → is_waiting r.status ≡ false
held_not_waiting u r (inl (status, lease)) = rw status
held_not_waiting u r (inr over) = ground arith

poll_begin-IsHeld :
    (u now : ℕ) (file : Option Continuation) → IsHeld u file → IsHeld u (poll_begin now file).1
unfolding poll_begin
poll_begin-IsHeld u now none held = held
poll_begin-IsHeld u now (some r) held =
    let idle = held_not_waiting u r held in
    elim (Bool-cases r.auto_resume) [
      | inl auto ↦ rw (auto, idle) held
      | inr manual ↦ rw manual held
    ]

poll_end-IsHeld :
    (u now generation : ℕ) (o : Observation) (file : Option Continuation)
    → IsHeld u file
    → IsHeld u (poll_end now generation o file).1
unfolding poll_end
poll_end-IsHeld u now generation o none held = held
poll_end-IsHeld u now generation o (some r) held =
    let idle = held_not_waiting u r held in
    elim (Bool-cases (r.generation == generation)) [
      | inl same ↦ rw (same, idle) held
      | inr other ↦ rw other held
    ]

finalize-IsHeld :
    (u now : ℕ) (reason : String) (file : Option Continuation)
    → IsHeld u file
    → IsHeld u (finalize now reason file).1
unfolding finalize
finalize-IsHeld u now reason none held = held
finalize-IsHeld u now reason (some r) held = inr refl

cancel-IsHeld :
    (u now : ℕ) (reason : String) (file : Option Continuation)
    → IsHeld u file
    → IsHeld u (cancel now reason file).1
unfolding cancel
cancel-IsHeld u now reason none held = held
cancel-IsHeld u now reason (some r) held = inr refl

claim_due-over :
    (h : Harness) (now u : ℕ) (r : Continuation)
    → is_closed r.status ≡ true
    → IsHeld u (claim_due h now (some r)).1 × (is_due (claim_due h now (some r)).0 ≡ false)
unfolding claim_due
claim_due-over h now u r over = elim (Bool-cases r.auto_resume) [
  | inl auto ↦ rw (auto, over) (inr over, refl)
  | inr manual ↦ rw manual (inr over, refl)
]

claim_due-leased :
    (h : Harness) (now u : ℕ) (r : Continuation)
    → now < u
    → r.status ≡ claimed
    → r.lease_until ≡ some u
    → IsHeld u (claim_due h now (some r)).1 × (is_due (claim_due h now (some r)).0 ≡ false)
unfolding claim_due
claim_due-leased h now u r early status lease =
    let held : IsHeld u (some r) = inl (status, lease) in
    let unexpired : (is_claimed r.status && is_before now r.lease_until) ≡ true =
      rw (status, lease) (ground arith) in
    let going : is_closed r.status ≡ false = rw status in
    elim (Bool-cases r.auto_resume) [
      | inr manual ↦ rw manual (held, refl)
      | inl auto ↦ elim (Bool-cases (is_elsewhere h r)) [
        | inl away ↦ rw (auto, going, away) (held, refl)
        | inr home ↦ elim (Bool-cases (is_past now r.deadline_at)) [
          | inl late ↦ rw (auto, going, home, late) (inr refl, refl)
          | inr timely ↦ rw (auto, going, home, timely, unexpired) (held, refl)
        ]
      ]
    ]

claim_due-IsHeld :
    (h : Harness) (now u : ℕ) (file : Option Continuation)
    → now < u
    → IsHeld u file
    → IsHeld u (claim_due h now file).1 × (is_due (claim_due h now file).0 ≡ false)
claim_due-IsHeld h now u none early held = absurd held
claim_due-IsHeld h now u (some r) early (inl (status, lease)) =
    claim_due-leased h now u r early status lease
claim_due-IsHeld h now u (some r) early (inr over) = claim_due-over h now u r over

perform-IsHeld :
    (u now : ℕ) (event : Event) (w : World)
    → now < u
    → keeps_lease event ≡ true
    → IsHeld u w.file
    → IsHeld u (perform now event w).file × (resumes now event w ≡ false)
unfolding perform
perform-IsHeld u now (schedules h r) w early kept held = cc
perform-IsHeld u now (releases generation n reason) w early kept held = cc
perform-IsHeld u now begins w early kept held = (poll_begin-IsHeld u now w.file held, refl)
perform-IsHeld u now (ends generation o) w early kept held =
    elim (Bool-cases (contains w.reading generation)) [
      | inl begun ↦ rw begun (poll_end-IsHeld u now generation o w.file held, refl)
      | inr stray ↦ rw stray (held, refl)
    ]
perform-IsHeld u now (claims h) w early kept held = claim_due-IsHeld h now u w.file early held
perform-IsHeld u now (finalizes reason) w early kept held =
    (finalize-IsHeld u now reason w.file held, refl)
perform-IsHeld u now (cancels reason) w early kept held =
    (cancel-IsHeld u now reason w.file held, refl)

held_not_resumed :
    (u : ℕ) (events : List (ℕ × Event)) (w : World)
    → AllEvents (λ now event. (now < u) × (keeps_lease event ≡ true)) events
    → IsHeld u w.file
    → resumptions events w ≡ 0
unfolding resumptions
held_not_resumed u [] w all held = refl
held_not_resumed u ((now, event) ∷ events) w ((early, kept), all) held =
    let (still, idle) = perform-IsHeld u now event w early kept held in
    rw (idle, held_not_resumed u events (perform now event w) all still)

-- After a claim that is answered "due", no other claim is for ten minutes, whatever polls, claims and
-- endings come, unless the continuation is released or scheduled anew: one session resumes at a time.
pub lease_is_exclusive :
    (h : Harness) (now : ℕ) (r : Continuation) (reading : List ℕ) (events : List (ℕ × Event))
    → let w : World = record { file = some r; reading = reading } in
      resumes now (claims h) w ≡ true
      → AllEvents (λ later event. (later < now + seconds 600) × (keeps_lease event ≡ true)) events
      → resumptions events (perform now (claims h) w) ≡ 0
unfolding perform
lease_is_exclusive h now r reading events d all =
    held_not_resumed (now + seconds 600) events _ all
      (subst (IsHeld (now + seconds 600)) (sym ((claim_due_iff h now r).1 d)) (inl (refl, refl)))
