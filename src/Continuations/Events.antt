-- ===== src/Continuations/Events.antt =====
-- What may happen to a session's continuation, as events in the order in which they take the lock. The
-- two parts of a poll are two events, so that any operation may come between them.
pub mod Closed
pub mod Attempts
pub mod Lease
pub mod Resume
mod Tests
use awoki.Base.Int.{ℤ}
use awoki.Base.{
  ℕ, suc, ◌+◌, Bool, true, false, String, Option, none, some, List, [], ◌∷◌, ◌++◌, contains,
  number_equality, if◌then◌else◌,
}
use awoki.Continuations.State.{Continuation, is_due, Harness}
use awoki.Continuations.{Request, schedule, release, finalize, cancel}
use awoki.Continuations.Claim.{claim_due}
use awoki.Continuations.Poll.{Observation, Begun, answered, reads, poll_begin, poll_end}

-- `ends` is the second part of a read that began for a generation
pub data Event : Type 0 where
  schedules : Harness → Request → Event
  begins : Event
  ends : (generation : ℕ) → Observation → Event
  claims : Harness → Event
  releases : (generation : ℕ) → (retry_seconds : ℤ) → (reason : String) → Event
  finalizes cancels : (reason : String) → Event

-- the continuation that the session's document holds, and the generations that polls are reading
pub record World : Type 0 where
  pub file : Option Continuation
  pub reading : List ℕ

abbrev now_reading : Begun → List ℕ → List ℕ
now_reading (answered r) reading = reading
now_reading (reads generation) reading = reading ++ generation ∷ []

-- the world after an event at a time; a poll cannot end that did not begin
unfoldable pub perform : ℕ → Event → World → World
perform now (schedules h r) w = record w { file = (schedule h now r w.file).1 }
perform now begins w =
    let begun = poll_begin now w.file in
    record w { file = begun.1; reading = now_reading begun.0 w.reading }
perform now (ends generation o) w =
    if contains w.reading generation
    then record w { file = (poll_end now generation o w.file).1 }
    else w
perform now (claims h) w = record w { file = (claim_due h now w.file).1 }
perform now (releases generation n reason) w = record w {
  file = (release now generation n reason w.file).1;
}
perform now (finalizes reason) w = record w { file = (finalize now reason w.file).1 }
perform now (cancels reason) w = record w { file = (cancel now reason w.file).1 }

-- the event resumes the model: it is a claim that is answered "due"
abbrev pub resumes : ℕ → Event → World → Bool
resumes now (claims h) w = is_due (claim_due h now w.file).0
resumes now _ w = false

unfoldable pub run : List (ℕ × Event) → World → World
run [] w = w
run ((now, event) ∷ events) w = run events (perform now event w)

-- how often a sequence of events resumes the model
unfoldable pub resumptions : List (ℕ × Event) → World → ℕ
resumptions [] w = 0
resumptions ((now, event) ∷ events) w =
    let rest = resumptions events (perform now event w) in
    if resumes now event w then suc rest else rest

-- every event of the sequence, with its time
abbrev pub AllEvents : (ℕ → Event → Type 0) → List (ℕ × Event) → Type 0
AllEvents P [] = Unit
AllEvents P ((now, event) ∷ events) = P now event × AllEvents P events

-- an event that is no `schedule`: the chain goes on, or ends
abbrev pub is_quiet : Event → Bool
is_quiet (schedules h r) = false
is_quiet _ = true
