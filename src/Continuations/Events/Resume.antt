-- ===== src/Continuations/Events/Resume.antt =====
-- A job that ends resumes the model.
use awoki.Base.{
  ok, String, ℕ, ◌+◌, ◌≤◌, ◌<◌, ◌≡◌, refl, sym, ap, ◌∙◌, true, false, Option, none, some, List, [],
  ◌∷◌, ◌++◌, nonempty, contains, number_equality, text_equality, ◌==◌, eq_iff, Bool-cases, inl, inr,
  arith,
}
use awoki.Continuations.State.{
  Continuation, waiting, ready, seconds, is_past, is_before, is_due, Harness,
}
use awoki.Continuations.{
  Request, admit, clamp_wait, same_chain, next_generation, chain, or_deadline, planned,
  scheduled_or, schedule,
}
use awoki.Continuations.Claim.{is_elsewhere, claim_due}
use awoki.Continuations.Claim.Conditions.{claim_due_iff}
use awoki.Continuations.Poll.{Observation, reads, is_terminal, read_job, poll_begin, poll_end}
use awoki.Continuations.Events.{schedules, begins, ends, claims, World, perform, resumptions}

admit_bound :
    (h : Harness) (r : Request) (workflow project direction : String)
    → admit h r ≡ ok (workflow, project, direction)
    → (nonempty direction ≡ true) × (h.fingerprint project ≡ direction)
unfolding admit
admit_bound h r workflow project direction e = ground arith

-- the continuation of a new chain
module _ (h : Harness) (r : Request) (o : Observation) (w : World)
    (workflow project direction : String) (start : ℕ)
    (new : same_chain workflow project w.file ≡ false) where
  abbrev first : Continuation
  first = planned h start r workflow project direction w.file

  first-fields :
      (first.status ≡ waiting)
      × (first.auto_resume ≡ r.auto_resume)
      × (first.deadline_at ≡ some (start + seconds 172800))
      × (first.not_before ≡ some (start + seconds (clamp_wait r.wait_seconds)))
      × (first.attempts ≡ 0)
      × (first.project_id ≡ project)
      × (first.direction_fingerprint ≡ direction)
      × (first.generation ≡ next_generation w.file)
  unfolding planned
  first-fields =
      let fresh : chain (same_chain workflow project w.file) w.file ≡ none = rw new refl in
      (
        refl,
        refl,
        ap (λ c. or_deadline start (elim c [ none ↦ none | some p ↦ p.deadline_at ])) fresh,
        refl,
        ap (λ c. elim c [ none ↦ 0 | some p ↦ p.attempts ]) fresh,
        refl,
        refl,
        refl,
      )

-- a poll that is due, of a waiting continuation, reads the job
poll_begin-reads :
    (now : ℕ) (r : Continuation) (deadline rested : ℕ)
    → r.auto_resume ≡ true
    → r.status ≡ waiting
    → r.deadline_at ≡ some deadline
    → r.not_before ≡ some rested
    → now < deadline
    → rested ≤ now
    → poll_begin now (some r) ≡ (reads r.generation, some r)
unfolding poll_begin
poll_begin-reads now r deadline rested auto status limit pause early late =
    let unfinished : is_past now r.deadline_at ≡ false = rw limit (ground arith) in
    let over : is_before now r.not_before ≡ false = rw pause (ground arith) in
    rw (auto, status, unfinished, over)

-- the end of a poll, for the continuation that it began for
poll_end-read_job :
    (now : ℕ) (o : Observation) (r : Continuation)
    → r.status ≡ waiting
    → (poll_end now r.generation o (some r)).1 ≡ some (read_job now o r)
unfolding poll_end
poll_end-read_job now o r status =
    let same : (r.generation == r.generation) ≡ true = ground arith in rw (status, same)

-- a job that is over makes it ready
read_job-ready :
    (now : ℕ) (o : Observation) (r : Continuation)
    → is_terminal o ≡ true
    → ((read_job now o r).status ≡ ready)
      × ((read_job now o r).not_before ≡ none)
      × ((read_job now o r).auto_resume ≡ r.auto_resume)
      × ((read_job now o r).deadline_at ≡ r.deadline_at)
      × ((read_job now o r).attempts ≡ r.attempts)
      × ((read_job now o r).project_id ≡ r.project_id)
      × ((read_job now o r).direction_fingerprint ≡ r.direction_fingerprint)
unfolding read_job
read_job-ready now o r over = rw over (refl, refl, refl, refl, refl, refl, refl)

-- a session in the project of the chain
at_home :
    (h : Harness) (r : Continuation)
    → nonempty h.current_project ≡ true
    → h.current_project ≡ r.project_id
    → is_elsewhere h r ≡ false
at_home h r some_project same =
    let equal : (h.current_project == r.project_id) ≡ true =
      (eq_iff h.current_project r.project_id).1 same in
    rw (some_project, equal)
      (elim (Bool-cases (nonempty r.project_id)) [ inl y ↦ rw y refl | inr n ↦ rw n refl ])

-- a schedule of an admitted request
schedule-planned :
    (h : Harness) (now : ℕ) (r : Request) (workflow project direction : String)
    (file : Option Continuation)
    → admit h r ≡ ok (workflow, project, direction)
    → (schedule h now r file).1 ≡ some (planned h now r workflow project direction file)
unfolding schedule
schedule-planned h now r workflow project direction file admitted =
    ap (λ a. (scheduled_or h now r file a).1) admitted

-- a claim of a first attempt, in the project, before the deadline
claim_due-first :
    (h : Harness) (now : ℕ) (r : Continuation) (deadline : ℕ)
    → r.status ≡ ready
    → r.not_before ≡ none
    → r.auto_resume ≡ true
    → r.deadline_at ≡ some deadline
    → now < deadline
    → r.attempts ≡ 0
    → nonempty h.current_project ≡ true
    → h.current_project ≡ r.project_id
    → nonempty r.direction_fingerprint ≡ true
    → h.fingerprint r.project_id ≡ r.direction_fingerprint
    → is_due (claim_due h now (some r)).0 ≡ true
claim_due-first h now r deadline status pause auto limit early tries known home bound unmoved =
    (claim_due_iff h now r).0.1 (record {
      by_itself = auto;
      at_home = at_home h r known home;
      in_time = λ t e. let same : deadline ≡ t = cc in omega (arith, same, early);
      free = inl (status, λ t e. cc);
      tries_left = omega (arith, tries);
      bound = bound;
      unmoved = unmoved;
    })

contains_last :
    (reading : List ℕ) (generation : ℕ) → contains (reading ++ generation ∷ []) generation ≡ true
contains_last [] generation = ground arith
contains_last (g ∷ reading) generation = ground (arith, contains_last reading generation)

-- a poll from its beginning to its end
poll-read_job :
    (begun ended : ℕ) (o : Observation) (c : Continuation) (reading : List ℕ)
    (file : Option Continuation)
    → file ≡ some c
    → poll_begin begun (some c) ≡ (reads c.generation, some c)
    → c.status ≡ waiting
    → (perform ended
        (ends c.generation o)
        (perform begun begins (record { file = file; reading = reading }))).file
      ≡ some (read_job ended o c)
unfolding perform
poll-read_job begun ended o c reading file held reading_starts status =
    let begins_reading : poll_begin begun file ≡ (reads c.generation, some c) =
      ap (poll_begin begun) held ∙ reading_starts in
    rw (begins_reading, contains_last reading c.generation) (poll_end-read_job ended o c status)

-- A job that a session of a project waits for resumes the model, once, when it is over: after a schedule
-- that begins a new chain and asks for it, a poll that begins when the wait is over and ends with a job
-- that is over, and a claim in the same project, both before the deadline of two days, with the direction
-- as it was.
pub finished_job_resumes :
    (h : Harness) (r : Request) (o : Observation) (w : World) (workflow project direction : String)
    (start begun ended later : ℕ)
    → admit h r ≡ ok (workflow, project, direction)
    → same_chain workflow project w.file ≡ false
    → nonempty h.current_project ≡ true
    → h.current_project ≡ project
    → r.auto_resume ≡ true
    → start + seconds (clamp_wait r.wait_seconds) ≤ begun
    → begun < start + seconds 172800
    → is_terminal o ≡ true
    → later < start + seconds 172800
    → resumptions
        ((start, schedules h r)
          ∷ (begun, begins)
          ∷ (ended, ends (next_generation w.file) o)
          ∷ (later, claims h)
          ∷ [])
        w
      ≡ 1
unfolding perform resumptions planned
finished_job_resumes h r o w workflow project direction start begun ended later admitted new known
      home asked waited early over soon =
    let (bound, unmoved) = admit_bound h r workflow project direction admitted in
    let c = planned h start r workflow project direction w.file in
    let (status, auto, limit, pause, tries, project_of, direction_of, generation) =
      first-fields h r o w workflow project direction start new in
    let (status', pause', auto', limit', tries', project', direction') =
      read_job-ready ended o c over in
    let one = schedule-planned h start r workflow project direction w.file admitted in
    let two =
      poll_begin-reads begun c (start + seconds 172800)
        (start + seconds (clamp_wait r.wait_seconds)) (auto ∙ asked) status limit pause early
        waited in
    let four =
      claim_due-first h later (read_job ended o c) (start + seconds 172800) status' pause'
        (auto' ∙ auto ∙ asked) (limit' ∙ limit) soon (tries' ∙ tries) known
        (home ∙ sym (project' ∙ project_of)) (ap nonempty (direction' ∙ direction_of) ∙ bound)
        (ap h.fingerprint (project' ∙ project_of) ∙ unmoved ∙ sym (direction' ∙ direction_of)) in
    let file : (perform ended (ends (next_generation w.file) o)
          (perform begun begins (perform start (schedules h r) w))).file
        ≡ some (read_job ended o c) =
      poll-read_job begun ended o c w.reading _ one two status in
    rw (ap (λ f. is_due (claim_due h later f).0) file ∙ four) refl
