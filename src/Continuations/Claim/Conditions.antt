-- ===== src/Continuations/Claim/Conditions.antt =====
-- When an idle session gets the continuation.
use mathlib.Core.Path.{subst}
use awoki.Base.{
  String, ℕ, ◌≤◌, ◌<◌, ◌≡◌, ◌↔◌, ◌⊎◌, refl, sym, ap, ◌∙◌, true, false, not, ◌&&◌, Option, none,
  some, nonempty, eq_iff, text_equality, ◌==◌, Bool-cases, inl, inr, arith, if◌then◌else◌,
}
use awoki.Continuations.State.{
  Continuation, ready, claimed, is_closed, is_claimed, is_past, is_before, due, public, is_due,
  Harness,
}
use awoki.Continuations.Claim.{
  is_elsewhere, direction_reason, reopened, taken, claim_ready, claim_due,
}

-- the continuation waits for nobody: it is ready and its pause is over, or its lease ran out
abbrev IsFree : ℕ → Continuation → Type 0
IsFree now r =
    ((r.status ≡ ready) × ((t : ℕ) → r.not_before ≡ some t → t ≤ now))
    ⊎ ((r.status ≡ claimed) × ((t : ℕ) → r.lease_until ≡ some t → t ≤ now))

-- What it takes to be resumed at a time.
pub record IsClaimable (h : Harness) (now : ℕ) (r : Continuation) : Type 0 where
  pub by_itself : r.auto_resume ≡ true
  pub at_home : is_elsewhere h r ≡ false
  pub in_time : (t : ℕ) → r.deadline_at ≡ some t → now < t
  pub free : IsFree now r
  pub tries_left : r.attempts < 3
  pub bound : nonempty r.direction_fingerprint ≡ true
  pub unmoved : h.fingerprint r.project_id ≡ r.direction_fingerprint

claim_ready-due :
    (h : Harness) (now : ℕ) (r : Continuation)
    → is_due (claim_ready h now r).0 ≡ true
    → (r.status ≡ ready)
      × (is_before now r.not_before ≡ false)
      × (r.attempts < 3)
      × (nonempty (direction_reason h r) ≡ false)
unfolding claim_ready
claim_ready-due h now r d = ground arith

due-claim_ready :
    (h : Harness) (now : ℕ) (r : Continuation)
    → r.status ≡ ready
    → is_before now r.not_before ≡ false
    → r.attempts < 3
    → nonempty (direction_reason h r) ≡ false
    → claim_ready h now r ≡ (due (public (taken now r)), some (taken now r))
unfolding claim_ready
due-claim_ready h now r status rested tries same = ground arith

-- the tests up to the one of the status
abbrev Opens : Harness → ℕ → Continuation → Type 0
Opens h now r =
    (r.auto_resume ≡ true)
    × (is_closed r.status ≡ false)
    × (is_elsewhere h r ≡ false)
    × (is_past now r.deadline_at ≡ false)
    × ((is_claimed r.status && is_before now r.lease_until) ≡ false)

claim_due-Opens :
    (h : Harness) (now : ℕ) (r : Continuation)
    → is_due (claim_due h now (some r)).0 ≡ true
    → Opens h now r × (is_due (claim_ready h now (reopened now r)).0 ≡ true)
unfolding claim_due
claim_due-Opens h now r d = ground arith

claim_due-eq-claim_ready :
    (h : Harness) (now : ℕ) (r : Continuation)
    → Opens h now r
    → claim_due h now (some r) ≡ claim_ready h now (reopened now r)
unfolding claim_due
claim_due-eq-claim_ready h now r (auto, going, home, early, unleased) =
    rw (auto, going, home, early, unleased)

-- a point in time, as a test and as a comparison
not_past : (now : ℕ) (m : Option ℕ) → (is_past now m ≡ false) ↔ ((t : ℕ) → m ≡ some t → now < t)
not_past now none = (λ h t e. cc, λ h. refl)
not_past now (some t) = (λ h u e. ground arith, λ h. ground (arith, h t refl))

not_before_iff :
    (now : ℕ) (m : Option ℕ) → (is_before now m ≡ false) ↔ ((t : ℕ) → m ≡ some t → t ≤ now)
not_before_iff now none = (λ h t e. cc, λ h. refl)
not_before_iff now (some t) = (λ h u e. ground arith, λ h. ground (arith, h t refl))

-- the ladder of `direction_reason`, of the bound and the current fingerprint
abbrev reason_of : String → String → String
reason_of bound current =
    if not (nonempty bound)
    then "direction_binding_missing"
    else if not (nonempty current)
    then "direction_state_unavailable"
    else if not (current == bound)
    then "direction_changed"
    else ""

unmoved_of_reason :
    (bound current : String)
    → nonempty (reason_of bound current) ≡ false
    → (nonempty bound ≡ true) × (current ≡ bound)
unmoved_of_reason String.[] current h = cc
unmoved_of_reason (String.◌∷◌ x bound) String.[] h = cc
unmoved_of_reason (String.◌∷◌ x bound) (String.◌∷◌ y current) h =
    elim (Bool-cases (String.◌∷◌ y current == String.◌∷◌ x bound)) [
      | inl e ↦ (refl, (eq_iff (String.◌∷◌ y current) (String.◌∷◌ x bound)).0 e)
      | inr e ↦ cc (rw e at h)
    ]

reason_of_same : (bound : String) → nonempty bound ≡ true → nonempty (reason_of bound bound) ≡ false
reason_of_same bound h =
    let same : (bound == bound) ≡ true = (eq_iff bound bound).1 refl in rw (h, same)

direction_same :
    (h : Harness) (r : Continuation)
    → (nonempty (direction_reason h r) ≡ false) ↔ (
        (nonempty r.direction_fingerprint ≡ true)
        × (h.fingerprint r.project_id ≡ r.direction_fingerprint))
direction_same h r = (
  unmoved_of_reason r.direction_fingerprint (h.fingerprint r.project_id),
  λ q.
      subst (λ c. nonempty (reason_of r.direction_fingerprint c) ≡ false) (sym q.1)
        (reason_of_same r.direction_fingerprint q.0),
)

reopened-same :
    (h : Harness) (now : ℕ) (r : Continuation)
    → (direction_reason h (reopened now r) ≡ direction_reason h r)
      × ((reopened now r).attempts ≡ r.attempts)
reopened-same h now r = elim (Bool-cases (is_claimed r.status)) [
  | inl held ↦ rw held (refl, refl)
  | inr other ↦ rw other (refl, refl)
]

free_of_claim :
    (now : ℕ) (r : Continuation)
    → (is_claimed r.status && is_before now r.lease_until) ≡ false
    → (reopened now r).status ≡ ready
    → is_before now (reopened now r).not_before ≡ false
    → IsFree now r
free_of_claim now r unleased status rested = elim (Bool-cases (is_claimed r.status)) [
  | inl held ↦
      inr (ground (arith, held), (not_before_iff now r.lease_until).0 (ground (arith, held)))
  | inr other ↦ inl (rw other at status, (not_before_iff now r.not_before).0 (rw other at rested))
]

claim_of_free :
    (now : ℕ) (r : Continuation)
    → IsFree now r
    → (is_closed r.status ≡ false)
      × ((is_claimed r.status && is_before now r.lease_until) ≡ false)
      × ((reopened now r).status ≡ ready)
      × (is_before now (reopened now r).not_before ≡ false)
claim_of_free now r (inl (status, rested)) =
    let over = (not_before_iff now r.not_before).1 rested in
    (rw status, rw status, rw status, rw status over)
claim_of_free now r (inr (status, expired)) =
    let over = (not_before_iff now r.lease_until).1 expired in
    (rw status, rw (status, over), rw status, rw status)

-- `claim_due` hands the continuation out exactly when it resumes by itself, the session is where the chain
-- belongs, the deadline is not reached, it is ready with its pause over or claimed with its lease run out,
-- fewer than three attempts were made, and the saved direction is known and is the one it is bound to; and
-- then what is left is the continuation, claimed, with one attempt more and a lease of ten minutes.
pub claim_due_iff :
    (h : Harness) (now : ℕ) (r : Continuation)
    → ((is_due (claim_due h now (some r)).0 ≡ true) ↔ IsClaimable h now r)
      × (is_due (claim_due h now (some r)).0 ≡ true
          → (claim_due h now (some r)).1 ≡ some (taken now (reopened now r)))
claim_due_iff h now r =
    ((sound, λ c. ap (λ p. is_due p.0) (complete c)), λ d. ap (λ p. p.1) (complete (sound d)))
  where
    sound : is_due (claim_due h now (some r)).0 ≡ true → IsClaimable h now r
    sound d =
        let ((auto, going, home, early, unleased), ready_due) = claim_due-Opens h now r d in
        let (status, rested, tries, same) = claim_ready-due h now (reopened now r) ready_due in
        let (same_reason, same_attempts) = reopened-same h now r in
        let (bound, unmoved) = (direction_same h r).0 (ap nonempty (sym same_reason) ∙ same) in
        record {
          by_itself = auto;
          at_home = home;
          in_time = (not_past now r.deadline_at).0 early;
          free = free_of_claim now r unleased status rested;
          tries_left = omega (arith, tries, same_attempts);
          bound = bound;
          unmoved = unmoved;
        }

    complete :
        IsClaimable h now r
        → claim_due h now (some r)
          ≡ (due (public (taken now (reopened now r))), some (taken now (reopened now r)))
    complete c =
        let (going, unleased, status, rested) = claim_of_free now r c.free in
        let (same_reason, same_attempts) = reopened-same h now r in
        claim_due-eq-claim_ready h now r
          (c.by_itself, going, c.at_home, (not_past now r.deadline_at).1 c.in_time, unleased)
        ∙ due-claim_ready h now (reopened now r) status rested
            (omega (arith, same_attempts, c.tries_left))
            (ap nonempty same_reason ∙ (direction_same h r).1 (c.bound, c.unmoved))
