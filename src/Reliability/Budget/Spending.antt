-- ===== src/Reliability/Budget/Spending.antt =====
-- The corrective budget bounds what may be spent.
use awoki.Base.{
  ℕ, ◌+◌, ◌≤◌, ◌<◌, ◌≡◌, refl, sym, ap, ◌∙◌, not, String, List, [], ◌∷◌, ◌++◌, length,
  length-take_last-le, nonempty, leb, arith, Raises, ok, err, raise_if, bind-eq-ok, ◌>>=◌,
  Bool-cases, inl, inr, if◌then◌else◌,
}
use awoki.Reliability.State.{Budget, Run, RunError, already_finalized, action_required}
use awoki.Reliability.Texts.{bounded_text}
use awoki.Reliability.Records.{is_in_progress, write_all, write_all-same}
use awoki.Reliability.Budget.{
  budget_state, Consumption, rejected, consumed, charge, consume_corrective_budget,
}

-- A budget in order: at most eight, never overdrawn, its rest kept exactly, and at most 16 events.
pub record IsBalanced (b : Budget) : Type 0 where
  pub capped : b.total ≤ 8
  pub covered : b.used ≤ b.total
  pub rest : b.remaining + b.used ≡ b.total
  pub short : length b.events ≤ 16

-- Whatever was stored, the state that is read back is in order.
pub budget_state-IsBalanced : (raw : Budget) → IsBalanced (budget_state raw)
unfolding budget_state
budget_state-IsBalanced raw = record {
  capped = omega arith;
  covered = omega arith;
  rest = omega arith;
  short = length-take_last-le 16 raw.events;
}

-- the state that is read back from a budget in order
remaining-budget_state : (b : Budget) → IsBalanced b → (budget_state b).remaining ≡ b.remaining
unfolding budget_state
remaining-budget_state b h = omega arith

module _ {V : Type 0} (canon : V → String) (redact : String → String) where
  consumed_inversion :
      (id action : String) (run saved : Run V)
      → consume_corrective_budget canon redact id action run ≡ ok (consumed saved)
      → (clean : String) × (0 < (budget_state run.corrective_budget).remaining)
        × (saved.corrective_budget ≡ charge id clean (budget_state run.corrective_budget))
  unfolding consume_corrective_budget
  consumed_inversion id action run saved h =
      let (clean, bounded, r₁) =
        bind-eq-ok _ (bounded_text redact action 1000 3) (consumed saved) h in
      let (u, named, r₂) =
        bind-eq-ok _ (raise_if (not (nonempty clean)) action_required) (consumed saved) r₁ in
      let (v, going, r₃) =
        bind-eq-ok _ (raise_if (not (is_in_progress run.status)) already_finalized) (consumed saved)
          r₂ in
      let (some_left, same) = last clean r₃ in (clean, some_left, same)
    where
      b : Budget
      b = budget_state run.corrective_budget

      next : String → Run V
      next clean = record run { corrective_budget = charge id clean b }

      last :
          (clean : String)
          → (if leb b.remaining 0
              then ok (rejected b)
              else write_all canon (next clean) >>= λ s. ok (consumed s))
            ≡ ok (consumed saved)
          → (0 < b.remaining) × (saved.corrective_budget ≡ charge id clean b)
      last clean e = elim (Bool-cases (leb b.remaining 0)) [
        | inl out ↦ cc (rw out at e)
        | inr left ↦
            let (s, written, same) =
              bind-eq-ok _ (write_all canon (next clean)) (consumed saved) (rw left at e) in
            let kept : s ≡ saved = cc in
            (
              ground arith,
              ap (λ r. r.corrective_budget)
                  (sym (write_all-same canon (next clean) s written ∙ kept)),
            )
      ]

  -- Each consumption takes exactly one unit of a budget that has one left, and leaves it in order: at most
  -- eight in total, never overdrawn, the rest kept exactly, at most 16 events.
  pub consume_takes_one :
      (id action : String) (run saved : Run V)
      → consume_corrective_budget canon redact id action run ≡ ok (consumed saved)
      → let before = budget_state run.corrective_budget in
        IsBalanced saved.corrective_budget
        × (saved.corrective_budget.total ≡ before.total)
        × (saved.corrective_budget.remaining + 1 ≡ before.remaining)
  consume_takes_one id action run saved h =
      let (clean, some_left, same) = consumed_inversion id action run saved h in
      let before = budget_state run.corrective_budget in
      let balanced = budget_state-IsBalanced run.corrective_budget in
      rw same (
        record {
          capped = balanced.capped;
          covered = omega (arith, balanced.rest, balanced.covered);
          rest = omega (arith, balanced.rest, balanced.covered);
          short =
              length-take_last-le 16
                (before.events ++ record { event_id = id; action = clean } ∷ []);
        },
        refl,
        omega (arith, balanced.rest, balanced.covered),
      )

  -- the state after an attempt, and whether it was granted
  abbrev after : Run V → Raises RunError (Consumption V) → Run V × ℕ
  after run (ok (consumed saved)) = (saved, 1)
  after run _ = (run, 0)

  -- how many of a sequence of attempts are granted
  pub granted : List (String × String) → Run V → ℕ
  granted [] run = 0
  granted ((id, action) ∷ attempts) run =
      let (next, one) = after run (consume_corrective_budget canon redact id action run) in
      one + granted attempts next

  granted-step :
      (id action : String) (attempts : List (String × String)) (run : Run V)
      (r : Raises RunError (Consumption V))
      → consume_corrective_budget canon redact id action run ≡ r
      → ((s : Run V) → granted attempts s ≤ (budget_state s.corrective_budget).remaining)
      → (after run r).1 + granted attempts (after run r).0
        ≤ (budget_state run.corrective_budget).remaining
  granted-step id action attempts run (err e) h ih = omega (arith, ih run)
  granted-step id action attempts run (ok (rejected b)) h ih = omega (arith, ih run)
  granted-step id action attempts run (ok (consumed saved)) h ih =
      let (balanced, total, one_less) = consume_takes_one id action run saved h in
      omega (arith, ih saved, one_less, remaining-budget_state saved.corrective_budget balanced)

  -- Of any sequence of attempts, no more are granted than the budget has left at its start.
  pub granted-le-remaining :
      (attempts : List (String × String)) (run : Run V)
      → granted attempts run ≤ (budget_state run.corrective_budget).remaining
  unfolding granted
  granted-le-remaining [] run = omega arith
  granted-le-remaining ((id, action) ∷ attempts) run =
      granted-step id action attempts run (consume_corrective_budget canon redact id action run)
        refl (granted-le-remaining attempts)
