-- ===== src/Reliability/Budget.antt =====
-- `_budget_state` and `consume_corrective_budget`.
pub mod Spending
use Prim.Native.Nat.{min}
use awoki.Base.{
  ℕ, ◌+◌, ◌-◌, Bool, not, String, List, [], ◌∷◌, ◌++◌, take_last, nonempty, leb, if◌then◌else◌,
  Raises, ok, err, raise_if, ◌>>=◌, ◌>>◌,
}
use awoki.Reliability.State.{Event, Budget, Run, RunError, already_finalized, action_required}
use awoki.Reliability.Texts.{bounded_text}
use awoki.Reliability.Records.{is_in_progress, write_all}

-- `_budget_state`: a stored budget, clamped
unfoldable pub budget_state : Budget → Budget
budget_state raw =
    let total = min raw.total 8 in
    let used = min raw.used total in
    record {
      total = total;
      used = used;
      remaining = total - used;
      events = take_last 16 raw.events;
    }

pub data Consumption (V : Type 0) : Type 0 where
  rejected : Budget → Consumption V
  consumed : Run V → Consumption V

-- `id` is the identity that is drawn for the event
abbrev pub charge : String → String → Budget → Budget
charge id action budget = record budget {
  used = budget.used + 1;
  remaining = budget.total - (budget.used + 1);
  events = take_last 16 (budget.events ++ record { event_id = id; action = action } ∷ []);
}

unfoldable pub consume_corrective_budget :
    {V : Type 0}
    → (V → String)
    → (String → String)
    → (id action : String) → Run V
    → Raises RunError (Consumption V)
consume_corrective_budget canon redact id action run = do
  clean_action ← bounded_text redact action 1000 3
  raise_if (not (nonempty clean_action)) action_required
  raise_if (not (is_in_progress run.status)) already_finalized
  let budget = budget_state run.corrective_budget
  let spend = write_all canon (record run { corrective_budget = charge id clean_action budget })
  if leb budget.remaining 0 then ok (rejected budget) else spend >>= λ saved. ok (consumed saved)
