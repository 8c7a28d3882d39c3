-- ===== src/Reliability/Events.antt =====
-- The operations of `reliability` on a started run as events, in the order in which they take the run's
-- lock. `verification_checkpoint` is not among them: see `Checkpoint`.
pub mod Barred
use awoki.Base.{
  String, Bool, true, not, ◌||◌, ◌==◌, text_equality, Option, List, [], ◌∷◌, Raises, ok, err,
}
use awoki.ClaimGraph.{RawClaim}
use awoki.Reliability.State.{RelationType, Run, RunError}
use awoki.Reliability.Texts.{clean_node_id}
use awoki.Reliability.Records.{record_check, record_claim}
use awoki.Reliability.Assess.{record_assessment, record_relation}
use awoki.Reliability.Budget.{Consumption, rejected, consumed, consume_corrective_budget}
use awoki.Reliability.Finish.{finish_run}

-- the arguments of `record_assessment`; `fresh` is the identity that is drawn
pub record Assessing : Type 0 where
  pub fresh : String
  pub kind : String
  pub statement : String
  pub node_id : String
  pub status : String
  pub authority : String
  pub analysis_summary : String
  pub evidence_refs : List String
  pub relations : List (String × String × String)
  pub required : Bool
  pub confidence : String
  pub requirements : List String

pub data Event (V : Type 0) : Type 0 where
  checks : (check_name status : String) → (required : Bool) → Event V
  claims : RawClaim V → Event V
  assesses : Assessing → Event V
  relates :
      (fresh_from fresh_to from_node_id relation_type to_node_id relation_id : String) → Event V
  consumes : (id action : String) → Event V
  finishes : (requested_status : String) → (risks : List String) → Event V

-- the identity of the assessment that is recorded
abbrev pub id_of : Assessing → String
id_of a = clean_node_id a.fresh a.node_id

-- the event does not record the assessment of that identity again as one that is not required
abbrev pub keeps_required : {V : Type 0} → String → Event V → Bool
keeps_required id (assesses a) = a.required || not (id_of a == id)
keeps_required id _ = true

-- the document after an operation; one that raises has written nothing
abbrev pub saved : {V : Type 0} → Raises RunError (Run V) → Run V → Run V
saved (ok run') run = run'
saved (err e) run = run

abbrev pub saved_budget : {V : Type 0} → Raises RunError (Consumption V) → Run V → Run V
saved_budget (ok (consumed run')) run = run'
saved_budget (ok (rejected budget)) run = run
saved_budget (err e) run = run

module _ {V : Type 0} (legacy : String → RelationType → String → String) (canon : V → String)
    (redact : String → String) (resolve : List String → Option (List String)) where
  abbrev pub assess : Assessing → Run V → Raises RunError (Run V)
  assess a =
      record_assessment legacy canon redact resolve a.fresh a.kind a.statement a.node_id a.status
        a.authority a.analysis_summary a.evidence_refs a.relations a.required a.confidence
        a.requirements

  unfoldable pub perform : Event V → Run V → Run V
  perform (checks name status required) run =
      saved (record_check canon name status required run) run
  perform (claims raw) run = saved (record_claim canon raw run) run
  perform (assesses a) run = saved (assess a run) run
  perform (relates fresh_from fresh_to from type target id) run =
      saved (record_relation legacy canon fresh_from fresh_to from type target id run) run
  perform (consumes id action) run =
      saved_budget (consume_corrective_budget canon redact id action run) run
  perform (finishes requested_status risks) run =
      saved (finish_run canon requested_status risks run) run

  unfoldable pub run_events : List (Event V) → Run V → Run V
  run_events [] run = run
  run_events (event ∷ events) run = run_events events (perform event run)
