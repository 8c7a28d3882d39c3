-- ===== src/Continuity/Goal.antt =====
-- `goal_projection`: what is saved of a project's direction. `redact` is `safety.redact_analysis_text`.
pub mod Selects
use Prim.Native.String.{count as text_length}
use awoki.Base.{
  ℕ, ◌-◌, Bool, true, false, not, ◌&&◌, ◌||◌, String, Option, none, some, List, [], ◌∷◌, ◌++◌, map,
  filter, any, take, contains, length, is_nonempty, nonempty, lower, prefix, one_of, ltb,
  text_equality, ◌==◌, if◌then◌else◌, Raises, ok, err, ◌>>=◌,
}
use awoki.Continuity.Journal.{Note, active_records}
use awoki.Continuity.Lineage.{LineageError, direction_lineage}
use awoki.Continuity.Projection.{Status, unsaved, saved, ambiguous, unknown, Preview, Projection}

abbrev closed_states : List String
closed_states =
    "done" ∷ "complete" ∷ "completed" ∷ "closed" ∷ "resolved" ∷ "superseded" ∷ "retired"
    ∷ "cancelled" ∷ "canceled" ∷ []

abbrev pub open_rows : List Note → List Note
open_rows notes = filter (λ n. not (one_of (lower n.state) closed_states)) (active_records notes)

abbrev or_default : String → String → String
or_default default s = if nonempty s then s else default

-- `_view_safe`
abbrev pub is_view_safe : Note → Bool
is_view_safe n =
    not (lower (or_default "safe" n.index_policy) == "no_rag")
    && not (one_of (lower (or_default "project" n.sensitivity)) ("sensitive" ∷ "secret" ∷ []))

abbrev pub safe_rows : List Note → List Note
safe_rows notes = filter is_view_safe (open_rows notes)

abbrev pub directions : List Note → List Note
directions notes = filter (λ n. n.kind == "direction") (safe_rows notes)

abbrev pub changed_kind : List String → List Note → List Note
changed_kind lineage notes =
    filter (λ n. contains lineage n.id && not (n.kind == "direction")) (safe_rows notes)

abbrev checkpoints : List Note → List Note
checkpoints notes =
    filter
      (λ n.
        n.kind == "checkpoint"
        || lower n.state == "checkpoint"
        || contains n.tags "investigation-checkpoint")
      (safe_rows notes)

-- `hidden_direction`
abbrev pub is_hidden : List String → List Note → Bool
is_hidden lineage notes =
    any (λ (n : Note). contains lineage n.id && not (is_view_safe n)) (open_rows notes)

abbrev pub status_of : List String → List Note → Status
status_of lineage notes =
    if is_hidden lineage notes
    then unknown
    else if ltb 1 (length (directions notes)) || is_nonempty (changed_kind lineage notes)
    then ambiguous
    else if is_nonempty (directions notes)
    then saved
    else unsaved

abbrev reversed : List Note → List Note
reversed [] = []
reversed (n ∷ notes) = reversed notes ++ n ∷ []

abbrev preview : (redact : String → String) → Note → Preview
preview redact n =
    let summary = redact n.summary in
    record {
      record_id = n.id;
      kind = n.kind;
      summary = prefix 240 summary;
      summary_truncated = ltb 240 (text_length summary);
      details_available =
          nonempty n.details || is_nonempty n.uncertainty || nonempty n.likely_continuation;
    }

abbrev pub projection_of :
    (redact : String → String) → (project_id : String) → List Note → List String → Projection
projection_of redact project_id notes lineage = record {
  project_id = project_id;
  status = status_of lineage notes;
  directions = map (preview redact) (take 3 (reversed (directions notes)));
  checkpoints = map (preview redact) (take 2 (reversed (checkpoints notes)));
  unresolved_revisions = map (preview redact) (take 2 (reversed (changed_kind lineage notes)));
  omitted_directions = length (directions notes) - 3;
  omitted_checkpoints = length (checkpoints notes) - 2;
  omitted_revisions = length (changed_kind lineage notes) - 2;
}

unfoldable pub goal_projection :
    (redact : String → String) → (project_id : String) → List Note → Raises LineageError Projection
goal_projection redact project_id notes = do
  lineage ← direction_lineage notes
  ok (projection_of redact project_id notes lineage)
