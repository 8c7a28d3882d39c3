-- ===== src/Continuity/Projection.antt =====
-- `goal_projection_lines` and `render_goal_projection`: the saved direction of a project in a few lines.
-- `quote` is `json.dumps` of a text.
pub mod Bounded
use Prim.Native.Nat.{max}
use Prim.Native.String.{count as text_length, ◌++◌ as beside}
use awoki.Base.Int.{ℤ, pos_part}
use awoki.Base.{
  ℕ, zero, suc, ◌+◌, Bool, true, false, ◌||◌, String, Option, none, some, List, [], ◌∷◌, ◌++◌, map,
  is_nonempty, ltb, if◌then◌else◌,
}

pub data Status : Type 0 where
  unsaved saved ambiguous unknown : Status

pub record Preview : Type 0 where
  pub record_id : String
  pub kind : String
  pub summary : String
  pub summary_truncated : Bool
  pub details_available : Bool

-- what `goal_projection` says, less the calls that it suggests; of each kind of notes it counts those that
-- are left out
pub record Projection : Type 0 where
  pub project_id : String
  pub status : Status
  pub directions : List Preview
  pub checkpoints : List Preview
  pub unresolved_revisions : List Preview
  pub omitted_directions : ℕ
  pub omitted_checkpoints : ℕ
  pub omitted_revisions : ℕ

-- the texts, one behind another
abbrev joined : List String → String
joined [] = ""
joined (s ∷ texts) = beside s (joined texts)

abbrev message : Status → String
message unsaved = "- No active safe direction is saved; exploration needs no invented goal."
message saved = "- Saved direction; reconcile with the newest user request before continuing."
message ambiguous = "- Direction needs reconciliation; no single goal is selected."
message unknown = "- Direction recovery is incomplete; do not treat this as no goal."

abbrev is_positive : ℕ → Bool
is_positive n = ltb 0 n

abbrev pub line_of : (quote : String → String) → Preview → String
line_of quote row = joined ("- [" ∷ row.record_id ∷ "] " ∷ row.kind ∷ ": " ∷ quote row.summary ∷ [])

abbrev pub details_line : (quote : String → String) → Projection → String
details_line quote p = joined (
    "- Read exact details with project_search(name="
    ∷ quote p.project_id
    ∷ ", record_ids=[up to 3 IDs above per call]); details and caveats are not reproduced here."
    ∷ [])

unfoldable pub goal_projection_lines : (quote : String → String) → Projection → List String
goal_projection_lines quote p =
    let rows = p.directions ++ p.checkpoints ++ p.unresolved_revisions in
    (message p.status ∷ map (line_of quote) rows)
    ++ (if is_nonempty rows then details_line quote p ∷ [] else [])
    ++ (if is_positive p.omitted_directions
          || is_positive p.omitted_checkpoints
          || is_positive p.omitted_revisions
        then "- Additional direction/checkpoint candidates omitted; use targeted project_search before choosing a goal."
          ∷ []
        else [])

abbrev pub omitted : String
omitted =
    "- More saved direction/checkpoint context omitted; recover exact notes through project_search before rebuilding TODOs."

-- the loop, with the characters that are used
unfoldable pub fit : (budget used : ℕ) → List String → List String
fit budget used [] = []
fit budget used (line ∷ rest) =
    let reserve = if is_nonempty rest then text_length omitted + 1 else 0 in
    let behind = used + text_length line + 1 in
    let later = fit budget behind rest in
    if ltb budget (behind + reserve) then omitted ∷ [] else line ∷ later

-- `"\n".join(...)`
unfoldable pub lines : List String → String
lines [] = ""
lines (line ∷ []) = line
lines (line ∷ next ∷ rest) = beside line (beside "\n" (lines (next ∷ rest)))

unfoldable pub render_goal_projection :
    (quote : String → String) → (max_chars : ℤ) → Projection → String
render_goal_projection quote max_chars p =
    lines (fit (max 256 (pos_part max_chars)) 0 (goal_projection_lines quote p))
