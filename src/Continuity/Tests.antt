-- ===== src/Continuity/Tests.antt =====
-- A small journal, and a small projection.
use Prim.Native.String.{count as text_length, ◌++◌ as beside}
use awoki.Base.Int.{ℤ}
use awoki.Base.{
  false, ok, err, unique, one_of, lower, prefix, ◌↔◌, ◌≡◌, ◌⊎◌, refl, String, List, [], ◌∷◌, ◌++◌,
  text_equality,
}
use awoki.Continuity.Lineage.{closure, sorted_count, direction_lineage, cyclic_supersession}
use awoki.Continuity.Goal.{directions, goal_projection}
use awoki.Continuity.Goal.Selects.{IsPlain, goal_saved_iff}
use awoki.Continuity.Journal.{Note, active_records, appended, duplicate_skipped, append_record}
use awoki.Continuity.Journal.Appends.{IsDuplicate, append_record_cases, append_record_twice}
use awoki.Continuity.Projection.{
  Projection, saved, goal_projection_lines, fit, lines, render_goal_projection,
}

abbrev note : String → String → List String → Note
note id summary supersedes = record {
  id = id;
  kind = "observation";
  summary = summary;
  details = "";
  sources = [];
  uncertainty = [];
  likely_continuation = "";
  state = "";
  supersedes = supersedes;
  confidence = "medium";
  sensitivity = "project";
  index_policy = "safe";
  tags = [];
  based_on = [];
}

abbrev text_of : Note → String
text_of n = n.summary

abbrev journal : List Note
journal = note "a" "one" [] ∷ note "b" "two" [] ∷ note "c" "three" ("a" ∷ []) ∷ []

skips :
    append_record text_of 40 (note "d" "two" []) journal
    ≡ (duplicate_skipped (note "b" "two" []), journal)
unfolding append_record active_records
skips = refl

-- what it says was superseded, so that it can be said again
says_again :
    append_record text_of 40 (note "d" "one" []) journal
    ≡ (appended (note "d" "one" []), journal ++ note "d" "one" [] ∷ [])
unfolding append_record active_records
says_again = refl

append_record_cases_example :
    ((append_record text_of 40 (note "d" "two" []) journal
        ≡ (appended (note "d" "two" []), journal ++ note "d" "two" [] ∷ []))
      × ((r : Note) → IsDuplicate text_of 40 (note "d" "two" []) journal r → ⊥))
    ⊎ ((r : Note) × (append_record text_of 40 (note "d" "two" []) journal
          ≡ (duplicate_skipped r, journal))
        × IsDuplicate text_of 40 (note "d" "two" []) journal r)
append_record_cases_example = append_record_cases text_of 40 (note "d" "two" []) journal

append_record_twice_example :
    (append_record text_of 40
      (note "d" "one" [])
      (append_record text_of 40 (note "d" "one" []) journal).1).1
    ≡ (append_record text_of 40 (note "d" "one" []) journal).1
append_record_twice_example = append_record_twice text_of 40 (note "d" "one" []) journal refl

abbrev quote : String → String
quote s = beside "'" (beside s "'")

abbrev projection : Projection
projection = record {
  project_id = "demo";
  status = saved;
  directions =
      record {
        record_id = "d1";
        kind = "direction";
        summary = "Prove that the search ends and finds what fits.";
        summary_truncated = false;
        details_available = false;
      }
      ∷ [];
  checkpoints = [];
  unresolved_revisions = [];
  omitted_directions = 0;
  omitted_checkpoints = 0;
  omitted_revisions = 0;
}

leaves_out :
    render_goal_projection quote (ℤ.pos 0) projection
    ≡ "- Saved direction; reconcile with the newest user request before continuing.\n- More saved direction/checkpoint context omitted; recover exact notes through project_search before rebuilding TODOs."
unfolding render_goal_projection goal_projection_lines fit lines
leaves_out = refl

abbrev direction : String → List String → Note
direction id supersedes = record (note id "Prove it." supersedes) { kind = "direction" }

-- a direction, and its revision
abbrev revised : List Note
revised = direction "a" [] ∷ note "b" "seen" [] ∷ direction "c" ("a" ∷ []) ∷ []

abbrev shown : Projection
shown = record {
  project_id = "demo";
  status = saved;
  directions =
      record {
        record_id = "c";
        kind = "direction";
        summary = "Prove it.";
        summary_truncated = false;
        details_available = false;
      }
      ∷ [];
  checkpoints = [];
  unresolved_revisions = [];
  omitted_directions = 0;
  omitted_checkpoints = 0;
  omitted_revisions = 0;
}

projects : goal_projection (λ s. s) "demo" revised ≡ ok shown
unfolding goal_projection direction_lineage closure sorted_count active_records unique one_of lower
    prefix
projects = refl

cycle :
    direction_lineage (direction "a" ("b" ∷ []) ∷ direction "b" ("a" ∷ []) ∷ [])
    ≡ err cyclic_supersession
unfolding direction_lineage closure sorted_count unique
cycle = refl

goal_saved_iff_example :
    (saved ≡ saved) ↔ (((d : Note) × (directions revised ≡ d ∷ [])) × IsPlain revised)
goal_saved_iff_example = goal_saved_iff revised (λ s. s) "demo" shown projects
