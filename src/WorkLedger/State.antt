-- ===== src/WorkLedger/State.antt =====
-- The document of a session's work (`_base`), as records.
use awoki.Base.{ℕ, Bool, false, String, Option, none, List, []}

pub data TodoStatus : Type 0 where
  pending in_progress completed cancelled : TodoStatus

pub data Priority : Type 0 where
  low medium high : Priority

pub record Todo : Type 0 where
  pub id : String
  pub source_id : String
  pub content : String
  pub status : TodoStatus
  pub priority : Priority
  pub redacted : Bool
  pub content_truncated : Bool
  pub record_refs : List String
  pub record_refs_omitted : ℕ

pub record Reference : Type 0 where
  pub project_id : String
  pub reference_id : String
  pub label : String
  pub why_saved : String
  pub touched_at : String
  pub user_turn_generation : ℕ

pub data Trigger : Type 0 where
  automatic_context_pressure explicit_request unknown : Trigger

pub record Work : Type 0 where
  pub schema : String
  pub session_key : String
  pub project_id : String
  pub todo_generation : ℕ
  pub next_todo_sequence : ℕ
  pub user_turn_generation : ℕ
  pub compaction_generation : ℕ
  -- `none` is the empty text
  pub pending_compaction_trigger : Option Trigger
  pub pending_compaction_trigger_source : String
  pub last_compaction_trigger : Trigger
  pub todos_need_review : Bool
  pub last_user_message_id : String
  pub last_compacted_at : String
  pub todos : List Todo
  pub todos_omitted : ℕ
  pub active_references : List Reference
  pub references_need_review : Bool
  pub updated_at : String

abbrev pub schema_name : String
schema_name = "awoki-session-work/v3"

-- `_base`, of the key that a session's name hashes to
abbrev pub base : String → String → Work
base key now = record {
  schema = schema_name;
  session_key = key;
  project_id = "";
  todo_generation = 0;
  next_todo_sequence = 1;
  user_turn_generation = 0;
  compaction_generation = 0;
  pending_compaction_trigger = none;
  pending_compaction_trigger_source = "";
  last_compaction_trigger = unknown;
  todos_need_review = false;
  last_user_message_id = "";
  last_compacted_at = "";
  todos = [];
  todos_omitted = 0;
  active_references = [];
  references_need_review = false;
  updated_at = now;
}

-- What `_read` finds: no file, a document that fails its validation (or cannot be read), or a document.
pub data Stored : Type 0 where
  absent corrupt : Stored
  present : Work → Stored
