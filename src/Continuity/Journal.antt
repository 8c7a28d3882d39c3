-- ===== src/Continuity/Journal.antt =====
-- `active_records` and `append_record`: the journal only grows, and a note that is there already is not
-- written again. `fingerprint` is `continuity_fingerprint`, the hash of the text of a note; the one that
-- is stored with a note is never read, since it is computed anew.
pub mod Appends
use Prim.Native.Nat.{max}
use awoki.Base.{
  ℕ, Bool, true, false, not, ◌&&◌, String, Option, none, some, List, [], ◌∷◌, ◌++◌, map, filter,
  contains, take_last, nonempty, text_equality, ◌==◌, if◌then◌else◌,
}

pub record Note : Type 0 where
  pub id : String
  pub kind : String
  pub summary : String
  pub details : String
  pub sources : List String
  pub uncertainty : List String
  pub likely_continuation : String
  pub state : String
  pub supersedes : List String
  pub confidence : String
  pub sensitivity : String
  pub index_policy : String
  pub tags : List String
  pub based_on : List String

-- the identities that notes supersede
abbrev pub superseded : List Note → List String
superseded [] = []
superseded (n ∷ notes) = filter nonempty n.supersedes ++ superseded notes

unfoldable pub active_records : List Note → List Note
active_records notes = filter (λ n. not (contains (superseded notes) n.id)) notes

abbrev pub active_ids : List Note → List String
active_ids notes = map (λ (n : Note). n.id) (active_records notes)

-- `next((r for r in reversed(...) if ...), None)`
abbrev pub last_where : (Note → Bool) → List Note → Option Note
last_where p [] = none
last_where p (n ∷ notes) = elim (last_where p notes) [
  | none ↦ if p n then some n else none
  | some later ↦ some later
]

pub data Written : Type 0 where
  appended duplicate_skipped : Note → Written

abbrev pub recent : ℕ → List Note → List Note
recent dedupe_recent notes = take_last (max 1 dedupe_recent) notes

abbrev pub is_duplicate : (Note → String) → Note → List Note → Note → Bool
is_duplicate fingerprint item notes r =
    contains (active_ids notes) r.id && fingerprint r == fingerprint item

abbrev pub written_or : Note → List Note → Option Note → Written × List Note
written_or item journal (some duplicate) = (duplicate_skipped duplicate, journal)
written_or item journal none = (appended item, journal ++ item ∷ [])

unfoldable pub append_record :
    (fingerprint : Note → String)
    → (dedupe_recent : ℕ) → (item : Note) → (journal : List Note) → Written × List Note
append_record fingerprint dedupe_recent item journal =
    written_or item journal
      (last_where (is_duplicate fingerprint item journal) (recent dedupe_recent journal))
