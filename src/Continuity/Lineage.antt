-- ===== src/Continuity/Lineage.antt =====
-- `_direction_lineage`: the notes that descend from a direction by superseding.
pub mod Reached
pub mod Related
use awoki.Base.{
  ℕ, zero, suc, ◌+◌, ◌-◌, Bool, true, false, not, String, Option, none, some, List, [], ◌∷◌, ◌++◌,
  map, filter, contains, unique, length, text_equality, number_equality, ◌==◌, if◌then◌else◌,
  Raises, ok, err, raise_if, ◌>>=◌, ◌>>◌,
}
use awoki.Continuity.Journal.{Note}

-- each note with a note that it supersedes, which comes first
abbrev pub edges_of : String → List String → List (String × String)
edges_of id [] = []
edges_of id (previous ∷ rest) = (previous, id) ∷ edges_of id rest

abbrev pub edges : List Note → List (String × String)
edges [] = []
edges (n ∷ notes) = edges_of n.id n.supersedes ++ edges notes

-- `successors.get(ref, ())`
abbrev pub successors : List (String × String) → String → List String
successors es ref = unique (map (λ (e : String × String). e.1) (filter (λ e. e.0 == ref) es))

abbrev pub start : List Note → List String
start notes = map (λ (n : Note). n.id) (filter (λ n. n.kind == "direction") notes)

-- the first loop: a note is taken from `pending`
abbrev pub visit :
    List (String × String) → String → (related pending : List String) → List String × List String
visit es ref related pending =
    if contains related ref
    then (related, pending)
    else (ref ∷ related, successors es ref ++ pending)

unfoldable pub closure :
    List (String × String) → (rounds : ℕ) → (related pending : List String) → List String
closure es zero related pending = related
closure es (suc rounds) related [] = related
closure es (suc rounds) related (ref ∷ pending) =
    let next = visit es ref related pending in closure es rounds next.0 next.1

-- enough rounds: each takes one note, and each superseding adds one at most
abbrev pub related_of : List Note → List String
related_of notes =
    closure (edges notes) (length (start notes) + length (edges notes)) [] (start notes)

-- `incoming`, for the notes that are related
abbrev incoming_of : List (String × String) → List String → String → ℕ
incoming_of es related ref =
    length (filter (λ previous. contains (successors es previous) ref) related)

abbrev incoming : List (String × String) → List String → List (String × ℕ)
incoming es related = map (λ (ref : String). (ref, incoming_of es related ref)) related

-- one note less before a successor; the notes that none is before are taken next
abbrev lower_one : String → List (String × ℕ) → List (String × ℕ)
lower_one ref [] = []
lower_one ref ((r, n) ∷ counts) =
    let rest = lower_one ref counts in if r == ref then (r, n - 1) ∷ counts else (r, n) ∷ rest

abbrev is_free : String → List (String × ℕ) → Bool
is_free ref [] = false
is_free ref ((r, n) ∷ counts) = let rest = is_free ref counts in if r == ref then n == 0 else rest

abbrev lower_all :
    List String → List (String × ℕ) → (pending : List String) → List (String × ℕ) × List String
lower_all [] counts pending = (counts, pending)
lower_all (ref ∷ refs) counts pending =
    let lowered = lower_one ref counts in
    lower_all refs lowered (if is_free ref lowered then ref ∷ pending else pending)

-- the second loop: how many notes are taken; each is taken at most once
unfoldable pub sorted_count :
    List (String × String) → (rounds : ℕ) → List (String × ℕ) → (pending : List String) → ℕ
sorted_count es zero counts pending = 0
sorted_count es (suc rounds) counts [] = 0
sorted_count es (suc rounds) counts (ref ∷ pending) =
    let next = lower_all (successors es ref) counts pending in
    suc (sorted_count es rounds next.0 next.1)

pub data LineageError : Type 0 where
  cyclic_supersession : LineageError

abbrev free : List (String × ℕ) → List String
free counts = map (λ (c : String × ℕ). c.0) (filter (λ c. c.1 == 0) counts)

unfoldable pub direction_lineage : List Note → Raises LineageError (List String)
direction_lineage notes = do
  let related = related_of notes
  let counts = incoming (edges notes) related
  raise_if
      (not (sorted_count (edges notes) (length related) counts (free counts) == length related))
      cyclic_supersession
  ok related
