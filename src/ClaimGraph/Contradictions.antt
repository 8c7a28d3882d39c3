-- ===== src/ClaimGraph/Contradictions.antt =====
-- `contradictions` of .harness/claim_graph.py: verified claims that give one predicate two values, and
-- verified claims that negate one another.
pub mod Sound
use Prim.Native.String.{compare}
use mathlib.Core.List.{foldl, flat_map}
use text.Mathlib.Text.{is_le}
use awoki.Base.Groups.{group_by}
use awoki.Base.{
  ℕ, Bool, true, false, ◌&&◌, ◌||◌, ◌≡◌, ◌↔◌, String, Option, none, some, List, [], ◌∷◌, ◌++◌,
  length, filter, any, Eq, text_equality, ◌==◌, eq_iff, ltb, arith, if◌then◌else◌,
}
use awoki.Base.{ok, ◌>>=◌}
use awoki.ClaimGraph.{Claim, RawClaim, Result, is_verified, normalize_all}

pub data Conflict : Type 0 where
  value_conflict : String → String → String → List String → Conflict
  explicit_negation : String → String → Conflict

-- the key of `groups`
abbrev pub Key : Type 0
Key = String × String × String

abbrev pub key_of : {V : Type 0} → Claim V → Key
key_of c = (c.repo_id, c.subject, c.predicate)

abbrev same_key : Key → Key → Bool
same_key (a, b, c) (a', b', c') = a == a' && b == b' && c == c'

pub same_key_iff : (k l : Key) → (same_key k l ≡ true) ↔ (k ≡ l)
same_key_iff (a, b, c) (a', b', c') = (
  λ h. ground (arith, eq_iff a a', eq_iff b b', eq_iff c c'),
  λ h. ground (arith, eq_iff a a', eq_iff b b', eq_iff c c', h),
)

instance abbrev pub key_eq : Eq Key
key_eq = record { equals = same_key; agrees = same_key_iff }

-- `by_id.get(other_id)`: of two claims with one identity the later stands
unfoldable pub by_id : {V : Type 0} → String → List (Claim V) → Option (Claim V)
by_id id [] = none
by_id id (c ∷ cs) =
    let rest = by_id id cs in
    elim rest [ some d ↦ some d | none ↦ if c.claim_id == id then some c else none ]

abbrev pub is_verified_id : {V : Type 0} → List (Claim V) → String → Bool
is_verified_id cs id = elim (by_id id cs) [ none ↦ false | some c ↦ is_verified c.status ]

abbrev pub verified_of : {V : Type 0} → List (Claim V) → List (Claim V)
verified_of = filter (λ c. is_verified c.status)

-- `sorted([a, b])`
abbrev pub sorted_pair : String → String → Conflict
sorted_pair a b = if is_le (compare a b) then explicit_negation a b else explicit_negation b a

abbrev is_pair : Conflict → Conflict → Bool
is_pair (explicit_negation a b) (explicit_negation a' b') = a == a' && b == b'
is_pair _ _ = false

-- a pair is listed once
unfoldable pub add_pair : List Conflict → Conflict → List Conflict
add_pair conflicts pair = if any (is_pair pair) conflicts then conflicts else conflicts ++ pair ∷ []

module _ {V : Type 0} (canon : V → String) where
  -- `values`: the identities under each value's canonical text
  abbrev by_value : List (Claim V) → List (String × List (Claim V))
  by_value = group_by (λ c. canon c.value)

  abbrev ids_of : List (Claim V) → List String
  ids_of = mathlib.Core.List.map (λ c. c.claim_id)

  unfoldable pub group_conflicts : List (Key × List (Claim V)) → List Conflict
  group_conflicts [] = []
  group_conflicts ((key, rows) ∷ groups) =
      let values = by_value rows in
      let rest = group_conflicts groups in
      if ltb 1 (length values)
      then value_conflict key.0 key.1 key.2 (flat_map (λ group. ids_of group.1) values) ∷ rest
      else rest

-- the inner loop, over the identities that one claim negates
unfoldable pub add_negations :
    {V : Type 0} → List (Claim V) → String → List String → List Conflict → List Conflict
add_negations cs id [] conflicts = conflicts
add_negations cs id (other ∷ others) conflicts =
    add_negations cs id others
      (if is_verified_id cs other then add_pair conflicts (sorted_pair id other) else conflicts)

unfoldable pub add_all_negations :
    {V : Type 0} → List (Claim V) → List (Claim V) → List Conflict → List Conflict
add_all_negations cs [] conflicts = conflicts
add_all_negations cs (c ∷ rest) conflicts =
    add_all_negations cs rest (add_negations cs c.claim_id c.negates conflicts)

-- the conflicts of claims that are normalized
unfoldable pub conflicts_of : {V : Type 0} → (V → String) → List (Claim V) → List Conflict
conflicts_of canon cs =
    let verified = verified_of cs in
    add_all_negations cs verified (group_conflicts canon (group_by key_of verified))

unfoldable pub contradictions :
    {V : Type 0} → (V → String) → List (RawClaim V) → Result (List Conflict)
contradictions canon raws = do cs ← normalize_all raws; ok (conflicts_of canon cs)
