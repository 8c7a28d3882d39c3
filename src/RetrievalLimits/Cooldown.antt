-- ===== src/RetrievalLimits/Cooldown.antt =====
-- The failures of a provider, and for how long it is left alone: `error_metadata`, `note_rate_limit` and
-- `check_cooldown`. Times are numbers of microseconds; the table of deadlines is in the order in which its
-- keys were added.
pub mod Deadlines
pub mod Ends
mod Tests
use Prim.Native.Nat.{max, min}
use awoki.Base.Int.{ℤ, pos_part}
use awoki.Base.{
  ℕ, ◌+◌, ◌-◌, ◌/◌, Bool, true, false, not, ◌&&◌, ◌||◌, String, Option, none, some, List, [], ◌∷◌,
  length, filter, get_or, is_some, leb, ltb, Eq, number_equality, text_equality, ◌==◌,
  if◌then◌else◌,
}

pub data Category : Type 0 where
  rate_limited input_budget_exceeded input_rejected provider_unavailable provider_error : Category

-- the class of an exception, as far as it is asked for
pub data Kind : Type 0 where
  cooling_down input_budget other : Kind

-- What is read of an exception: its class, the status on it and on its response, the seconds after which
-- to try again that it holds, and the header "retry-after" as a time, `none` where it is no finite number.
pub record Failure : Type 0 where
  pub kind : Kind
  pub status_code : Option ℕ
  pub response_status : Option ℕ
  pub retry_after_seconds : Option ℕ
  pub header : Option ℤ

abbrev is_cooling : Kind → Bool
is_cooling cooling_down = true
is_cooling _ = false

abbrev is_input_budget : Kind → Bool
is_input_budget input_budget = true
is_input_budget _ = false

abbrev pub status_of : Failure → Option ℕ
status_of f = elim f.status_code [ none ↦ f.response_status | some n ↦ some n ]

abbrev has_status : ℕ → Option ℕ → Bool
has_status n none = false
has_status n (some m) = m == n

unfoldable pub category_of : Failure → Category
category_of f =
    let status = status_of f in
    if has_status 429 status || is_cooling f.kind
    then rate_limited
    else if is_input_budget f.kind
    then input_budget_exceeded
    else if has_status 400 status || has_status 413 status || has_status 422 status
    then input_rejected
    else if leb 500 (get_or 0 status)
    then provider_unavailable
    else provider_error

abbrev pub is_rate_limited : Category → Bool
is_rate_limited rate_limited = true
is_rate_limited _ = false

abbrev pub is_retryable : Category → Bool
is_retryable rate_limited = true
is_retryable provider_unavailable = true
is_retryable _ = false

pub record Metadata : Type 0 where
  pub failure_category : Category
  pub retryable : Bool
  pub retry_after_seconds : Option ℕ

abbrev pub error_metadata : Failure → Metadata
error_metadata f = record {
  failure_category = category_of f;
  retryable = is_retryable (category_of f);
  retry_after_seconds = f.retry_after_seconds;
}

abbrev pub Table : Type 0
Table = List (String × ℕ)

-- `_COOLDOWNS.get(key, 0)`
unfoldable pub deadline_of : String → Table → ℕ
deadline_of key [] = 0
deadline_of key ((k, t) ∷ table) = let rest = deadline_of key table in if k == key then t else rest

-- `_COOLDOWNS[key] = deadline`
unfoldable pub put : String → ℕ → Table → Table
put key deadline [] = (key, deadline) ∷ []
put key deadline ((k, t) ∷ table) =
    let rest = put key deadline table in if k == key then (k, deadline) ∷ table else (k, t) ∷ rest

-- `min(_COOLDOWNS, key=_COOLDOWNS.get)`: the first of the entries with the least deadline, behind one
unfoldable pub soonest : String × ℕ → Table → String × ℕ
soonest best [] = best
soonest best (entry ∷ table) = soonest (if ltb entry.1 best.1 then entry else best) table

-- the table without its first soonest deadline, if it is full
abbrev pub evicted : Table → Table
evicted [] = []
evicted (entry ∷ table) =
    let gone = (soonest entry table).0 in
    if leb 128 (length (entry ∷ table))
    then filter (λ e. not (e.0 == gone)) (entry ∷ table)
    else entry ∷ table

-- the time after which to try again, between a second and a minute
abbrev pub pause_of : Failure → ℕ
pause_of f = max 1000000 (min (elim f.header [ none ↦ 5000000 | some n ↦ pos_part n ]) 60000000)

-- `math.ceil` of a time, in seconds
abbrev pub ceil : ℕ → ℕ
ceil t = (t + 999999) / 1000000

-- the failure counts against its provider
abbrev pub is_noted : Failure → Bool
is_noted f = is_rate_limited (category_of f) && not (is_cooling f.kind)

-- the table after a failure of a provider at a time
unfoldable pub note_rate_limit : (now : ℕ) → (key : String) → Failure → Table → Failure × Table
note_rate_limit now key f table =
    let kept = evicted (filter (λ e. ltb now e.1) table) in
    if not (is_noted f) then (f, table) else (
      record f { retry_after_seconds = some (ceil (pause_of f)) },
      put key (max (deadline_of key kept) (now + pause_of f)) kept,
    )

-- the seconds after which to try again, where the provider is left alone
unfoldable pub check_cooldown : (now : ℕ) → (key : String) → Table → Option ℕ
check_cooldown now key table =
    let remaining = deadline_of key table - now in
    if ltb 0 remaining then some (max 1 (ceil remaining)) else none
