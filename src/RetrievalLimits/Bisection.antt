-- ===== src/RetrievalLimits/Bisection.antt =====
-- The search of `fit_rerank_documents` for the longest part of a document that fits.
pub mod Ends
use awoki.Base.{ℕ, zero, suc, ◌+◌, ◌-◌, ◌/◌, Bool, true, false, ltb, if◌then◌else◌}

-- the body of the loop
abbrev pub halved : (ℕ → Bool) → (low high : ℕ) → ℕ × ℕ
halved fits low high =
    let middle = (low + high + 1) / 2 in if fits middle then (middle, high) else (low, middle - 1)

-- `while low < high`, at most a number of rounds
unfoldable pub bisect : (fits : ℕ → Bool) → (rounds low high : ℕ) → ℕ × ℕ
bisect fits zero low high = (low, high)
bisect fits (suc rounds) low high =
    let next = halved fits low high in
    let rest = bisect fits rounds next.0 next.1 in if ltb low high then rest else (low, high)
