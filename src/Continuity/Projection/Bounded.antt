-- ===== src/Continuity/Projection/Bounded.antt =====
-- What is shown keeps to its bound, in whole lines.
use Prim.Native.String.{count as text_length, ◌++◌ as beside}
use awoki.Base.{
  ℕ, suc, ◌+◌, ◌<◌, ◌≡◌, String, List, [], ◌∷◌, ◌++◌, take, length, ltb, ◌⊎◌, if◌then◌else◌,
}
use awoki.Continuity.Projection.{Projection, omitted}

-- the characters of lines, each with its end
abbrev pub size : List String → ℕ
size [] = 0
size (line ∷ rest) = text_length line + 1 + size rest

-- the characters of the line that says that some are left out, kept free while lines follow
abbrev pub reserve : List String → ℕ → ℕ
reserve given shown = if ltb shown (length given) then text_length omitted + 1 else 0

-- all the lines; or a beginning of them with the mark, where with one line more, and the room for the mark
-- while other lines follow, the bound is exceeded
abbrev pub IsBeginning : (budget used : ℕ) → List String → List String → Type 0
IsBeginning budget used given output =
    (output ≡ given)
    ⊎ ((k : ℕ) × (k < length given)
        × (output ≡ take k given ++ omitted ∷ [])
        × (budget < used + size (take (suc k) given) + reserve given (suc k)))
