-- ===== src/Base/Slugs.antt =====
-- Texts cleaned to a class of characters, as `re.sub(r"[^...]+", "-", s).strip(...)` does.
use Prim.Native.Char.{Char, code}
use Prim.Native.String.{String, [], ◌∷◌}
use mathlib.Core.Bool.{Bool, true, false, ◌&&◌, ◌||◌}
use awoki.Base.Tests.{leb, number_equality, ◌==◌, if◌then◌else◌}
use awoki.Base.Text.{nonempty}

-- an ASCII letter or digit
unfoldable pub is_alnum : Char → Bool
is_alnum c =
    let n = code c in (leb 48 n && leb n 57) || (leb 65 n && leb n 90) || (leb 97 n && leb n 122)

-- `. _ -`
unfoldable pub is_mark : Char → Bool
is_mark c = let n = code c in n == 46 || n == 95 || n == 45

-- `. _ : -`
unfoldable pub is_mark_or_colon : Char → Bool
unfolding is_mark
is_mark_or_colon c = is_mark c || code c == 58

-- `re.sub(r"[^...]+", "-", s)`: each run of characters outside the class becomes one dash; the flag
-- says that the character before belongs to such a run
unfoldable pub dash_runs : (Char → Bool) → Bool → String → String
dash_runs keeps inside [] = []
dash_runs keeps inside (c ∷ s) =
    let kept = c ∷ dash_runs keeps false s in
    let replaced = dash_runs keeps true s in
    if keeps c then kept else if inside then replaced else "-" ∷ replaced

-- `s.strip(chars)`
unfoldable pub strip_left : (Char → Bool) → String → String
strip_left drops [] = []
strip_left drops (c ∷ s) = let rest = strip_left drops s in if drops c then rest else c ∷ s

unfoldable pub strip_right : (Char → Bool) → String → String
strip_right drops [] = []
strip_right drops (c ∷ s) =
    let rest = strip_right drops s in
    if nonempty rest then c ∷ rest else if drops c then [] else c ∷ []

unfoldable pub strip_chars : (Char → Bool) → String → String
unfolding strip_left strip_right
strip_chars drops s = strip_right drops (strip_left drops s)
