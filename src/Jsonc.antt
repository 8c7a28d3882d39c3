-- ===== src/Jsonc.antt =====
-- `strip_jsonc` of .harness/jsonc.py: comments and trailing commas become blanks.
pub mod Blanks
use Prim.Native.Char.{Char, code}
use Prim.Native.String.{[], ◌∷◌}
use awoki.Base.{
  ℕ, Bool, true, false, not, ◌&&◌, ◌||◌, String, Option, none, some, number_equality, ◌==◌,
  is_space, if◌then◌else◌,
}

-- where the scan stands: in plain text, in a string literal, behind its backslash, before the second
-- character of `//`, in a line comment, before the second character of `/*`, in a block comment, and
-- before the second character of `*/`
pub data Place : Type 0 where
  plain quoted escaped line_opening line block_opening block block_closing : Place

abbrev pub is_char : ℕ → Char → Bool
is_char n c = code c == n

-- the next character is the one with that code
abbrev next_is : ℕ → String → Bool
next_is n [] = false
next_is n (c ∷ s) = is_char n c

-- `\r` or `\n`
abbrev pub is_newline : Char → Bool
is_newline c = is_char 13 c || is_char 10 c

-- a place within a string literal, after its next character
abbrev in_literal : Bool → Char → Place
in_literal was_escaped c =
    if was_escaped
    then quoted
    else if is_char 92 c
    then escaped
    else if is_char 34 c
    then plain
    else quoted

-- the place after a character, given what stands behind it
unfoldable pub advance : Place → Char → String → Place
advance plain c s =
    if is_char 34 c
    then quoted
    else if is_char 47 c && next_is 47 s
    then line_opening
    else if is_char 47 c && next_is 42 s
    then block_opening
    else plain
advance quoted c s = in_literal false c
advance escaped c s = in_literal true c
advance line_opening c s = line
advance line c s = if is_newline c then plain else line
advance block_opening c s = block
advance block c s = if is_char 42 c && next_is 47 s then block_closing else block
advance block_closing c s = plain

-- whether the character that leads from one place to another belongs to a comment
abbrev is_comment : Place → Place → Bool
is_comment plain line_opening = true
is_comment plain block_opening = true
is_comment line_opening _ = true
is_comment line plain = false
is_comment line _ = true
is_comment block_opening _ = true
is_comment block _ = true
is_comment block_closing _ = true
is_comment _ _ = false

abbrev blank : Bool → Char → Char
blank drops c = if drops && not (is_newline c) then " " else c

-- the first loop; `none` is "unterminated JSONC block comment"
unfoldable pub strip_comments : Place → String → Option String
strip_comments block [] = none
strip_comments block_opening [] = none
strip_comments place [] = some []
strip_comments place (c ∷ s) =
    let next = advance place c s in
    let rest = strip_comments next s in
    elim rest [ none ↦ none | some t ↦ some (blank (is_comment place next) c ∷ t) ]

-- the first character behind the blanks is `}` or `]`
unfoldable pub closes : String → Bool
closes [] = false
closes (c ∷ s) = let rest = closes s in if is_space c then rest else is_char 125 c || is_char 93 c

-- the second loop, of the text without comments; `place` is plain, quoted or escaped
unfoldable pub strip_commas : Place → String → String
strip_commas place [] = []
strip_commas plain (c ∷ s) =
    let literal = c ∷ strip_commas quoted s in
    let dropped = " " ∷ strip_commas plain s in
    let kept = c ∷ strip_commas plain s in
    if is_char 34 c then literal else if is_char 44 c && closes s then dropped else kept
strip_commas escaped (c ∷ s) = c ∷ strip_commas (in_literal true c) s
strip_commas place (c ∷ s) = c ∷ strip_commas (in_literal false c) s

unfoldable pub strip_jsonc : String → Option String
strip_jsonc text = elim (strip_comments plain text) [
  | none ↦ none
  | some t ↦ some (strip_commas plain t)
]
