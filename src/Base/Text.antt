-- ===== src/Base/Text.antt =====
-- Python's `str` as the native text: a sequence of Unicode scalar values. `strip` removes the
-- characters for which `str.isspace` holds; `lower` maps the ASCII capitals and the two other
-- characters whose lower case begins with an ASCII letter, `upper` the ASCII small letters and the
-- characters whose upper case is ASCII; both leave all else alone.
use Prim.Native.Nat.{ℕ, zero, suc, ◌+◌, ◌-◌, ◌≤◌, ◌<◌, compare, Ordering}
use Prim.Native.Char.{Char, char, code, nul, IsScalar}
use Prim.Native.String.{String, [], ◌∷◌, count}
use Prim.Native.String.count as Count
use mathlib.Core.Path.{◌≡◌, refl, ap}
use mathlib.Core.Bool.{Bool, true, false, ◌&&◌, ◌||◌}
use mathlib.Core.List.{List}
use mathlib.Core.Logic.{dite, inl, inr}
use native.Mathlib.Decide.{dec_le}
use native.Mathlib.Omega.{arith}
use awoki.Base.Tests.{number_equality, text_equality, leb, ◌==◌, if◌then◌else◌, Bool-cases}

-- `bool(s)`
abbrev pub nonempty : String → Bool
nonempty [] = false
nonempty (c ∷ s) = true

-- `str.isspace` of one character
unfoldable pub is_space : Char → Bool
is_space c =
    let n = code c in
    (leb 9 n && leb n 13)
    || (leb 28 n && leb n 32)
    || (n == 0x85)
    || (n == 0xa0)
    || (n == 0x1680)
    || (leb 0x2000 n && leb n 0x200a)
    || (n == 0x2028)
    || (n == 0x2029)
    || (n == 0x202f)
    || (n == 0x205f)
    || (n == 0x3000)

unfoldable pub lstrip : String → String
lstrip [] = []
lstrip (c ∷ s) = let rest = lstrip s in if is_space c then rest else c ∷ s

-- what is left of a text behind which stand only spaces
unfoldable pub rstrip : String → String
rstrip [] = []
rstrip (c ∷ s) =
    let rest = rstrip s in if nonempty rest then c ∷ rest else if is_space c then [] else c ∷ []

-- `s.strip()`
unfoldable pub strip : String → String
unfolding lstrip rstrip
strip s = rstrip (lstrip s)

pub IsScalar-below : (n : ℕ) → n < 55296 → IsScalar n
IsScalar-below n h = let below : compare n 55296 ≡ Ordering.lt = ground arith in rw below tt

-- `chr(n + 32)` of an ASCII capital
to_small : (n : ℕ) → Char
to_small n =
    dite (dec_le n 90) (λ h. char (n + 32) (IsScalar-below (n + 32) (omega arith))) (λ _. nul)

lower_char : Char → String
unfolding to_small dec_le
lower_char c =
    let n = code c in
    if leb 65 n && leb n 90
    then to_small n ∷ []
    else if n == 0x212a
    then "k"
    else if n == 0x130
    then char 105 tt ∷ char 0x307 tt ∷ []
    else c ∷ []

-- `s.lower()`
unfoldable pub lower : String → String
unfolding lower_char
lower [] = []
lower (c ∷ s) = Prim.Native.String.◌++◌ (lower_char c) (lower s)

-- `chr(n - 32)` of an ASCII small letter
to_capital : (n : ℕ) → Char
to_capital n =
    dite (dec_le n 122) (λ h. char (n - 32) (IsScalar-below (n - 32) (omega arith))) (λ _. nul)

upper_char : Char → String
unfolding to_capital dec_le
upper_char c =
    let n = code c in
    if leb 97 n && leb n 122
    then to_capital n ∷ []
    else if n == 0xdf
    then "SS"
    else if n == 0x131
    then "I"
    else if n == 0x17f
    then "S"
    else if n == 0xfb00
    then "FF"
    else if n == 0xfb01
    then "FI"
    else if n == 0xfb02
    then "FL"
    else if n == 0xfb03
    then "FFI"
    else if n == 0xfb04
    then "FFL"
    else if n == 0xfb05 || n == 0xfb06
    then "ST"
    else c ∷ []

-- `s.upper()`
unfoldable pub upper : String → String
unfolding upper_char
upper [] = []
upper (c ∷ s) = Prim.Native.String.◌++◌ (upper_char c) (upper s)

-- `s[:n]`
unfoldable pub prefix : ℕ → String → String
prefix zero s = []
prefix (suc n) [] = []
prefix (suc n) (c ∷ s) = c ∷ prefix n s

-- `s in {...}`
unfoldable pub one_of : String → List String → Bool
one_of s List.[] = false
one_of s (List.◌∷◌ t ts) = s == t || one_of s ts

-- A text within the bound is kept whole.
pub prefix_of_short : (n : ℕ) (s : String) → count s ≤ n → prefix n s ≡ s
unfolding prefix
prefix_of_short zero [] h = refl
prefix_of_short zero (c ∷ s) h = absurd (omega (arith, Count.cons c s))
prefix_of_short (suc n) [] h = refl
prefix_of_short (suc n) (c ∷ s) h =
    ap (λ t. c ∷ t) (prefix_of_short n s (omega (arith, Count.cons c s)))

pub count-prefix-le : (n : ℕ) (s : String) → count (prefix n s) ≤ n
unfolding prefix
count-prefix-le zero s = omega (arith, Count.nil)
count-prefix-le (suc n) [] = omega (arith, Count.nil)
count-prefix-le (suc n) (c ∷ s) = omega (arith, Count.cons c (prefix n s), count-prefix-le n s)

pub nonempty-prefix : (n : ℕ) (s : String) → nonempty (prefix (suc n) s) ≡ nonempty s
unfolding prefix
nonempty-prefix n [] = refl
nonempty-prefix n (c ∷ s) = refl

-- Clipping twice to one bound is clipping once.
pub prefix-prefix : (n : ℕ) (s : String) → prefix n (prefix n s) ≡ prefix n s
prefix-prefix n s = prefix_of_short n (prefix n s) (count-prefix-le n s)

rstrip-rstrip : (s : String) → rstrip (rstrip s) ≡ rstrip s
unfolding rstrip
rstrip-rstrip [] = refl
rstrip-rstrip (c ∷ s) = elim (Bool-cases (nonempty (rstrip s))) [
  | inl more ↦ rw more (rw (rstrip-rstrip s, more))
  | inr last ↦
      rw last
        (elim (Bool-cases (is_space c)) [ inl space ↦ rw space | inr solid ↦ rw solid (rw solid) ])
]

-- a text that is empty or begins with what is no space
abbrev Begins : String → Type 0
Begins [] = Unit
Begins (c ∷ s) = is_space c ≡ false

lstrip-Begins : (s : String) → Begins (lstrip s)
unfolding lstrip
lstrip-Begins [] = tt
lstrip-Begins (c ∷ s) = elim (Bool-cases (is_space c)) [
  | inl space ↦ rw space (lstrip-Begins s)
  | inr solid ↦ rw solid solid
]

lstrip_of_Begins : (s : String) → Begins s → lstrip s ≡ s
unfolding lstrip
lstrip_of_Begins [] h = refl
lstrip_of_Begins (c ∷ s) h = rw h

rstrip-Begins : (s : String) → Begins s → Begins (rstrip s)
unfolding rstrip
rstrip-Begins [] h = tt
rstrip-Begins (c ∷ s) h = elim (Bool-cases (nonempty (rstrip s))) [
  | inl more ↦ rw more h
  | inr last ↦ rw last (rw h h)
]

-- Stripping twice is stripping once.
pub strip-strip : (s : String) → strip (strip s) ≡ strip s
unfolding strip
strip-strip s =
    rw (lstrip_of_Begins (rstrip (lstrip s)) (rstrip-Begins (lstrip s) (lstrip-Begins s)))
      (rstrip-rstrip (lstrip s))

strip-lower_test : lower (strip "  Tool-CALLS\n ") ≡ "tool-calls"
unfolding strip lower is_space
strip-lower_test = refl
