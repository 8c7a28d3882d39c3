-- ===== src/Base/Decimal.antt =====
-- `f"{n:06d}"`: a number in decimal, padded to six digits.
pub mod Solid
use Prim.Native.Nat.{ℕ, zero, suc, ◌+◌, ◌-◌, ◌*◌, ◌/◌, ◌%◌, ◌<◌}
use Prim.Native.Char.{Char, char, code}
use Prim.Native.String.{String}
use mathlib.Core.Path.{◌≡◌, refl, ap, sym, ◌∙◌}
use mathlib.Core.List.{List, [], ◌∷◌, map, reverse, reverse-reverse}
use native.Mathlib.Omega.{arith}
use awoki.Base.Tests.{number_equality, ◌==◌, if◌then◌else◌}
use awoki.Base.Text.{IsScalar-below}

-- the digits of a number, the least first; `fuel` is above the number
digits : ℕ → ℕ → List ℕ
digits zero n = []
digits (suc fuel) n =
    let rest = digits fuel (n / 10) in if n / 10 == 0 then (n % 10) ∷ [] else (n % 10) ∷ rest

-- zeros up to a width, behind the digits
pad : ℕ → List ℕ → List ℕ
pad zero ds = ds
pad (suc w) [] = 0 ∷ pad w []
pad (suc w) (d ∷ ds) = d ∷ pad w ds

-- the character of `d % 10`
digit : ℕ → Char
digit d = char (48 + d % 10) (IsScalar-below (48 + d % 10) (omega arith))

text_of : List Char → String
text_of [] = String.[]
text_of (c ∷ cs) = String.◌∷◌ c (text_of cs)

pub decimal6 : ℕ → String
unfolding digits pad digit text_of
decimal6 n = text_of (reverse (map digit (pad 6 (digits (suc n) n))))

-- back from the text to the number
abbrev chars_of : String → List Char
chars_of String.[] = []
chars_of (String.◌∷◌ c s) = c ∷ chars_of s

abbrev value : List ℕ → ℕ
value [] = 0
value (d ∷ ds) = d + 10 * value ds

abbrev undigit : Char → ℕ
undigit c = code c - 48

abbrev read : String → ℕ
read s = value (map undigit (reverse (chars_of s)))

chars_of-text_of : (cs : List Char) → chars_of (text_of cs) ≡ cs
unfolding text_of
chars_of-text_of [] = refl
chars_of-text_of (c ∷ cs) = ap (λ l. c ∷ l) (chars_of-text_of cs)

-- every digit is below ten
abbrev AllDigits : List ℕ → Type 0
AllDigits [] = Unit
AllDigits (d ∷ ds) = (d < 10) × AllDigits ds

digits-AllDigits : (fuel n : ℕ) → AllDigits (digits fuel n)
unfolding digits
digits-AllDigits zero n = tt
digits-AllDigits (suc fuel) n = ground (arith, digits-AllDigits fuel (n / 10))

pad-AllDigits : (w : ℕ) (ds : List ℕ) → AllDigits ds → AllDigits (pad w ds)
unfolding pad
pad-AllDigits zero ds h = h
pad-AllDigits (suc w) [] h = (omega arith, pad-AllDigits w [] tt)
pad-AllDigits (suc w) (d ∷ ds) h = (h.0, pad-AllDigits w ds h.1)

map-undigit : (ds : List ℕ) → AllDigits ds → map undigit (map digit ds) ≡ ds
unfolding digit
map-undigit [] h = refl
map-undigit (d ∷ ds) h =
    let same : 48 + d % 10 - 48 ≡ d = omega arith in rw (same, map-undigit ds h.1)

value-digits : (fuel n : ℕ) → n < fuel → value (digits fuel n) ≡ n
unfolding digits
value-digits zero n h = absurd (omega arith)
value-digits (suc fuel) n h = ground (arith, value-digits fuel (n / 10))

value-pad : (w : ℕ) (ds : List ℕ) → value (pad w ds) ≡ value ds
unfolding pad
value-pad zero ds = refl
value-pad (suc w) [] = omega (arith, value-pad w [])
value-pad (suc w) (d ∷ ds) = omega (arith, value-pad w ds)

read-decimal6 : (n : ℕ) → read (decimal6 n) ≡ n
unfolding decimal6
read-decimal6 n =
    let ds = pad 6 (digits (suc n) n) in
    rw
      (
        chars_of-text_of (reverse (map digit ds)),
        reverse-reverse (map digit ds),
        map-undigit ds (pad-AllDigits 6 (digits (suc n) n) (digits-AllDigits (suc n) n)),
      )
      (value-pad 6 (digits (suc n) n) ∙ value-digits (suc n) n (omega arith))

-- Different numbers have different texts.
pub decimal6-injective : (m n : ℕ) → decimal6 m ≡ decimal6 n → m ≡ n
decimal6-injective m n h = sym (read-decimal6 m) ∙ ap read h ∙ read-decimal6 n
