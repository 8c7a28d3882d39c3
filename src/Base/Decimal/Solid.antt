-- ===== src/Base/Decimal/Solid.antt =====
-- Numerals hold no blanks, so that texts which end in one are not stripped.
use Prim.Native.Nat.{ℕ, suc}
use Prim.Native.Char.{Char}
use Prim.Native.String.{String, [], ◌∷◌, ◌++◌}
use text.Mathlib.TextLemmas.{cons-append, nil-append}
use mathlib.Core.Path.{◌≡◌, refl, ap, ◌∙◌}
use mathlib.Core.Bool.{true, false}
use mathlib.Core.List.{List, map, reverse, reverse_aux}
use native.Mathlib.Omega.{arith}
use awoki.Base.Tests.{number_equality, if◌then◌else◌}
use awoki.Base.Text.{is_space, nonempty, lstrip, rstrip, strip}
use awoki.Base.Decimal.{digit, text_of, pad, digits, decimal6}

abbrev AllSolid : List Char → Type 0
AllSolid List.[] = Unit
AllSolid (List.◌∷◌ c cs) = (is_space c ≡ false) × AllSolid cs

solid_digit : (d : ℕ) → is_space (digit d) ≡ false
unfolding is_space digit
solid_digit d = ground arith

map-AllSolid : (ds : List ℕ) → AllSolid (map digit ds)
map-AllSolid List.[] = tt
map-AllSolid (List.◌∷◌ d ds) = (solid_digit d, map-AllSolid ds)

reverse_aux-AllSolid :
    (cs ds : List Char) → AllSolid cs → AllSolid ds → AllSolid (reverse_aux cs ds)
reverse_aux-AllSolid List.[] ds h k = k
reverse_aux-AllSolid (List.◌∷◌ c cs) ds h k = reverse_aux-AllSolid cs (List.◌∷◌ c ds) h.1 (h.0, k)

-- the step of `rstrip`, where the rest is kept and the character is no space
keeps :
    (c : Char) (s t : String)
    → is_space c ≡ false
    → t ≡ s
    → (if nonempty t then c ∷ t else if is_space c then "" else c ∷ "") ≡ c ∷ s
keeps c [] t solid e = rw (e, solid)
keeps c (d ∷ s) t solid e = rw e

rstrip-cons : (c : Char) (s : String) → is_space c ≡ false → rstrip s ≡ s → rstrip (c ∷ s) ≡ c ∷ s
unfolding rstrip
rstrip-cons c s solid h = keeps c s (rstrip s) solid h

rstrip-text_of : (cs : List Char) → AllSolid cs → rstrip (text_of cs) ≡ text_of cs
unfolding rstrip text_of
rstrip-text_of List.[] h = refl
rstrip-text_of (List.◌∷◌ c cs) h = rstrip-cons c (text_of cs) h.0 (rstrip-text_of cs h.1)

rstrip-decimal6 : (n : ℕ) → rstrip (decimal6 n) ≡ decimal6 n
unfolding decimal6
rstrip-decimal6 n =
    let ds = pad 6 (digits (suc n) n) in
    rstrip-text_of (reverse (map digit ds))
      (reverse_aux-AllSolid (map digit ds) List.[] (map-AllSolid ds) tt)

step_more :
    (c : Char) (s t : String)
    → nonempty s ≡ true
    → t ≡ s
    → (if nonempty t then c ∷ t else if is_space c then "" else c ∷ "") ≡ c ∷ s
step_more c s t n e = rw (e, n)

nonempty-append : (a b : String) → nonempty b ≡ true → nonempty (a ++ b) ≡ true
nonempty-append [] b n = rw (nil-append b, n)
nonempty-append (c ∷ a) b n = rw (cons-append c a b)

rstrip-more : (c : Char) (s : String) → nonempty s ≡ true → rstrip s ≡ s → rstrip (c ∷ s) ≡ c ∷ s
unfolding rstrip
rstrip-more c s n h = step_more c s (rstrip s) n h

rstrip-append : (a b : String) → nonempty b ≡ true → rstrip b ≡ b → rstrip (a ++ b) ≡ a ++ b
rstrip-append [] b n h = rw (nil-append b, h)
rstrip-append (c ∷ a) b n h =
    rw (cons-append c a b, rstrip-more c (a ++ b) (nonempty-append a b n) (rstrip-append a b n h))

lstrip-solid : (c : Char) (s : String) → is_space c ≡ false → lstrip (c ∷ s) ≡ c ∷ s
unfolding lstrip
lstrip-solid c s solid = rw solid

-- A text that begins with what is no blank and ends in a mark and a numeral is not stripped.
pub strip_numbered :
    (c : Char) (s : String) (mark : Char) (n : ℕ)
    → is_space c ≡ false
    → is_space mark ≡ false
    → strip (c ∷ (s ++ (mark ∷ decimal6 n))) ≡ c ∷ (s ++ (mark ∷ decimal6 n))
unfolding strip
strip_numbered c s mark n solid plain =
    let tail = mark ∷ decimal6 n in
    ap rstrip (lstrip-solid c (s ++ tail) solid)
    ∙ rstrip-more c (s ++ tail) (nonempty-append s tail refl)
        (rstrip-append s tail refl (rstrip-cons mark (decimal6 n) plain (rstrip-decimal6 n)))
