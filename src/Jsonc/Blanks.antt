-- ===== src/Jsonc/Blanks.antt =====
-- What is stripped is blanked in place.
mod Tests
use Prim.Native.Char.{Char, code}
use Prim.Native.String.{[], ◌∷◌}
use mathlib.Core.Path.{subst}
use awoki.Base.{
  ◌≡◌, refl, sym, ap, ◌∙◌, Bool, true, false, not, ◌&&◌, String, Option, none, some, ◌⊎◌, inl, inr,
  Bool-cases, Option-cases, number_equality, ◌==◌, arith, if◌then◌else◌,
}
use awoki.Jsonc.{
  Place, plain, quoted, escaped, line_opening, line, block_opening, block, block_closing, is_char,
  is_newline, advance, is_comment, blank, in_literal, strip_comments, closes, strip_commas,
  strip_jsonc,
}

-- a character is kept, or it is no newline and becomes a blank
abbrev pub Blanked : Char → Char → Type 0
Blanked c d = (d ≡ c) ⊎ ((d ≡ " ") × (is_newline c ≡ false))

-- character by character, and of one length
abbrev pub AllBlanked : String → String → Type 0
AllBlanked [] [] = Unit
AllBlanked [] (d ∷ t) = ⊥
AllBlanked (c ∷ s) [] = ⊥
AllBlanked (c ∷ s) (d ∷ t) = Blanked c d × AllBlanked s t

blank-Blanked : (drops : Bool) (c : Char) → Blanked c (blank drops c)
blank-Blanked false c = inl refl
blank-Blanked true c = elim (Bool-cases (is_newline c)) [
  | inl kept ↦ rw kept (inl refl)
  | inr gone ↦ rw gone (inr (refl, refl))
]

strip_comments-nil : (place : Place) (t : String) → strip_comments place [] ≡ some t → [] ≡ t
unfolding strip_comments
strip_comments-nil plain t h = cc
strip_comments-nil quoted t h = cc
strip_comments-nil escaped t h = cc
strip_comments-nil line_opening t h = cc
strip_comments-nil line t h = cc
strip_comments-nil block_opening t h = cc
strip_comments-nil block t h = cc
strip_comments-nil block_closing t h = cc

AllBlanked-nil : (t : String) → [] ≡ t → AllBlanked [] t
AllBlanked-nil [] h = tt
AllBlanked-nil (d ∷ t) h = cc

-- a character in front of what is left of the rest
AllBlanked-cons :
    (c d : Char) (s t : String) (o : Option String)
    → Blanked c d
    → ((u : String) → o ≡ some u → AllBlanked s u)
    → elim o [ none ↦ none | some u ↦ some (d ∷ u) ] ≡ some t
    → AllBlanked (c ∷ s) t
AllBlanked-cons c d s t none b ih h = cc
AllBlanked-cons c d s t (some u) b ih h =
    let same : d ∷ u ≡ t = cc in subst (AllBlanked (c ∷ s)) same (b, ih u refl)

strip_comments-AllBlanked :
    (s : String) (place : Place) (t : String) → strip_comments place s ≡ some t → AllBlanked s t
unfolding strip_comments
strip_comments-AllBlanked [] place t h = AllBlanked-nil t (strip_comments-nil place t h)
strip_comments-AllBlanked (c ∷ s) place t h =
    let next = advance place c s in
    AllBlanked-cons c (blank (is_comment place next) c) s t (strip_comments next s)
      (blank-Blanked (is_comment place next) c) (strip_comments-AllBlanked s next) h

strip_commas-AllBlanked : (s : String) (place : Place) → AllBlanked s (strip_commas place s)
unfolding strip_commas
strip_commas-AllBlanked [] plain = tt
strip_commas-AllBlanked [] escaped = tt
strip_commas-AllBlanked [] quoted = tt
strip_commas-AllBlanked [] line_opening = tt
strip_commas-AllBlanked [] line = tt
strip_commas-AllBlanked [] block_opening = tt
strip_commas-AllBlanked [] block = tt
strip_commas-AllBlanked [] block_closing = tt
strip_commas-AllBlanked (c ∷ s) plain = elim (Bool-cases (is_char 34 c)) [
  | inl opens ↦ rw opens (inl refl, strip_commas-AllBlanked s quoted)
  | inr other ↦ elim (Bool-cases (is_char 44 c && closes s)) [
    | inl trailing ↦
        rw (other, trailing) (inr (refl, comma_stays c trailing), strip_commas-AllBlanked s plain)
    | inr kept ↦ rw (other, kept) (inl refl, strip_commas-AllBlanked s plain)
  ]
]
  where
    comma_stays : (d : Char) → (is_char 44 d && closes s) ≡ true → is_newline d ≡ false
    comma_stays d h = ground arith
strip_commas-AllBlanked (c ∷ s) escaped = (inl refl, strip_commas-AllBlanked s (in_literal true c))
strip_commas-AllBlanked (c ∷ s) quoted = (inl refl, strip_commas-AllBlanked s (in_literal false c))
strip_commas-AllBlanked (c ∷ s) line_opening =
    (inl refl, strip_commas-AllBlanked s (in_literal false c))
strip_commas-AllBlanked (c ∷ s) line = (inl refl, strip_commas-AllBlanked s (in_literal false c))
strip_commas-AllBlanked (c ∷ s) block_opening =
    (inl refl, strip_commas-AllBlanked s (in_literal false c))
strip_commas-AllBlanked (c ∷ s) block = (inl refl, strip_commas-AllBlanked s (in_literal false c))
strip_commas-AllBlanked (c ∷ s) block_closing =
    (inl refl, strip_commas-AllBlanked s (in_literal false c))

Blanked-trans : (c d e : Char) → Blanked c d → Blanked d e → Blanked c e
Blanked-trans c d e (inl p) (inl q) = inl (q ∙ p)
Blanked-trans c d e (inl p) (inr (q, n)) = inr (q, ap is_newline (sym p) ∙ n)
Blanked-trans c d e (inr (p, n)) (inl q) = inr (q ∙ p, n)
Blanked-trans c d e (inr (p, n)) (inr (q, m)) = inr (q, n)

AllBlanked-trans : (s t u : String) → AllBlanked s t → AllBlanked t u → AllBlanked s u
AllBlanked-trans [] [] u p q = q
AllBlanked-trans [] (d ∷ t) u p q = absurd p
AllBlanked-trans (c ∷ s) [] u p q = absurd p
AllBlanked-trans (c ∷ s) (d ∷ t) [] p q = absurd q
AllBlanked-trans (c ∷ s) (d ∷ t) (e ∷ u) (b, p) (b', q) =
    (Blanked-trans c d e b b', AllBlanked-trans s t u p q)

commas_then_all :
    (text stripped : String) (o : Option String)
    → strip_comments plain text ≡ o
    → elim o [ none ↦ none | some t ↦ some (strip_commas plain t) ] ≡ some stripped
    → AllBlanked text stripped
commas_then_all text stripped none e h = cc
commas_then_all text stripped (some t) e h =
    let same : strip_commas plain t ≡ stripped = cc in
    subst (AllBlanked text) same (
      AllBlanked-trans text t (strip_commas plain t) (strip_comments-AllBlanked text plain t e)
        (strip_commas-AllBlanked t plain))

-- Where `strip_jsonc` returns, its text has the length of the source, and each of its characters is the
-- source's character there, or a blank in place of one that is no newline: positions and lines stay.
pub strip_jsonc-AllBlanked :
    (text stripped : String) → strip_jsonc text ≡ some stripped → AllBlanked text stripped
unfolding strip_jsonc
strip_jsonc-AllBlanked text stripped h =
    commas_then_all text stripped (strip_comments plain text) refl h
