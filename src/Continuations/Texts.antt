-- ===== src/Continuations/Texts.antt =====
-- `_clean_id` and `_clean_text`.
use Prim.Native.Char.{Char, code}
use Prim.Native.String.{[], ◌∷◌}
use awoki.Base.{
  ℕ, Bool, true, false, ◌||◌, String, strip, prefix, is_space, is_alnum, is_mark_or_colon,
  dash_runs, strip_chars, number_equality, ◌==◌, if◌then◌else◌,
}

-- `. _ : / -`
is_path_mark : Char → Bool
unfolding is_mark_or_colon
is_path_mark c = is_mark_or_colon c || code c == 47

unfoldable pub clean_id : ℕ → String → String
unfolding is_path_mark dash_runs strip_chars is_alnum
clean_id limit value =
    prefix limit
      (strip_chars is_path_mark (dash_runs (λ c. is_alnum c || is_path_mark c) false (strip value)))

-- each run of blanks becomes one; a run at the end is dropped
squeeze : Bool → String → String
squeeze blank [] = []
squeeze blank (c ∷ s) =
    let within = squeeze true s in
    let behind = " " ∷ c ∷ squeeze false s in
    let next = c ∷ squeeze false s in if is_space c then within else if blank then behind else next

-- `" ".join(str(value).split())[:limit]`
unfoldable pub clean_text : ℕ → String → String
unfolding squeeze
clean_text limit value = prefix limit (squeeze false (strip value))
