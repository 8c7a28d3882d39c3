-- ===== src/Reliability/Texts.antt =====
-- `_bounded_text`, `_slug`, `_clean_node_id` and `_clean_relation_id`. `redact` is the redaction of
-- `safety.redact_text`.
use Prim.Native.Char.{code}
use Prim.Native.String.{[], ◌∷◌, count}
use awoki.Base.{
  dash_runs, strip_chars, is_alnum, is_mark, is_mark_or_colon, ℕ, suc, false, ◌||◌, String,
  nonempty, strip, prefix, ltb, number_equality, ◌==◌, if◌then◌else◌, Raises, ok, raise_if, ◌>>◌,
}
use awoki.Reliability.State.{RunError, text_too_long, text_too_multiline}

-- `text.count("\n")`
unfoldable pub newlines : String → ℕ
newlines [] = 0
newlines (c ∷ s) = if code c == 10 then suc (newlines s) else newlines s

unfoldable pub bounded_text : (String → String) → String → ℕ → ℕ → Raises RunError String
unfolding newlines
bounded_text redact value limit max_newlines = do
  let text = strip value
  raise_if (ltb limit (count text)) text_too_long
  raise_if (ltb max_newlines (newlines text)) text_too_multiline
  ok (redact text)

-- `_slug`
unfoldable pub slug : String → String
unfolding dash_runs strip_chars is_alnum is_mark
slug value =
    let text = strip (if nonempty value then value else "reliability") in
    let clean =
      prefix 80 (strip_chars is_mark (dash_runs (λ c. is_alnum c || is_mark c) false text)) in
    if nonempty clean then clean else "reliability"

-- `_clean_relation_id`; `_clean_node_id`, where the result is not empty
unfoldable pub clean_id : String → String
unfolding dash_runs strip_chars is_alnum is_mark_or_colon
clean_id value = prefix 160 (
    strip_chars is_mark_or_colon
      (dash_runs (λ c. is_alnum c || is_mark_or_colon c) false (strip value)))

-- `_clean_node_id`; `fresh` is the identity that it draws by `uuid4` otherwise
unfoldable pub clean_node_id : String → String → String
clean_node_id fresh value = let clean = clean_id value in if nonempty clean then clean else fresh
