-- ===== src/RetrievalLimits/Fitting.antt =====
-- `fit_rerank_documents`: each document is cut to what the reranker's budget leaves beside the query.
pub mod Longest
pub mod Estimates
mod Tests
use Prim.Native.Nat.{min, max}
use Prim.Native.Char.{Char, code}
use Prim.Native.String.{[], ◌∷◌, count as text_length}
use awoki.Base.Int.{ℤ, pos_part}
use awoki.Base.{
  ℕ, zero, ◌+◌, Bool, true, false, not, ◌||◌, String, Option, none, some, List, length, nonempty,
  strip, prefix, leb, ltb, if◌then◌else◌, Raises, ok, err, raise_if, ◌>>=◌, ◌>>◌,
}
use awoki.RetrievalLimits.Bisection.{bisect}

-- `len(text.encode("utf-8"))`
abbrev utf8_width : Char → ℕ
utf8_width c =
    let n = code c in
    if ltb n 128 then 1 else if ltb n 2048 then 2 else if ltb n 65536 then 3 else 4

unfoldable pub utf8_length : String → ℕ
utf8_length [] = 0
utf8_length (c ∷ s) = utf8_width c + utf8_length s

abbrev pub estimate : String → String → ℕ
estimate query document = utf8_length query + utf8_length document + 16

-- a file at the path of a tokenizer, and the number of tokens that it makes of a query with a document
pub record Tokenizer : Type 0 where
  pub is_absolute : Bool
  pub is_file : Bool
  pub size : ℕ
  pub pair_length : String → String → ℕ

pub record Profile : Type 0 where
  pub max_input_tokens : Option ℤ
  pub tokenizer_path : String

pub data Refused : Type 0 where
  no_tokenizer unbounded_tokenizer query_too_long document_too_long : Refused

-- `max(32, min(int(... or 512), 32768))`
abbrev pub budget_of : Option ℤ → ℕ
budget_of none = 512
budget_of (some (ℤ.pos zero)) = 512
budget_of (some n) = max 32 (min (pos_part n) 32768)

-- `count`: how much of the budget a document takes together with the query; `find` is what stands at a
-- path, `none` where nothing does
unfoldable pub counter :
    (find : String → Option Tokenizer) → Profile → (query : String) → Raises Refused (String → ℕ)
counter find profile query =
    let path = strip profile.tokenizer_path in
    if nonempty path
    then elim (find path) [
      | none ↦ err no_tokenizer
      | some t ↦
          if not t.is_absolute || not t.is_file || ltb 33554432 t.size
          then err unbounded_tokenizer
          else ok (t.pair_length query)
    ]
    else ok (estimate query)

-- the document, or its longest part that the search finds, and whether it was cut
unfoldable pub fit_document :
    (tokens : String → ℕ) → (budget : ℕ) → String → Raises Refused (String × Bool)
fit_document tokens budget document =
    let size = text_length document in
    let low = (bisect (λ n. leb (tokens (prefix n document)) budget) size 0 size).0 in
    let candidate = prefix low document in
    if leb (tokens document) budget
    then ok (document, false)
    else if not (nonempty candidate) || ltb budget (tokens candidate)
    then err document_too_long
    else ok (candidate, true)

-- the documents, and how many were cut
unfoldable pub fit_documents :
    (tokens : String → ℕ) → (budget : ℕ) → List String → Raises Refused (List String × ℕ)
fit_documents tokens budget List.[] = ok (List.[], 0)
fit_documents tokens budget (List.◌∷◌ document documents) = do
  (fitted, clipped) ← fit_document tokens budget document
  (rest, more) ← fit_documents tokens budget documents
  ok (List.◌∷◌ fitted rest, (if clipped then 1 else 0) + more)

pub record Fitted : Type 0 where
  pub fitted : List String
  pub configured_tokenizer : Bool
  pub max_input_tokens : ℕ
  pub clipped_documents : ℕ
  pub document_count : ℕ

-- the part of `fit_rerank_documents` behind the choice of `count`
unfoldable pub fit_within :
    (configured : Bool) → (budget : ℕ) → (tokens : String → ℕ) → List String → Raises Refused Fitted
fit_within configured budget tokens documents = do
  raise_if (leb budget (tokens "")) query_too_long
  (fitted, clipped) ← fit_documents tokens budget documents
  ok (record {
    fitted = fitted;
    configured_tokenizer = configured;
    max_input_tokens = budget;
    clipped_documents = clipped;
    document_count = length documents;
  })

unfoldable pub fit_rerank_documents :
    (find : String → Option Tokenizer)
    → (query : String) → List String
    → Profile
    → Raises Refused Fitted
fit_rerank_documents find query documents profile = do
  tokens ← counter find profile query
  fit_within (nonempty (strip profile.tokenizer_path)) (budget_of profile.max_input_tokens) tokens
      documents
