-- ===== src/RetrievalLimits/Fitting/Tests.antt =====
-- Documents for a reranker with a budget of 32 tokens.
use awoki.Base.Int.{ℤ}
use awoki.Base.{
  ◌<◌, ◌≡◌, ◌↔◌, refl, true, false, String, Option, none, some, List, [], ◌∷◌, length, ok, err,
  strip, prefix, arith, nonempty,
}
use awoki.RetrievalLimits.Bisection.{bisect}
use awoki.RetrievalLimits.Bisection.Ends.{bisect_ends}
use awoki.RetrievalLimits.Fitting.{
  Tokenizer, Profile, document_too_long, utf8_length, estimate, counter, fit_document,
  fit_documents, Fitted, fit_within, fit_rerank_documents,
}
use awoki.RetrievalLimits.Fitting.Longest.{AllFitted, fit_rerank_documents-AllFitted}
use awoki.RetrievalLimits.Fitting.Estimates.{is_ok, AllBegin, fit_rerank_documents_iff}

abbrev profile : Profile
profile = record { max_input_tokens = some (ℤ.pos 20); tokenizer_path = "" }

abbrev no_files : String → Option Tokenizer
no_files path = none

abbrev texts : List String
texts = "kept" ∷ "0123456789abcdef" ∷ "übermäßig" ∷ []

abbrev result : Fitted
result = record {
  fitted = "kept" ∷ "0123456789" ∷ "übermäß" ∷ [];
  configured_tokenizer = false;
  max_input_tokens = 32;
  clipped_documents = 2;
  document_count = 3;
}

fits : fit_rerank_documents no_files "abcdef" texts profile ≡ ok result
unfolding fit_rerank_documents counter fit_within fit_documents fit_document bisect utf8_length
    prefix strip
fits = refl

too_long :
    fit_rerank_documents no_files "0123456789abcde" ("ß" ∷ "öö" ∷ []) profile
    ≡ err document_too_long
unfolding fit_rerank_documents counter fit_within fit_documents fit_document bisect utf8_length
    prefix strip
too_long = refl

counted : counter no_files profile "abcdef" ≡ ok (estimate "abcdef")
unfolding counter strip
counted = refl

fit_rerank_documents-AllFitted_example :
    (estimate "abcdef" "" < 32)
    × AllFitted (estimate "abcdef") 32 texts result.fitted 2
    × (3 ≡ length texts)
fit_rerank_documents-AllFitted_example =
    fit_rerank_documents-AllFitted no_files "abcdef" texts profile (estimate "abcdef") result
      counted fits

default_mode : nonempty (strip profile.tokenizer_path) ≡ false
unfolding strip
default_mode = refl

fit_rerank_documents_iff_example :
    (is_ok (fit_rerank_documents no_files "abcdef" texts profile) ≡ true)
    ↔ ((estimate "abcdef" "" < 32) × AllBegin (estimate "abcdef") 32 texts)
fit_rerank_documents_iff_example =
    fit_rerank_documents_iff no_files "abcdef" texts profile default_mode

bisect_ends_example : (bisect (λ n. false) 4 0 15).0 ≡ (bisect (λ n. false) 4 0 15).1
bisect_ends_example = bisect_ends (λ n. false) 4 0 15 (omega arith) (omega arith)
