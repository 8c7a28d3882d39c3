-- ===== src/RetrievalLimits/Fitting/Longest.antt =====
-- What `fit_rerank_documents` returns fits, and is as long as can be.
use mathlib.Core.Path.{subst}
use Prim.Native.String.{count as text_length}
use awoki.Base.{
  ℕ, suc, ◌+◌, ◌≤◌, ◌<◌, ◌≡◌, refl, ap, Bool, true, false, not, ◌||◌, String, Option, List, [], ◌∷◌,
  length, nonempty, strip, prefix, prefix_of_short, leb, ltb, Bool-cases, ◌⊎◌, inl, inr, arith,
  if◌then◌else◌, Raises, ok, err, ◌>>=◌, bind-eq-ok, ok-injective,
}
use awoki.RetrievalLimits.Bisection.{bisect}
use awoki.RetrievalLimits.Bisection.Ends.{bisect-found}
use awoki.RetrievalLimits.Fitting.{
  Tokenizer, Profile, Refused, budget_of, counter, fit_document, fit_documents, Fitted, fit_within,
  fit_rerank_documents,
}

module _ (tokens : String → ℕ) (budget : ℕ) where
  -- a document that fits is kept; of any other a part is, which begins where it does, is not empty, fits,
  -- and would not with one character more
  abbrev pub IsFitted : String → String → Bool → Type 0
  IsFitted document fitted clipped =
      ((clipped ≡ false) × (tokens document ≤ budget) × (fitted ≡ document))
      ⊎ ((clipped ≡ true)
          × (budget < tokens document)
          × ((n : ℕ) × (fitted ≡ prefix n document)
              × (nonempty fitted ≡ true)
              × (tokens fitted ≤ budget)
              × (budget < tokens (prefix (suc n) document))))

  -- the length that the search finds
  abbrev longest : String → ℕ
  longest document =
      (bisect (λ n. leb (tokens (prefix n document)) budget) (text_length document) 0
        (text_length document)).0

  -- a part that fits, of a document that does not, would not fit with one character more
  longest-next :
      (document : String)
      → budget < tokens document
      → tokens (prefix (longest document) document) ≤ budget
      → budget < tokens (prefix (suc (longest document)) document)
  longest-next document over fits =
      let (bounded, below, above) =
        bisect-found (λ n. leb (tokens (prefix n document)) budget) (text_length document) in
      elim above [
        | inr next ↦ ground (arith, next)
        | inl whole ↦
            let all_ : prefix (longest document) document ≡ document =
              prefix_of_short (longest document) document (omega (arith, whole)) in
            omega (arith, over, fits, ap tokens all_)
      ]

  fit_document-IsFitted :
      (document fitted : String) (clipped : Bool)
      → fit_document tokens budget document ≡ ok (fitted, clipped)
      → IsFitted document fitted clipped
  unfolding fit_document
  fit_document-IsFitted document fitted clipped e =
      elim (Bool-cases (leb (tokens document) budget)) [
        | inl short ↦ let (a, b) = kept (rw short at e) in inl (b, ground (arith, short), a)
        | inr long ↦
            let over : budget < tokens document = ground (arith, long) in
            elim (Bool-cases (
              not (nonempty (prefix (longest document) document))
              || ltb budget (tokens (prefix (longest document) document)))) [
                | inl fails ↦ absurd (refused (rw (long, fails) at e))
                | inr fits ↦
                    let (a, b) = kept (rw (long, fits) at e) in
                    inr (
                      b,
                      over,
                      (
                        longest document,
                        a,
                        rw a (ground (arith, fits)),
                        rw a (ground (arith, fits)),
                        longest-next document over (ground (arith, fits)),
                      ),
                    )
              ]
      ]
    where
      kept :
          {d : String} {c : Bool}
          → ◌≡◌ {A = Raises Refused (String × Bool)} (ok (d, c)) (ok (fitted, clipped))
          → (fitted ≡ d) × (clipped ≡ c)
      kept h = (cc, cc)

      refused :
          {r : Refused}
          → ◌≡◌ {A = Raises Refused (String × Bool)} (err r) (ok (fitted, clipped))
          → ⊥
      refused h = cc

  -- each document is fitted, in the order of the documents, and a number of them are cut
  abbrev pub AllFitted : List String → List String → ℕ → Type 0
  AllFitted [] [] n = n ≡ 0
  AllFitted (document ∷ documents) (fitted ∷ rest) n =
      (clipped : Bool) × (more : ℕ) × IsFitted document fitted clipped
      × AllFitted documents rest more
      × (n ≡ (if clipped then 1 else 0) + more)
  AllFitted _ _ n = ⊥

  fit_documents-AllFitted :
      (documents fitted : List String) (n : ℕ)
      → fit_documents tokens budget documents ≡ ok (fitted, n)
      → AllFitted documents fitted n
  unfolding fit_documents
  fit_documents-AllFitted [] fitted n e =
      subst (λ (p : List String × ℕ). AllFitted [] p.0 p.1) (ok-injective _ _ e) refl
  fit_documents-AllFitted (document ∷ documents) fitted n e =
      let join : String × Bool → List String × ℕ → List String × ℕ =
        λ one rest. (one.0 ∷ rest.0, (if one.1 then 1 else 0) + rest.1) in
      let (one, first, behind) =
        bind-eq-ok (λ one. fit_documents tokens budget documents >>= λ rest. ok (join one rest))
          (fit_document tokens budget document) (fitted, n) e in
      let (rest, others, last) =
        bind-eq-ok (λ rest. ok (join one rest)) (fit_documents tokens budget documents) (fitted, n)
          behind in
      subst (λ (p : List String × ℕ). AllFitted (document ∷ documents) p.0 p.1)
        (ok-injective _ _ last)
        (
          one.1,
          rest.1,
          fit_document-IsFitted document one.0 one.1 first,
          fit_documents-AllFitted documents rest.0 rest.1 others,
          refl,
        )

  fit_within-AllFitted :
      (configured : Bool) (documents : List String) (result : Fitted)
      → fit_within configured budget tokens documents ≡ ok result
      → (tokens "" < budget)
        × AllFitted documents result.fitted result.clipped_documents
        × (result.document_count ≡ length documents)
  unfolding fit_within
  fit_within-AllFitted configured documents result e = elim (Bool-cases (leb budget (tokens ""))) [
    | inl long ↦ absurd (refused (rw long at e))
    | inr room ↦
        let assemble : List String × ℕ → Fitted = λ p. record {
          fitted = p.0;
          configured_tokenizer = configured;
          max_input_tokens = budget;
          clipped_documents = p.1;
          document_count = length documents;
        } in
        let (p, all_, last) =
          bind-eq-ok (λ p. ok (assemble p)) (fit_documents tokens budget documents) result
            (rw room at e) in
        let whole = fit_documents-AllFitted documents p.0 p.1 all_ in
        let (fit, number) =
          subst
            (λ r.
              AllFitted documents r.fitted r.clipped_documents
              × (r.document_count ≡ length documents))
            (ok-injective (assemble p) result last) (whole, refl) in
        (ground (arith, room), fit, number)
  ]
    where
      refused : {r : Refused} → ◌≡◌ {A = Raises Refused Fitted} (err r) (ok result) → ⊥
      refused h = cc

-- Where the documents are returned, the query leaves room in the budget, and each document is kept if it
-- fits the budget beside the query; else it is cut to a part that is not empty, fits, and would not fit
-- with one character more. The number of documents that were cut is counted, and the order is kept.
pub fit_rerank_documents-AllFitted :
    (find : String → Option Tokenizer) (query : String) (documents : List String)
    (profile : Profile) (tokens : String → ℕ) (result : Fitted)
    → counter find profile query ≡ ok tokens
    → fit_rerank_documents find query documents profile ≡ ok result
    → (tokens "" < budget_of profile.max_input_tokens)
      × AllFitted tokens
          (budget_of profile.max_input_tokens)
          documents
          result.fitted
          result.clipped_documents
      × (result.document_count ≡ length documents)
unfolding fit_rerank_documents
fit_rerank_documents-AllFitted find query documents profile tokens result counted e =
    let configured = nonempty (strip profile.tokenizer_path) in
    fit_within-AllFitted tokens (budget_of profile.max_input_tokens) configured documents result
      (rw counted at e)
