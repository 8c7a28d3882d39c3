-- ===== src/RetrievalLimits/Fitting/Estimates.antt =====
-- When the documents fit by the estimate of their bytes.
use Prim.Native.String.{[], ◌∷◌, count as text_length}
use Prim.Native.String.count as Count
use awoki.Base.{
  ℕ, zero, suc, ◌+◌, ◌≤◌, ◌<◌, ◌≡◌, ◌↔◌, refl, sym, ◌∙◌, Bool, true, false, not, ◌||◌, String,
  Option, List, length, nonempty, strip, prefix, leb, ltb, Bool-cases, ◌⊎◌, inl, inr, arith,
  if◌then◌else◌, Raises, ok, err, ◌>>=◌,
}
use awoki.RetrievalLimits.Bisection.{bisect}
use awoki.RetrievalLimits.Bisection.Ends.{bisect-found}
use awoki.RetrievalLimits.Fitting.{
  Tokenizer, Profile, Refused, utf8_length, estimate, budget_of, counter, fit_document,
  fit_documents, fit_within, Fitted, fit_rerank_documents,
}

abbrev pub is_ok : {A : Type 0} → Raises Refused A → Bool
is_ok (err e) = false
is_ok (ok a) = true

is_ok-then :
    {A B : Type 0} (k : A → B) (m : Raises Refused A) → is_ok (m >>= λ a. ok (k a)) ≡ is_ok m
is_ok-then k (err e) = refl
is_ok-then k (ok a) = refl

-- all the documents that are too long for the budget begin with a character that is not
abbrev pub AllBegin : (String → ℕ) → ℕ → List String → Type 0
AllBegin tokens budget List.[] = Unit
AllBegin tokens budget (List.◌∷◌ document documents) =
    ((tokens document ≤ budget) ⊎ (tokens (prefix 1 document) ≤ budget))
    × AllBegin tokens budget documents

-- a part of a document is not longer than one that goes on behind its first character
estimate-first :
    (query document : String) (n : ℕ)
    → estimate query (prefix 1 document) ≤ estimate query (prefix (suc n) document)
unfolding prefix utf8_length
estimate-first query [] n = omega arith
estimate-first query (c ∷ s) n = omega arith

module _ (query : String) (budget : ℕ) (room : estimate query "" < budget) where
  abbrev tokens : String → ℕ
  tokens = estimate query

  abbrev longest : String → ℕ
  longest document =
      (bisect (λ n. leb (tokens (prefix n document)) budget) (text_length document) 0
        (text_length document)).0

  found_part :
      (document : String) (r : ℕ)
      → budget < tokens document
      → tokens (prefix 1 document) ≤ budget
      → (r ≡ 0) ⊎ (leb (tokens (prefix r document)) budget ≡ true)
      → (r ≡ text_length document) ⊎ (leb (tokens (prefix (suc r) document)) budget ≡ false)
      → (nonempty (prefix r document) ≡ true) × (tokens (prefix r document) ≤ budget)
  unfolding prefix
  found_part [] r over starts below above = absurd (omega (arith, room, over))
  found_part (c ∷ s) zero over starts below (inl all_) =
      absurd (omega (arith, all_, Count.cons c s))
  found_part (c ∷ s) zero over starts below (inr long) = absurd (ground (arith, long, starts))
  found_part (c ∷ s) (suc n) over starts (inl nothing) above = absurd (omega (arith, nothing))
  found_part (c ∷ s) (suc n) over starts (inr fits) above = (refl, ground (arith, fits))

  first_fits :
      (document : String) (r : ℕ)
      → nonempty (prefix r document) ≡ true
      → tokens (prefix r document) ≤ budget
      → tokens (prefix 1 document) ≤ budget
  unfolding prefix
  first_fits document zero some_part fits = cc
  first_fits document (suc n) some_part fits = omega (arith, fits, estimate-first query document n)

  fit_document_iff :
      (document : String)
      → (is_ok (fit_document tokens budget document) ≡ true)
        ↔ ((tokens document ≤ budget) ⊎ (tokens (prefix 1 document) ≤ budget))
  unfolding fit_document
  fit_document_iff document = elim (Bool-cases (leb (tokens document) budget)) [
    | inl short ↦ rw short (λ o. inl (ground (arith, short)), λ h. refl)
    | inr long ↦
        let candidate = prefix (longest document) document in
        let (bounded, below, above) =
          bisect-found (λ n. leb (tokens (prefix n document)) budget) (text_length document) in
        elim (Bool-cases (not (nonempty candidate) || ltb budget (tokens candidate))) [
          | inl none_ ↦
              rw (long, none_)
                (
                  λ h. cc,
                  λ h. elim h [
                    | inl short ↦ absurd (ground (arith, short, long))
                    | inr starts ↦
                        let (n, f) =
                          found_part document (longest document) (ground (arith, long)) starts below
                            above in
                        absurd (ground (arith, none_, n, f))
                  ],
                )
          | inr part ↦
              rw (long, part)
                (
                  λ o. inr (
                      first_fits document (longest document) (ground (arith, part))
                        (ground (arith, part))),
                  λ h. refl,
                )
        ]
  ]

  fit_documents_iff :
      (documents : List String)
      → (is_ok (fit_documents tokens budget documents) ≡ true) ↔ AllBegin tokens budget documents
  unfolding fit_documents
  fit_documents_iff List.[] = (λ o. tt, λ h. refl)
  fit_documents_iff (List.◌∷◌ document documents) =
      both (fit_document tokens budget document) (fit_documents tokens budget documents)
        (fit_document_iff document) (fit_documents_iff documents)
    where
      both :
          {P Q : Type 0} (one : Raises Refused (String × Bool))
          (rest : Raises Refused (List String × ℕ))
          → (is_ok one ≡ true) ↔ P
          → (is_ok rest ≡ true) ↔ Q
          → (is_ok {A = List String × ℕ}
                (one >>= λ p. rest >>= λ q. ok (List.◌∷◌ p.0 q.0, (if p.1 then 1 else 0) + q.1))
              ≡ true)
            ↔ (P × Q)
      both (err e) rest hp hq = (λ h. cc, λ h. hp.1 h.0)
      both (ok p) (err e) hp hq = (λ h. cc, λ h. hq.1 h.1)
      both (ok p) (ok q) hp hq = (λ h. (hp.0 refl, hq.0 refl), λ h. refl)

-- Without a tokenizer of its own the reranker's documents are returned exactly when the bytes of the query,
-- with 16 more, are less than the budget, and each document that is too long to stand beside it begins
-- with a character that is not: otherwise the call raises.
pub fit_rerank_documents_iff :
    (find : String → Option Tokenizer) (query : String) (documents : List String)
    (profile : Profile)
    → nonempty (strip profile.tokenizer_path) ≡ false
    → (is_ok (fit_rerank_documents find query documents profile) ≡ true) ↔ (
        (estimate query "" < budget_of profile.max_input_tokens)
        × AllBegin (estimate query) (budget_of profile.max_input_tokens) documents)
unfolding fit_rerank_documents counter fit_within
fit_rerank_documents_iff find query documents profile default =
    let budget = budget_of profile.max_input_tokens in
    elim (Bool-cases (leb budget (estimate query ""))) [
      | inl full ↦ rw (default, full) (λ h. cc, λ h. absurd (ground (arith, full, h.0)))
      | inr room ↦
          let fits : estimate query "" < budget = ground (arith, room) in
          let assemble : List String × ℕ → Fitted = λ p. record {
            fitted = p.0;
            configured_tokenizer = false;
            max_input_tokens = budget;
            clipped_documents = p.1;
            document_count = length documents;
          } in
          let same = is_ok-then assemble (fit_documents (estimate query) budget documents) in
          let (sound, complete) = fit_documents_iff query budget fits documents in
          rw (default, room) (λ o. (fits, sound (sym same ∙ o)), λ h. same ∙ complete h.1)
    ]
