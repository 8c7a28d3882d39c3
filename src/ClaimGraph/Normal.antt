-- ===== src/ClaimGraph/Normal.antt =====
-- What `normalize_claim` guarantees of the claim that it returns.
use mathlib.Core.Path.{subst}
use awoki.Base.Member.{In}
use awoki.Base.{
  is_space, ◌≡◌, refl, sym, ap, Bool, true, not, ◌&&◌, String, Option, none, some, List, [], ◌∷◌,
  map, filter, nonempty, upper, strip, strip-strip, text_equality, Bool-cases, inl, inr, arith,
}
use awoki.Base.{ok, bind-eq-ok}
use awoki.ClaimGraph.{
  ClaimStatus, verified, refuted, inconclusive, stale, conflict, status_name, status_of, RawClaim,
  Claim, is_pass_capable, has_receipt, is_text, demote, claim_of, with_status, or_text,
  normalize_claim, normalize_all, as_raw,
}

status_of-name :
    (st : ClaimStatus) → status_of (upper (or_text (status_name st) "INCONCLUSIVE")) ≡ some st
unfolding status_of upper
status_of-name verified = refl
status_of-name refuted = refl
status_of-name inconclusive = refl
status_of-name stale = refl
status_of-name conflict = refl

filter-filter {ℓ} : {A : Type ℓ} (p : A → Bool) (xs : List A) → filter p (filter p xs) ≡ filter p xs
filter-filter p [] = refl
filter-filter p (x ∷ xs) = ground (arith, filter-filter p xs)

strip-or_text : (s t : String) → strip s ≡ s → strip t ≡ t → strip (or_text s t) ≡ or_text s t
strip-or_text s t h k = elim (Bool-cases (nonempty s)) [ inl e ↦ rw e h | inr e ↦ rw e k ]

module _ {V : Type 0} where
  -- what makes a claim one that `normalize_claim` may return
  pub record IsNormal (c : Claim V) : Type 0 where
    pub id_stripped : strip c.claim_id ≡ c.claim_id
    pub repo_stripped : strip c.repo_id ≡ c.repo_id
    pub subject_stripped : strip c.subject ≡ c.subject
    pub predicate_stripped : strip c.predicate ≡ c.predicate
    pub reason_stripped : strip c.reason ≡ c.reason
    pub evidence_kept : filter is_text c.evidence_ids ≡ c.evidence_ids
    pub depends_kept : filter is_text c.depends_on ≡ c.depends_on
    pub negates_kept : filter is_text c.negates ≡ c.negates
    pub has_id : nonempty c.claim_id ≡ true
    pub has_subject : nonempty c.subject ≡ true
    pub has_predicate : nonempty c.predicate ≡ true
    -- no claim certifies itself
    pub backed : is_pass_capable c.status ≡ true → has_receipt c.verifier ≡ true

  demote-kept :
      (c : Claim V)
      → (is_pass_capable c.status ≡ true → has_receipt c.verifier ≡ true)
      → demote c ≡ c
  unfolding demote
  demote-kept c h = elim (Bool-cases (is_pass_capable c.status)) [
    | inl capable ↦ rw (capable, h capable)
    | inr plain ↦ rw plain
  ]

  claim_of-as_raw : (c : Claim V) → IsNormal c → claim_of (as_raw c) c.status ≡ c
  unfolding claim_of
  claim_of-as_raw c h = λ i. record {
    claim_id = h.id_stripped i;
    repo_id = h.repo_stripped i;
    subject = h.subject_stripped i;
    predicate = h.predicate_stripped i;
    value = c.value;
    status = c.status;
    required = c.required;
    evidence_ids = h.evidence_kept i;
    depends_on = h.depends_kept i;
    negates = h.negates_kept i;
    reason = h.reason_stripped i;
    verifier = c.verifier;
  }

  -- The source normalizes a claim that is normalized already, more than once: that changes nothing.
  normalize-as_raw : (c : Claim V) → IsNormal c → normalize_claim (as_raw c) ≡ ok c
  unfolding normalize_claim
  normalize-as_raw c h = rw (status_of-name c.status) (
      rw (claim_of-as_raw c h, h.has_id, h.has_subject, h.has_predicate)
        (ap ok (demote-kept c h.backed)))

  -- the same, before the status is looked at
  record IsCleaned (c : Claim V) : Type 0 where
    id_stripped : strip c.claim_id ≡ c.claim_id
    repo_stripped : strip c.repo_id ≡ c.repo_id
    subject_stripped : strip c.subject ≡ c.subject
    predicate_stripped : strip c.predicate ≡ c.predicate
    reason_stripped : strip c.reason ≡ c.reason
    evidence_kept : filter is_text c.evidence_ids ≡ c.evidence_ids
    depends_kept : filter is_text c.depends_on ≡ c.depends_on
    negates_kept : filter is_text c.negates ≡ c.negates
    has_id : nonempty c.claim_id ≡ true
    has_subject : nonempty c.subject ≡ true
    has_predicate : nonempty c.predicate ≡ true

  demote-IsNormal : (c : Claim V) → IsCleaned c → IsNormal (demote c)
  unfolding demote
  demote-IsNormal c h =
      elim (Bool-cases (is_pass_capable c.status && not (has_receipt c.verifier))) [
        | inl unbacked ↦ rw unbacked (record {
          id_stripped = h.id_stripped;
          repo_stripped = h.repo_stripped;
          subject_stripped = h.subject_stripped;
          predicate_stripped = h.predicate_stripped;
          reason_stripped =
              strip-or_text c.reason _ h.reason_stripped (unfold strip is_space in refl);
          evidence_kept = h.evidence_kept;
          depends_kept = h.depends_kept;
          negates_kept = h.negates_kept;
          has_id = h.has_id;
          has_subject = h.has_subject;
          has_predicate = h.has_predicate;
          backed = λ e. cc;
        })
        | inr backed ↦ rw backed (record {
          id_stripped = h.id_stripped;
          repo_stripped = h.repo_stripped;
          subject_stripped = h.subject_stripped;
          predicate_stripped = h.predicate_stripped;
          reason_stripped = h.reason_stripped;
          evidence_kept = h.evidence_kept;
          depends_kept = h.depends_kept;
          negates_kept = h.negates_kept;
          has_id = h.has_id;
          has_subject = h.has_subject;
          has_predicate = h.has_predicate;
          backed = λ e. ground arith;
        })
      ]

  claim_of-IsCleaned :
      (raw : RawClaim V) (st : ClaimStatus)
      → nonempty (strip raw.claim_id) ≡ true
      → nonempty (strip raw.subject) ≡ true
      → nonempty (strip raw.predicate) ≡ true
      → IsCleaned (claim_of raw st)
  unfolding claim_of
  claim_of-IsCleaned raw st i s p = record {
    id_stripped = strip-strip raw.claim_id;
    repo_stripped = strip-strip raw.repo_id;
    subject_stripped = strip-strip raw.subject;
    predicate_stripped = strip-strip raw.predicate;
    reason_stripped = strip-strip raw.reason;
    evidence_kept = filter-filter is_text raw.evidence_ids;
    depends_kept = filter-filter is_text raw.depends_on;
    negates_kept = filter-filter is_text raw.negates;
    has_id = i;
    has_subject = s;
    has_predicate = p;
  }

  with_status-IsNormal :
      (raw : RawClaim V) (st : Option ClaimStatus) (c : Claim V)
      → with_status raw st ≡ ok c
      → IsNormal c
  with_status-IsNormal raw none c h = cc
  with_status-IsNormal raw (some st) c h =
      let (i, (s, (p, e))) = parts in
      subst IsNormal e (demote-IsNormal _ (claim_of-IsCleaned raw st i s p))
    where
      parts :
          (nonempty (strip raw.claim_id) ≡ true)
          × ((nonempty (strip raw.subject) ≡ true)
              × ((nonempty (strip raw.predicate) ≡ true) × (demote (claim_of raw st) ≡ c)))
      parts = unfold claim_of in ground arith

  -- Every claim that `normalize_claim` returns has an identity, a subject and a predicate, its texts are
  -- stripped, and it is VERIFIED or REFUTED only with a verifier receipt.
  pub normalize-IsNormal :
      (raw : RawClaim V) (c : Claim V) → normalize_claim raw ≡ ok c → IsNormal c
  unfolding normalize_claim
  normalize-IsNormal raw c h = with_status-IsNormal raw _ c h

  -- every claim of a list
  pub normalize_all-IsNormal :
      (raws : List (RawClaim V)) (cs : List (Claim V))
      → normalize_all raws ≡ ok cs
      → (c : Claim V) → In c cs
      → IsNormal c
  unfolding normalize_all
  normalize_all-IsNormal [] cs h c m = let same : [] ≡ cs = cc in absurd (subst (In c) (sym same) m)
  normalize_all-IsNormal (raw ∷ raws) cs h c m =
      let (d, first, rest) = bind-eq-ok _ (normalize_claim raw) cs h in
      let (ds, others, last) = bind-eq-ok _ (normalize_all raws) cs rest in
      let same : d ∷ ds ≡ cs = cc in
      elim (subst (In c) (sym same) m) [
        | inl this ↦ subst IsNormal (sym this) (normalize-IsNormal raw d first)
        | inr there ↦ normalize_all-IsNormal raws ds others c there
      ]

  -- `contradictions` and `gate` may be handed claims that are normalized.
  pub normalize_all-as_raw :
      (cs : List (Claim V))
      → ((c : Claim V) → In c cs → IsNormal c)
      → normalize_all (map as_raw cs) ≡ ok cs
  unfolding normalize_all
  normalize_all-as_raw [] h = refl
  normalize_all-as_raw (c ∷ cs) h =
      rw (normalize-as_raw c (h c (inl refl)), normalize_all-as_raw cs (λ d m. h d (inr m)))
