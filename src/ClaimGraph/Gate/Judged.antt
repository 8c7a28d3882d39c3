-- ===== src/ClaimGraph/Gate/Judged.antt =====
-- The verdict of the gate, on the claims that it marked.
use mathlib.Core.Path.{subst}
use awoki.Base.Member.{filter-nil, nil_of_empty, In, In-filter, In-filter_of}
use awoki.Base.{
  ◌≡◌, ◌↔◌, sym, ap, ◌∙◌, Bool, true, false, not, String, List, filter, contains, is_nonempty,
  text_equality, arith,
}
use awoki.Base.{ok, bind-eq-ok, ok-injective}
use awoki.ClaimGraph.{Claim, RawClaim, is_verified, normalize_all}
use awoki.ClaimGraph.Normal.{normalize_all-IsNormal, normalize_all-as_raw}
use awoki.ClaimGraph.Contradictions.{Conflict, conflicts_of, contradictions}
use awoki.ClaimGraph.Contradictions.Sound.{Consistent, conflicts-nil_iff}
use awoki.ClaimGraph.Gate.Marked.{mark_required-IsNormal}
use awoki.ClaimGraph.Gate.{
  Gate, passed, expected_ids, mark_required, ids_of, required_of, missing_of, is_failed, is_blocked,
  judge, gate,
}

module _ {V : Type 0} where
  -- What a gate that passes has seen, of the claims that it marked.
  pub record IsClear (canon : V → String) (expected : List String) (cs : List (Claim V))
      : Type 0 where
    pub recorded : (id : String) → In id (expected_ids expected) → contains (ids_of cs) id ≡ true
    pub some_required : is_nonempty (required_of cs) ≡ true
    pub all_verified : (c : Claim V) → In c cs → c.required ≡ true → is_verified c.status ≡ true
    pub consistent : Consistent canon cs

  judge_passed_iff :
      (require_claims : Bool) (missing : List String) (conflicts : List Conflict)
      (cs : List (Claim V))
      → ((judge require_claims missing conflicts cs).status ≡ passed) ↔ (
          (is_nonempty missing ≡ false)
          × (is_nonempty (required_of cs) ≡ true)
          × (is_nonempty conflicts ≡ false)
          × (is_nonempty (filter (λ c. is_failed c.status) (required_of cs)) ≡ false)
          × (is_nonempty (filter (λ c. is_blocked c.status) (required_of cs)) ≡ false))
  unfolding judge
  judge_passed_iff require_claims missing conflicts cs = (λ h. ground arith, λ h. ground arith)

  judge-claims :
      (require_claims : Bool) (missing : List String) (conflicts : List Conflict)
      (cs : List (Claim V))
      → (judge require_claims missing conflicts cs).claims ≡ cs
  unfolding judge
  judge-claims require_claims missing conflicts cs = ground arith

  verified_of_neither :
      (c : Claim V)
      → is_failed c.status ≡ false
      → is_blocked c.status ≡ false
      → is_verified c.status ≡ true
  verified_of_neither c f b = ground arith

  neither_of_verified :
      (c : Claim V)
      → is_verified c.status ≡ true
      → (is_failed c.status ≡ false) × (is_blocked c.status ≡ false)
  neither_of_verified c v = ground arith

  module _ (canon : V → String) (raws : List (RawClaim V)) (require_claims : Bool)
      (expected : List String) where
    -- On claims that can be normalized the gate judges the marked claims and their conflicts.
    gate-eq-judge :
        (cs : List (Claim V))
        → normalize_all raws ≡ ok cs
        → let marked = mark_required (expected_ids expected) cs in
          gate canon raws require_claims expected
          ≡ ok (
              judge require_claims
                (missing_of (expected_ids expected) marked)
                (conflicts_of canon marked)
                marked)
    unfolding gate contradictions
    gate-eq-judge cs normalized = rw normalized (
        rw (
          normalize_all-as_raw (mark_required (expected_ids expected) cs) (
            mark_required-IsNormal (expected_ids expected) cs
              (normalize_all-IsNormal raws cs normalized))))

    abbrev verdict_on : List (Claim V) → Gate V
    verdict_on cs =
        judge require_claims (missing_of (expected_ids expected) cs) (conflicts_of canon cs) cs

    normalized_of_gate :
        (g : Gate V)
        → gate canon raws require_claims expected ≡ ok g
        → (cs : List (Claim V)) × (normalize_all raws ≡ ok cs)
    unfolding gate
    normalized_of_gate g h = let (cs, n, rest) = bind-eq-ok _ (normalize_all raws) g h in (cs, n)

    not_missing :
        (cs : List (Claim V)) (id : String)
        → not (contains (ids_of cs) id) ≡ false
        → contains (ids_of cs) id ≡ true
    not_missing cs id h = ground arith

    verdict_on_passed_iff :
        (cs : List (Claim V)) → ((verdict_on cs).status ≡ passed) ↔ IsClear canon expected cs
    verdict_on_passed_iff cs = (
      λ h.
          let (missing, some_one, clashes, failures, blocks) =
            (judge_passed_iff require_claims (missing_of (expected_ids expected) cs)
                (conflicts_of canon cs) cs).0
              h in
          record {
            recorded =
                λ id m. not_missing cs id ((filter-nil _ (expected_ids expected)).0 missing id m);
            some_required = some_one;
            all_verified = λ c m r.
                let req = In-filter_of (λ d. d.required) c cs m r in
                verified_of_neither c ((filter-nil _ (required_of cs)).0 failures c req)
                  ((filter-nil _ (required_of cs)).0 blocks c req);
            consistent =
                (conflicts-nil_iff canon cs).0 ((nil_of_empty (conflicts_of canon cs)).0 clashes);
          },
      λ p.
          (judge_passed_iff require_claims (missing_of (expected_ids expected) cs)
              (conflicts_of canon cs) cs).1
            (
              (filter-nil _ (expected_ids expected)).1 (λ id m. rw (p.recorded id m)),
              p.some_required,
              (nil_of_empty (conflicts_of canon cs)).1
                  ((conflicts-nil_iff canon cs).1 p.consistent),
              (filter-nil _ (required_of cs)).1 (λ c m. (neither p c m).0),
              (filter-nil _ (required_of cs)).1 (λ c m. (neither p c m).1),
            ),
    )
      where
        neither :
            IsClear canon expected cs
            → (c : Claim V) → In c (required_of cs)
            → (is_failed c.status ≡ false) × (is_blocked c.status ≡ false)
        neither p c m =
            let (there, r) = In-filter (λ d. d.required) c cs m in
            neither_of_verified c (p.all_verified c there r)

    -- the gate on claims in their normal form
    pub gate_judges :
        (g : Gate V)
        → gate canon raws require_claims expected ≡ ok g
        → (cs : List (Claim V)) × (normalize_all raws ≡ ok cs)
          × (g.claims ≡ mark_required (expected_ids expected) cs)
          × ((g.status ≡ passed)
              ↔ IsClear canon expected (mark_required (expected_ids expected) cs))
    gate_judges g h =
        let (cs, n) = normalized_of_gate g h in
        let m = mark_required (expected_ids expected) cs in
        let same : verdict_on m ≡ g =
          ok-injective (verdict_on m) g (sym (gate-eq-judge cs n) ∙ h) in
        let claims =
          judge-claims require_claims (missing_of (expected_ids expected) m) (conflicts_of canon m)
            m in
        (
          cs,
          n,
          ap (λ k. k.claims) (sym same) ∙ claims,
          subst (λ k. (k.status ≡ passed) ↔ IsClear canon expected m) same
              (verdict_on_passed_iff m),
        )
