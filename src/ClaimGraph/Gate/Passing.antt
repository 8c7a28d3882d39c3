-- ===== src/ClaimGraph/Gate/Passing.antt =====
-- When the gate passes.
use mathlib.Core.Path.{subst}
use awoki.Base.Member.{In, In-filter, In-filter_of, In-map, In-map_of, In-contains, contains_of_In}
use awoki.Base.{
  ◌≡◌, ◌↔◌, refl, sym, ap, ◌∙◌, Bool, true, String, List, [], ◌∷◌, is_nonempty, text_equality, inl,
  inr, ok, arith,
}
use awoki.ClaimGraph.{Claim, RawClaim, is_verified, is_pass_capable, has_receipt, normalize_all}
use awoki.ClaimGraph.Normal.{normalize_all-IsNormal}
use awoki.ClaimGraph.Contradictions.Sound.{Consistent}
use awoki.ClaimGraph.Gate.Marked.{
  IsWanted, mark-IsWanted, mark-same, In-mark_required, In-mark_required_of,
  mark_required-Consistent, mark_required-IsNormal,
}
use awoki.ClaimGraph.Gate.{
  Gate, passed, expected_ids, mark, mark_required, ids_of, required_of, gate,
}
use awoki.ClaimGraph.Gate.Judged.{IsClear, gate_judges}

some_of_nonempty : {A : Type 0} (xs : List A) → is_nonempty xs ≡ true → (x : A) × In x xs
some_of_nonempty [] h = cc
some_of_nonempty (x ∷ xs) h = (x, inl refl)

nonempty_of_some : {A : Type 0} (x : A) (xs : List A) → In x xs → is_nonempty xs ≡ true
nonempty_of_some x [] m = absurd m
nonempty_of_some x (y ∷ xs) m = refl

module _ {V : Type 0} where
  -- What a gate needs to pass, of the claims that it is given, in their normal form.
  pub record IsPassing (canon : V → String) (expected : List String) (cs : List (Claim V))
      : Type 0 where
    -- every declared identity is recorded
    pub recorded :
        (id : String) → In id (expected_ids expected) → (c : Claim V) × In c cs × (c.claim_id ≡ id)
    -- some claim is wanted: recorded as required, or declared
    pub some_wanted : (c : Claim V) × In c cs × IsWanted (expected_ids expected) c
    pub all_verified :
        (c : Claim V) → In c cs → IsWanted (expected_ids expected) c → is_verified c.status ≡ true
    pub consistent : Consistent canon cs

  module _ (canon : V → String) (raws : List (RawClaim V)) (require_claims : Bool)
      (expected : List String) where
    verdict_iff :
        (cs : List (Claim V))
        → IsClear canon expected (mark_required (expected_ids expected) cs)
          ↔ IsPassing canon expected cs
    verdict_iff cs = (sound, complete)
      where
        ids : List String
        ids = expected_ids expected

        sound : IsClear canon expected (mark_required ids cs) → IsPassing canon expected cs
        sound p = record {
          recorded = λ id m.
              let (c, there, same) =
                In-map (λ (c : Claim V). c.claim_id) id (mark_required ids cs)
                  (In-contains id (ids_of (mark_required ids cs)) (p.recorded id m)) in
              let (d, here, e) = In-mark_required ids c cs there in
              (d, here, sym (same ∙ ap (λ k. k.claim_id) e ∙ (mark-same ids d).0));
          some_wanted =
              let (c, m) = some_of_nonempty (required_of (mark_required ids cs)) p.some_required in
              let (there, r) = In-filter (λ d. d.required) c (mark_required ids cs) m in
              let (d, here, e) = In-mark_required ids c cs there in
              (d, here, (mark-IsWanted ids d).0 (ap (λ k. k.required) (sym e) ∙ r));
          all_verified = λ c m w.
              ap is_verified (sym (mark-same ids c).1)
              ∙ p.all_verified (mark ids c) (In-mark_required_of ids c cs m)
                  ((mark-IsWanted ids c).1 w);
          consistent = (mark_required-Consistent canon ids cs).0 p.consistent;
        }

        complete : IsPassing canon expected cs → IsClear canon expected (mark_required ids cs)
        complete p = record {
          recorded = λ id m.
              let (c, there, same) = p.recorded id m in
              contains_of_In id (ids_of (mark_required ids cs)) (
                subst (λ i. In i (ids_of (mark_required ids cs))) ((mark-same ids c).0 ∙ same)
                  (In-map_of (λ (c : Claim V). c.claim_id) (mark ids c) (mark_required ids cs)
                    (In-mark_required_of ids c cs there)));
          some_required =
              let (c, there, w) = p.some_wanted in
              nonempty_of_some (mark ids c) (required_of (mark_required ids cs)) (
                In-filter_of (λ d. d.required) (mark ids c) (mark_required ids cs)
                  (In-mark_required_of ids c cs there) ((mark-IsWanted ids c).1 w));
          all_verified = λ c m r.
              let (d, here, e) = In-mark_required ids c cs m in
              ap (λ k. is_verified k.status) e
              ∙ ap is_verified (mark-same ids d).1
              ∙ p.all_verified d here ((mark-IsWanted ids d).0 (ap (λ k. k.required) (sym e) ∙ r));
          consistent = (mark_required-Consistent canon ids cs).1 p.consistent;
        }

    -- Where the gate returns, the claims have a normal form, and the gate passes exactly when, in that form,
    -- every claim identity declared as required is recorded, some claim is required or declared, every claim
    -- that is required or declared is VERIFIED, and the verified claims are consistent: one value for one
    -- predicate of one subject of one repository, and no verified claim negates a verified claim.
    pub gate_passed_iff :
        (g : Gate V)
        → gate canon raws require_claims expected ≡ ok g
        → (cs : List (Claim V)) × (normalize_all raws ≡ ok cs)
          × ((g.status ≡ passed) ↔ IsPassing canon expected cs)
    gate_passed_iff g h =
        let (cs, n, claims, (sound, complete)) =
          gate_judges canon raws require_claims expected g h in
        let (input, marked) = verdict_iff cs in
        (cs, n, (λ p. input (sound p), λ q. complete (marked q)))

    -- a claim that is verified, with a receipt
    abbrev pub IsReceipted : Claim V → Type 0
    IsReceipted c = (is_verified c.status ≡ true) × (has_receipt c.verifier ≡ true)

    -- Where the gate returns and passes, every claim identity declared as required belongs to a claim of its
    -- result that is required, and every required claim of its result is VERIFIED and holds a verifier receipt.
    pub gate_passed_backed :
        (g : Gate V)
        → gate canon raws require_claims expected ≡ ok g
        → g.status ≡ passed
        → ((id : String)
            → In id (expected_ids expected)
            → (c : Claim V) × In c g.claims × (c.claim_id ≡ id) × (c.required ≡ true))
          × ((c : Claim V) → In c g.claims → c.required ≡ true → IsReceipted c)
    gate_passed_backed g h p = (declared, backed)
      where
        ids : List String
        ids = expected_ids expected

        capable : (d : Claim V) → is_verified d.status ≡ true → is_pass_capable d.status ≡ true
        capable d v = ground arith

        declared :
            (id : String)
            → In id ids
            → (c : Claim V) × In c g.claims × (c.claim_id ≡ id) × (c.required ≡ true)
        declared id m =
            let (cs, n, claims, (sound, complete)) =
              gate_judges canon raws require_claims expected g h in
            let (c, there, same) = ((verdict_iff cs).0 (sound p)).recorded id m in
            (
              mark ids c,
              subst (In (mark ids c)) (sym claims) (In-mark_required_of ids c cs there),
              (mark-same ids c).0 ∙ same,
              (mark-IsWanted ids c).1 (inr (subst (λ i. In i ids) (sym same) m)),
            )

        backed : (c : Claim V) → In c g.claims → c.required ≡ true → IsReceipted c
        backed c m r =
            let (cs, n, claims, (sound, complete)) =
              gate_judges canon raws require_claims expected g h in
            let there = subst (In c) claims m in
            let normal = mark_required-IsNormal ids cs (normalize_all-IsNormal raws cs n) c there in
            let v = (sound p).all_verified c there r in (v, normal.backed (capable c v))
