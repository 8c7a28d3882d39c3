-- ===== src/Reliability/Finish/Verdicts.antt =====
-- When the component ledgers together count as passed.
use awoki.Base.Member.{In}
use awoki.Base.{
  ◌≡◌, ◌↔◌, ◌⊎◌, refl, sym, Bool, true, false, not, ◌&&◌, Option, List, [], ◌∷◌, any, all,
  is_nonempty, Bool-cases, inl, inr, arith, Raises, ok, err, ok-injective, if◌then◌else◌,
}
use awoki.Reliability.State.{RunStatus, RunError, no_component}
use awoki.Reliability.Finish.{
  Verdict, passed, not_passed, blocked, incomplete, not_applicable, is_verdict, overall,
  AcceptanceStatus, components, aggregate_verdict,
}

-- a verdict that does not stand in the way
abbrev pub Agrees : Verdict → Type 0
Agrees v = (v ≡ passed) ⊎ (v ≡ not_applicable)

abbrev pub Unanimous : List Verdict → Type 0
Unanimous vs = In passed vs × ((v : Verdict) → In v vs → Agrees v)

none_against : List Verdict → Bool
none_against vs =
    not (any (is_verdict not_passed) vs)
    && not (any (is_verdict blocked) vs)
    && not (any (is_verdict incomplete) vs)

Agrees-first : (w : Verdict) (vs : List Verdict) → none_against (w ∷ vs) ≡ true → Agrees w
unfolding none_against
Agrees-first passed vs h = inl refl
Agrees-first not_applicable vs h = inr refl
Agrees-first not_passed vs h = cc
Agrees-first blocked vs h = ground arith
Agrees-first incomplete vs h = ground arith

none_against-tail :
    (w : Verdict) (vs : List Verdict) → none_against (w ∷ vs) ≡ true → none_against vs ≡ true
unfolding none_against
none_against-tail w vs h = ground arith

none_against-cons :
    (w : Verdict) (vs : List Verdict)
    → Agrees w
    → none_against vs ≡ true
    → none_against (w ∷ vs) ≡ true
unfolding none_against
none_against-cons w vs (inl p) h = rw (p, h)
none_against-cons w vs (inr p) h = rw (p, h)

Agrees-of_none_against :
    (vs : List Verdict) → none_against vs ≡ true → (v : Verdict) → In v vs → Agrees v
Agrees-of_none_against [] h v m = absurd m
Agrees-of_none_against (w ∷ vs) h v (inl same) = rw same (Agrees-first w vs h)
Agrees-of_none_against (w ∷ vs) h v (inr m) =
    Agrees-of_none_against vs (none_against-tail w vs h) v m

none_against_of_Agrees :
    (vs : List Verdict) → ((v : Verdict) → In v vs → Agrees v) → none_against vs ≡ true
unfolding none_against
none_against_of_Agrees [] h = refl
none_against_of_Agrees (w ∷ vs) h =
    none_against-cons w vs (h w (inl refl)) (none_against_of_Agrees vs (λ v m. h v (inr m)))

In-passed :
    (vs : List Verdict)
    → ((v : Verdict) → In v vs → Agrees v)
    → all (is_verdict not_applicable) vs ≡ false
    → In passed vs
In-passed [] h a = cc
In-passed (w ∷ vs) h a = elim (h w (inl refl)) [
  | inl p ↦ inl (sym p)
  | inr p ↦ inr (In-passed vs (λ v m. h v (inr m)) (rw p at a))
]

not_all : (vs : List Verdict) → In passed vs → all (is_verdict not_applicable) vs ≡ false
not_all [] m = absurd m
not_all (w ∷ vs) (inl same) = rw (sym same)
not_all (w ∷ vs) (inr m) = ground (arith, not_all vs m)

overall-passed :
    (vs : List Verdict)
    → is_nonempty vs ≡ true
    → overall vs ≡ passed
    → (none_against vs ≡ true) × (all (is_verdict not_applicable) vs ≡ false)
unfolding overall none_against
overall-passed vs n h = ground arith

overall_of_unanimous :
    (vs : List Verdict)
    → none_against vs ≡ true
    → all (is_verdict not_applicable) vs ≡ false
    → overall vs ≡ passed
unfolding overall none_against
overall_of_unanimous vs n h = ground arith

nonempty_of_In : (v : Verdict) (vs : List Verdict) → In v vs → is_nonempty vs ≡ true
nonempty_of_In v [] m = absurd m
nonempty_of_In v (w ∷ vs) m = refl

-- The aggregate verdict is passed exactly when some named ledger passed and every other named ledger
-- passed too or was not applicable.
pub aggregate_passed_iff :
    (reliability_run : Option RunStatus) (acceptance_run : Option (Option AcceptanceStatus))
    → (aggregate_verdict reliability_run acceptance_run ≡ ok passed)
      ↔ Unanimous (components reliability_run acceptance_run)
unfolding aggregate_verdict
aggregate_passed_iff reliability_run acceptance_run = (sound, complete)
  where
    vs : List Verdict
    vs = components reliability_run acceptance_run

    verdict : Raises RunError Verdict
    verdict = if is_nonempty vs then ok (overall vs) else err no_component

    sound : verdict ≡ ok passed → Unanimous vs
    sound h = elim (Bool-cases (is_nonempty vs)) [
      | inl n ↦
          let (clear, mixed) = overall-passed vs n (ok-injective (overall vs) passed (rw n at h)) in
          let agrees = Agrees-of_none_against vs clear in (In-passed vs agrees mixed, agrees)
      | inr e ↦ cc (rw e at h)
    ]

    complete : Unanimous vs → verdict ≡ ok passed
    complete (m, agrees) = rw (
      nonempty_of_In passed vs m,
      overall_of_unanimous vs (none_against_of_Agrees vs agrees) (not_all vs m),
    )
