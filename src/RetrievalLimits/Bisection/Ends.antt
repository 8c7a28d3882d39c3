-- ===== src/RetrievalLimits/Bisection/Ends.antt =====
-- The search ends, and finds a length that fits while the next one does not.
use awoki.Base.{
  ℕ, zero, suc, ◌+◌, ◌-◌, ◌*◌, ◌/◌, ◌≤◌, ◌<◌, ◌≡◌, refl, Bool, true, false, ltb, Bool-cases, inl,
  inr, ◌⊎◌, arith,
}
use awoki.RetrievalLimits.Bisection.{halved, bisect}

-- 2 ^ n
abbrev pub power : ℕ → ℕ
power zero = 1
power (suc n) = 2 * power n

pub lt-power : (n : ℕ) → n < power n
lt-power zero = omega arith
lt-power (suc n) = omega (arith, lt-power n)

module _ (fits : ℕ → Bool) where
  -- a round leaves at most half of the distance, between the old ends
  halved-half :
      (low high : ℕ)
      → low < high
      → (low ≤ (halved fits low high).0)
        × ((halved fits low high).0 ≤ (halved fits low high).1)
        × ((halved fits low high).1 ≤ high)
        × (2 * ((halved fits low high).1 - (halved fits low high).0) ≤ high - low)
  halved-half low high open_ = elim (Bool-cases (fits ((low + high + 1) / 2))) [
    | inl y ↦ rw y (omega arith, omega arith, omega arith, omega arith)
    | inr n ↦ rw n (omega arith, omega arith, omega arith, omega arith)
  ]

  -- The search is over after as many rounds as the logarithm of the distance: its ends meet.
  pub bisect_ends :
      (rounds low high : ℕ)
      → low ≤ high
      → high - low < power rounds
      → (bisect fits rounds low high).0 ≡ (bisect fits rounds low high).1
  unfolding bisect
  bisect_ends zero low high ordered near = omega (arith, ordered, near)
  bisect_ends (suc rounds) low high ordered near = elim (Bool-cases (ltb low high)) [
    | inl open_ ↦
        let (a, b, c, d) = halved-half low high (ground (arith, open_)) in
        rw open_ (
          bisect_ends rounds (halved fits low high).0 (halved fits low high).1 b
            (omega (arith, d, near)))
    | inr stop ↦ rw stop (ground (arith, stop, ordered))
  ]

  -- the length at the lower end fits, unless it is 0, and the one behind the upper end does not, unless
  -- it is the first
  abbrev Spans : (bound low high : ℕ) → Type 0
  Spans bound low high =
      (low ≤ high)
      × (high ≤ bound)
      × ((low ≡ 0) ⊎ (fits low ≡ true))
      × ((high ≡ bound) ⊎ (fits (suc high) ≡ false))

  halved-Spans :
      (bound low high : ℕ)
      → low < high
      → Spans bound low high
      → Spans bound (halved fits low high).0 (halved fits low high).1
  halved-Spans bound low high open_ (ordered, bounded, below, above) =
      elim (Bool-cases (fits ((low + high + 1) / 2))) [
        | inl y ↦ rw y (omega (arith, open_), bounded, inr y, above)
        | inr n ↦
            let next : suc ((low + high + 1) / 2 - 1) ≡ (low + high + 1) / 2 =
              omega (arith, open_) in
            rw n (omega (arith, open_), omega (arith, open_, bounded), below, inr (rw next n))
      ]

  bisect-Spans :
      (rounds bound low high : ℕ)
      → Spans bound low high
      → Spans bound (bisect fits rounds low high).0 (bisect fits rounds low high).1
  unfolding bisect
  bisect-Spans zero bound low high span = span
  bisect-Spans (suc rounds) bound low high span = elim (Bool-cases (ltb low high)) [
    | inl open_ ↦ rw open_ (
        bisect-Spans rounds bound (halved fits low high).0 (halved fits low high).1
          (halved-Spans bound low high (ground (arith, open_)) span))
    | inr stop ↦ rw stop span
  ]

  -- The search from 0 up to a bound gives a length that fits, or 0, while the next length does not fit, or
  -- is over the bound.
  pub bisect-found :
      (bound : ℕ)
      → let r = (bisect fits bound 0 bound).0 in
        (r ≤ bound) × ((r ≡ 0) ⊎ (fits r ≡ true)) × ((r ≡ bound) ⊎ (fits (suc r) ≡ false))
  bisect-found bound =
      let (ordered, bounded, below, above) =
        bisect-Spans bound bound 0 bound (omega arith, omega arith, inl refl, inl refl) in
      let meet = bisect_ends bound 0 bound (omega arith) (omega (arith, lt-power bound)) in
      (omega (arith, ordered, bounded), below, rw meet above)
