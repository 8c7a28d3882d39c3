-- ===== src/Continuity/Journal/Appends.antt =====
-- What is appended to the journal, and when.
use Prim.Native.Nat.{max}
use awoki.Base.Member.{In, In-append_right, In-map_of, In-filter_of, In-contains, contains_of_In}
use awoki.Base.{
  ℕ, zero, suc, ◌-◌, ◌≤◌, ◌≡◌, refl, sym, ap, ◌∙◌, Bool, true, false, not, String, none, some, List,
  [], ◌∷◌, ◌++◌, contains, length, drop, arith, text_equality, eq_iff, ◌==◌, ◌⊎◌, inl, inr,
  Bool-cases, length-append,
}
use awoki.Continuity.Journal.{
  Note, superseded, active_records, active_ids, last_where, appended, duplicate_skipped, recent,
  is_duplicate, written_or, append_record,
}

last_where-cases :
    (p : Note → Bool) (notes : List Note)
    → ((last_where p notes ≡ none) × ((r : Note) → In r notes → p r ≡ false))
      ⊎ ((r : Note) × (last_where p notes ≡ some r) × In r notes × (p r ≡ true))
last_where-cases p [] = inl (refl, λ r m. absurd m)
last_where-cases p (n ∷ notes) = elim (last_where-cases p notes) [
  | inr (r, found, m, holds) ↦ inr (r, rw found, inr m, holds)
  | inl (unfound, fail) ↦ elim (Bool-cases (p n)) [
    | inl holds ↦ inr (n, rw (unfound, holds), inl refl, holds)
    | inr fails ↦ inl (
      rw (unfound, fails),
      λ r m. elim m [ inl same ↦ ap p same ∙ fails | inr there ↦ fail r there ],
    )
  ]
]

module _ (fingerprint : Note → String) (dedupe_recent : ℕ) where
  -- the note is a recent one that is not superseded, and says the same
  abbrev pub IsDuplicate : Note → List Note → Note → Type 0
  IsDuplicate item journal r =
      In r (recent dedupe_recent journal)
      × In r.id (active_ids journal)
      × (fingerprint r ≡ fingerprint item)

  is_duplicate-IsDuplicate :
      (item : Note) (journal : List Note) (r : Note)
      → In r (recent dedupe_recent journal)
      → is_duplicate fingerprint item journal r ≡ true
      → IsDuplicate item journal r
  is_duplicate-IsDuplicate item journal r m h =
      let active : contains (active_ids journal) r.id ≡ true = ground (arith, h) in
      let same : (fingerprint r == fingerprint item) ≡ true = ground (arith, h) in
      (
        m,
        In-contains r.id (active_ids journal) active,
        (eq_iff (fingerprint r) (fingerprint item)).0 same,
      )

  IsDuplicate-is_duplicate :
      (item : Note) (journal : List Note) (r : Note)
      → IsDuplicate item journal r
      → is_duplicate fingerprint item journal r ≡ true
  IsDuplicate-is_duplicate item journal r (m, active, same) = rw (
    contains_of_In r.id (active_ids journal) active,
    (eq_iff (fingerprint r) (fingerprint item)).1 same,
  )

  -- A note is appended to the journal exactly when no recent note of it that is not superseded says the
  -- same; otherwise such a note is returned, and the journal is left as it is.
  pub append_record_cases :
      (item : Note) (journal : List Note)
      → ((append_record fingerprint dedupe_recent item journal
            ≡ (appended item, journal ++ item ∷ []))
          × ((r : Note) → IsDuplicate item journal r → ⊥))
        ⊎ ((r : Note) × (append_record fingerprint dedupe_recent item journal
              ≡ (duplicate_skipped r, journal))
            × IsDuplicate item journal r)
  unfolding append_record
  append_record_cases item journal =
      elim (last_where-cases (is_duplicate fingerprint item journal)
        (recent dedupe_recent journal)) [
          | inl (unfound, fail) ↦ inl (
            ap (written_or item journal) unfound,
            λ r d. cc (fail r d.0, IsDuplicate-is_duplicate item journal r d),
          )
          | inr (r, found, m, holds) ↦ inr (
            r,
            ap (written_or item journal) found,
            is_duplicate-IsDuplicate item journal r m holds,
          )
        ]

  last-In :
      (k : ℕ) (journal : List Note) (item : Note)
      → k ≤ length journal
      → In item (drop k (journal ++ item ∷ []))
  last-In zero journal item few = In-append_right item journal (item ∷ []) (inl refl)
  last-In (suc k) [] item few = absurd (omega (arith, few))
  last-In (suc k) (n ∷ journal) item few = last-In k journal item (omega (arith, few))

  -- Appending one note twice is appending it once, unless it is superseded by then.
  pub append_record_twice :
      (item : Note) (journal : List Note)
      → contains (superseded (journal ++ item ∷ [])) item.id ≡ false
      → (append_record fingerprint dedupe_recent item
          (append_record fingerprint dedupe_recent item journal).1).1
        ≡ (append_record fingerprint dedupe_recent item journal).1
  unfolding active_records
  append_record_twice item journal live = elim (append_record_cases item journal) [
    | inr (r, skipped, d) ↦
        ap (λ j. (append_record fingerprint dedupe_recent item j).1) (ap (λ p. p.1) skipped)
    | inl (written, fresh) ↦
        ap (λ j. (append_record fingerprint dedupe_recent item j).1) (ap (λ p. p.1) written)
        ∙ again (append_record_cases item (journal ++ item ∷ []))
        ∙ sym (ap (λ p. p.1) written)
  ]
    where
      after : List Note
      after = journal ++ item ∷ []

      present : IsDuplicate item after item
      present = (
        last-In (length after - max 1 dedupe_recent) journal item
            (omega (arith, length-append journal (item ∷ []))),
        In-map_of (λ (n : Note). n.id) item (active_records after)
            (In-filter_of (λ n. not (contains (superseded after) n.id)) item after
              (In-append_right item journal (item ∷ []) (inl refl)) (rw live)),
        refl,
      )

      again :
          ((append_record fingerprint dedupe_recent item after
                ≡ (appended item, after ++ item ∷ []))
              × ((r : Note) → IsDuplicate item after r → ⊥))
            ⊎ ((r : Note) × (append_record fingerprint dedupe_recent item after
                  ≡ (duplicate_skipped r, after))
                × IsDuplicate item after r)
          → (append_record fingerprint dedupe_recent item after).1 ≡ after
      again (inl (written, fresh)) = absurd (fresh item present)
      again (inr (r, skipped, d)) = ap (λ p. p.1) skipped
