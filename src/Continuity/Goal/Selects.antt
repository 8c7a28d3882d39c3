-- ===== src/Continuity/Goal/Selects.antt =====
-- When a direction is selected.
use awoki.Base.Member.{In, In-filter, In-filter_of, In-contains, contains_of_In, filter-nil}
use awoki.Base.{
  ◌≡◌, ◌↔◌, refl, sym, ap, ◌∙◌, Bool, true, false, not, ◌&&◌, ◌||◌, String, List, [], ◌∷◌, any,
  contains, length, is_nonempty, ltb, text_equality, eq_iff, ◌==◌, arith, inl, inr, Bool-cases,
  if◌then◌else◌, ok, raise_if, bind-eq-ok, ok-injective,
}
use awoki.Continuity.Journal.{Note}
use awoki.Continuity.Projection.{unsaved, saved, ambiguous, unknown, Projection}
use awoki.Continuity.Lineage.{related_of, direction_lineage}
use awoki.Continuity.Lineage.Related.{Descends, related_iff}
use awoki.Continuity.Goal.{
  open_rows, is_view_safe, safe_rows, directions, changed_kind, is_hidden, status_of, projection_of,
  goal_projection,
}

lineage-related :
    (notes : List Note) (lineage : List String)
    → direction_lineage notes ≡ ok lineage
    → lineage ≡ related_of notes
unfolding direction_lineage
lineage-related notes lineage h =
    let (u, acyclic, last) = bind-eq-ok (λ u. ok (related_of notes)) (raise_if _ _) lineage h in
    sym (ok-injective (related_of notes) lineage last)

one_of_few :
    (ds : List Note)
    → ltb 1 (length ds) ≡ false
    → is_nonempty ds ≡ true
    → (d : Note) × (ds ≡ d ∷ [])
one_of_few [] few some_ = cc
one_of_few (d ∷ []) few some_ = (d, refl)
one_of_few (d ∷ e ∷ ds) few some_ = absurd (ground (arith, few))

any-false :
    (p : Note → Bool) (notes : List Note)
    → (any p notes ≡ false) ↔ ((n : Note) → In n notes → p n ≡ false)
any-false p [] = (λ h n m. absurd m, λ h. refl)
any-false p (x ∷ notes) = elim (Bool-cases (p x)) [
  | inl holds ↦ (λ h. cc (rw holds at h), λ h. cc (holds, h x (inl refl)))
  | inr fails ↦ (
    λ h n m. elim m [
      | inl same ↦ rw same fails
      | inr there ↦ (any-false p notes).0 (rw fails at h) n there
    ],
    λ h. rw fails ((any-false p notes).1 (λ n m. h n (inr m))),
  )
]

status_saved :
    (lineage : List String) (notes : List Note)
    → (status_of lineage notes ≡ saved) ↔ (
        (is_hidden lineage notes ≡ false)
        × (ltb 1 (length (directions notes)) ≡ false)
        × (is_nonempty (changed_kind lineage notes) ≡ false)
        × (is_nonempty (directions notes) ≡ true))
status_saved lineage notes =
    ladder (is_hidden lineage notes) (ltb 1 (length (directions notes)))
      (is_nonempty (changed_kind lineage notes)) (is_nonempty (directions notes))
  where
    ladder :
        (h m c d : Bool)
        → ((if h then unknown else if m || c then ambiguous else if d then saved else unsaved)
            ≡ saved)
          ↔ ((h ≡ false) × (m ≡ false) × (c ≡ false) × (d ≡ true))
    ladder h m c d = (λ e. ground arith, λ (a, b, e, f). ground arith)

module _ (notes : List Note) where
  -- every open note that descends from a direction can be shown, and is a direction
  abbrev pub IsPlain : Type 0
  IsPlain =
      (n : Note)
      → In n (open_rows notes)
      → Descends notes n.id
      → (is_view_safe n ≡ true) × (n.kind ≡ "direction")

  plain_iff :
      ((is_hidden (related_of notes) notes ≡ false)
        × (is_nonempty (changed_kind (related_of notes) notes) ≡ false))
      ↔ IsPlain
  plain_iff = (sound, complete)
    where
      sound :
          (is_hidden (related_of notes) notes ≡ false)
            × (is_nonempty (changed_kind (related_of notes) notes) ≡ false)
          → IsPlain
      sound (seen, same) n m d =
          let known = contains_of_In n.id (related_of notes) ((related_iff notes n.id).1 d) in
          let view =
            (any-false (λ n. contains (related_of notes) n.id && not (is_view_safe n))
                (open_rows notes)).0
              seen n m in
          let safe : is_view_safe n ≡ true =
            shown (contains (related_of notes) n.id) (is_view_safe n) known view in
          let kind =
            (filter-nil (λ n. contains (related_of notes) n.id && not (n.kind == "direction"))
                (safe_rows notes)).0
              same n (In-filter_of is_view_safe n (open_rows notes) m safe) in
          (
            safe,
            (eq_iff n.kind "direction").0
                (shown (contains (related_of notes) n.id) (n.kind == "direction") known kind),
          )
        where
          shown : (b c : Bool) → b ≡ true → (b && not c) ≡ false → c ≡ true
          shown b c h k = ground arith

      complete :
          IsPlain
          → (is_hidden (related_of notes) notes ≡ false)
            × (is_nonempty (changed_kind (related_of notes) notes) ≡ false)
      complete plain = (
        (any-false (λ n. contains (related_of notes) n.id && not (is_view_safe n))
              (open_rows notes)).1
            (λ n m. hides n (λ k.
              (plain n m ((related_iff notes n.id).0 (In-contains n.id (related_of notes) k))).0)),
        (filter-nil (λ n. contains (related_of notes) n.id && not (n.kind == "direction"))
              (safe_rows notes)).1
            (λ n m.
              let (there, safe) = In-filter is_view_safe n (open_rows notes) m in
              changes n (λ k.
                (eq_iff n.kind "direction").1
                  (plain n there
                    ((related_iff notes n.id).0 (In-contains n.id (related_of notes) k))).1)),
      )
        where
          implied : (b c : Bool) → (b ≡ true → c ≡ true) → (b && not c) ≡ false
          implied true c h = rw (h refl)
          implied false c h = refl

          hides :
              (n : Note)
              → (contains (related_of notes) n.id ≡ true → is_view_safe n ≡ true)
              → (contains (related_of notes) n.id && not (is_view_safe n)) ≡ false
          hides n h = implied (contains (related_of notes) n.id) (is_view_safe n) h

          changes :
              (n : Note)
              → (contains (related_of notes) n.id ≡ true → (n.kind == "direction") ≡ true)
              → (contains (related_of notes) n.id && not (n.kind == "direction")) ≡ false
          changes n h = implied (contains (related_of notes) n.id) (n.kind == "direction") h

  -- Where the saved direction is projected, it counts as saved exactly when one open note that can be shown
  -- is a direction, and every open note that descends from a direction by superseding can be shown and is
  -- a direction: otherwise no direction is selected.
  pub goal_saved_iff :
      (redact : String → String) (project_id : String) (p : Projection)
      → goal_projection redact project_id notes ≡ ok p
      → (p.status ≡ saved) ↔ (((d : Note) × (directions notes ≡ d ∷ [])) × IsPlain)
  unfolding goal_projection
  goal_saved_iff redact project_id p h =
      let (lineage, found, last) =
        bind-eq-ok (λ l. ok (projection_of redact project_id notes l)) (direction_lineage notes) p
          h in
      let same : p.status ≡ status_of (related_of notes) notes =
        ap (λ (q : Projection). q.status)
          (sym (ok-injective (projection_of redact project_id notes lineage) p last))
        ∙ ap (λ l. status_of l notes) (lineage-related notes lineage found) in
      let (sound, complete) = status_saved (related_of notes) notes in
      (
        λ s.
            let (seen, few, kept, some_) = sound (sym same ∙ s) in
            (one_of_few (directions notes) few some_, plain_iff.0 (seen, kept)),
        λ q.
            let ((d, one), plain) = q in
            let (seen, kept) = plain_iff.1 plain in
            same
            ∙ complete
                (seen, ap (λ (ds : List Note). ltb 1 (length ds)) one, kept, ap is_nonempty one),
      )
