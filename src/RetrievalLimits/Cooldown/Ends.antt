-- ===== src/RetrievalLimits/Cooldown/Ends.antt =====
-- A cooldown begins, and ends.
use Prim.Native.Nat.{max}
use mathlib.Core.Path.{subst}
use awoki.Base.{
  ℕ, ◌+◌, ◌-◌, ◌≤◌, ◌<◌, ◌≡◌, ◌↔◌, refl, ap, true, false, String, none, List, [], ◌∷◌, length,
  filter, is_some, leb, ltb, number_equality, text_equality, eq_iff, ◌==◌, Bool-cases, inl, inr,
  arith,
}
use awoki.RetrievalLimits.Cooldown.{
  Failure, Table, deadline_of, put, evicted, pause_of, is_noted, note_rate_limit, check_cooldown,
}
use awoki.RetrievalLimits.Cooldown.Deadlines.{
  AllBelow, deadline_of-put, deadline_of-put_other, length-put-le, deadline_of-live,
  AllBelow-filter, AllBelow-put, deadline_of-below, length-filter-le, evicted-room,
}

alone_iff :
    (later : ℕ) (key : String) (table : Table)
    → (is_some (check_cooldown later key table) ≡ true) ↔ (later < deadline_of key table)
unfolding check_cooldown
alone_iff later key table = elim (Bool-cases (ltb 0 (deadline_of key table - later))) [
  | inl alone ↦ rw alone (λ h. ground (arith, alone), λ h. refl)
  | inr free ↦ rw free (λ h. cc, λ h. absurd (ground (arith, free, h)))
]

free_of :
    (later : ℕ) (key : String) (table : Table)
    → deadline_of key table ≤ later
    → check_cooldown later key table ≡ none
unfolding check_cooldown
free_of later key table over =
    let free : ltb 0 (deadline_of key table - later) ≡ false = ground (arith, over) in rw free

evicted_of_room : (table : Table) → length table < 128 → evicted table ≡ table
evicted_of_room [] room = refl
evicted_of_room (entry ∷ table) room =
    let free : leb 128 (length (entry ∷ table)) ≡ false = ground (arith, room) in rw free

-- the deadline of a provider that is noted, and those of the others
noted_deadlines :
    (now : ℕ) (key : String) (f : Failure) (table : Table)
    → is_noted f ≡ true
    → let after = (note_rate_limit now key f table).1 in
      (now + pause_of f ≤ deadline_of key after)
      × (length (filter (λ e. ltb now e.1) table) < 128
          → (other : String) → now < deadline_of other table
          → deadline_of other table ≤ deadline_of other after)
unfolding note_rate_limit
noted_deadlines now key f table noted =
    let live = filter (λ e. ltb now e.1) table in
    let t = max (deadline_of key (evicted live)) (now + pause_of f) in
    let own = deadline_of-put key t (evicted live) in
    rw noted (
      omega (arith, own),
      λ room other alone.
          let same = ap (deadline_of other) (evicted_of_room live room) in
          let kept = deadline_of-live now other table alone in
          elim (Bool-cases (key == other)) [
            | inl e ↦
                let k : key ≡ other = (eq_iff key other).0 e in
                let mine : deadline_of other (put key t (evicted live)) ≡ t =
                  subst (λ o. deadline_of o (put key t (evicted live)) ≡ t) k own in
                let before : deadline_of key (evicted live) ≡ deadline_of other (evicted live) =
                  ap (λ o. deadline_of o (evicted live)) k in
                omega (arith, mine, before, same, kept)
            | inr differ ↦
                omega (arith, deadline_of-put_other key other t (evicted live) differ, same, kept)
          ],
    )

-- Notes of failures, each with its time and its provider.
pub notes : List (ℕ × String × Failure) → Table → Table
notes [] table = table
notes ((now, key, f) ∷ rest) table = notes rest (note_rate_limit now key f table).1

abbrev pub AllNoted : ℕ → List (ℕ × String × Failure) → Type 0
AllNoted u [] = Unit
AllNoted u ((now, key, f) ∷ rest) = (now + 60000000 ≤ u) × AllNoted u rest

note_rate_limit-below :
    (u now : ℕ) (key : String) (f : Failure) (table : Table)
    → now + 60000000 ≤ u
    → length table ≤ 128
    → AllBelow u table
    → (length (note_rate_limit now key f table).1 ≤ 128)
      × AllBelow u (note_rate_limit now key f table).1
unfolding note_rate_limit
note_rate_limit-below u now key f table soon few below =
    let live = filter (λ e. ltb now e.1) table in
    let (room, kept) =
      evicted-room u live (omega (arith, few, length-filter-le (λ e. ltb now e.1) table))
        (AllBelow-filter u (λ e. ltb now e.1) table below) in
    let t = max (deadline_of key (evicted live)) (now + pause_of f) in
    let short : pause_of f ≤ 60000000 = omega arith in
    let near : t ≤ u = omega (arith, soon, short, deadline_of-below u key (evicted live) kept) in
    elim (Bool-cases (is_noted f)) [
      | inr skipped ↦ rw skipped (few, below)
      | inl noted ↦ rw noted (
        omega (arith, room, length-put-le key t (evicted live)),
        AllBelow-put u key t (evicted live) near kept,
      )
    ]

-- The table never holds more than 128 providers, and a minute after the last failure that is noted no
-- provider is left alone any more, whatever was noted.
pub cooldowns_end :
    (u : ℕ) (rest : List (ℕ × String × Failure)) (table : Table)
    → AllNoted u rest
    → length table ≤ 128
    → AllBelow u table
    → (length (notes rest table) ≤ 128)
      × ((later : ℕ) (key : String)
          → u ≤ later
          → check_cooldown later key (notes rest table) ≡ none)
unfolding notes
cooldowns_end u [] table all_ few below = (
  few,
  λ later key late.
      free_of later key table (omega (arith, late, deadline_of-below u key table below)),
)
cooldowns_end u ((now, key, f) ∷ rest) table (soon, all_) few below =
    let (few', below') = note_rate_limit-below u now key f table soon few below in
    cooldowns_end u rest (note_rate_limit now key f table).1 all_ few' below'

-- A failure that is noted leaves its provider alone from then on for the pause that the failure asks for,
-- at least a second and at most a minute; and as long as fewer than 128 providers are left alone, nobody
-- is left alone for less time than before.
pub noted_cools_down :
    (now : ℕ) (key : String) (f : Failure) (table : Table)
    → is_noted f ≡ true
    → let after = (note_rate_limit now key f table).1 in
      (1000000 ≤ pause_of f)
      × (pause_of f ≤ 60000000)
      × ((later : ℕ) → later < now + pause_of f → is_some (check_cooldown later key after) ≡ true)
      × (length (filter (λ e. ltb now e.1) table) < 128
          → (later : ℕ) (other : String) → now ≤ later
          → is_some (check_cooldown later other table) ≡ true
          → is_some (check_cooldown later other after) ≡ true)
noted_cools_down now key f table noted =
    let after = (note_rate_limit now key f table).1 in
    let (own, others) = noted_deadlines now key f table noted in
    (
      omega arith,
      omega arith,
      λ later soon. (alone_iff later key after).1 (omega (arith, own, soon)),
      λ room later other go alone.
          let before = (alone_iff later other table).0 alone in
          (alone_iff later other after).1
            (omega (arith, before, others room other (omega (arith, go, before)))),
    )
