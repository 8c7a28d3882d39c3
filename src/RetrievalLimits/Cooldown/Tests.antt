-- ===== src/RetrievalLimits/Cooldown/Tests.antt =====
-- One provider that answers "too many requests".
use awoki.Base.Int.{ℤ}
use awoki.Base.{
  ℕ, ◌≤◌, ◌<◌, ◌≡◌, refl, true, String, none, some, [], ◌∷◌, length, is_some, number_equality,
  text_equality, arith,
}
use awoki.RetrievalLimits.Cooldown.{
  Failure, other, provider_unavailable, error_metadata, category_of, deadline_of, put, is_noted,
  note_rate_limit, check_cooldown,
}
use awoki.RetrievalLimits.Cooldown.Ends.{notes, cooldowns_end, noted_cools_down}

abbrev too_many : Failure
too_many = record {
  kind = other;
  status_code = none;
  response_status = some 429;
  retry_after_seconds = none;
  header = some (ℤ.pos 2500000);
}

noted : is_noted too_many ≡ true
unfolding category_of
noted = refl

cools_down : check_cooldown 1000000 "p" (note_rate_limit 0 "p" too_many []).1 ≡ some 2
unfolding category_of note_rate_limit put deadline_of check_cooldown
cools_down = refl

no_status :
    (error_metadata (record too_many { response_status = some 503 })).failure_category
    ≡ provider_unavailable
unfolding category_of
no_status = refl

noted_cools_down_example :
    (1000000 ≤ 2500000)
    × (2500000 ≤ 60000000)
    × ((later : ℕ)
        → later < 2500005
        → is_some (check_cooldown later "p" (note_rate_limit 5 "p" too_many []).1) ≡ true)
    × (0 < 128
        → (later : ℕ) (other : String) → 5 ≤ later
        → is_some (check_cooldown later other []) ≡ true
        → is_some (check_cooldown later other (note_rate_limit 5 "p" too_many []).1) ≡ true)
noted_cools_down_example = noted_cools_down 5 "p" too_many [] noted

cooldowns_end_example :
    (length (notes ((5, "p", too_many) ∷ (9, "q", too_many) ∷ []) []) ≤ 128)
    × ((later : ℕ) (key : String)
        → 60000009 ≤ later
        → check_cooldown later key (notes ((5, "p", too_many) ∷ (9, "q", too_many) ∷ []) []) ≡ none)
cooldowns_end_example =
    cooldowns_end 60000009 ((5, "p", too_many) ∷ (9, "q", too_many) ∷ []) []
      (omega arith, (omega arith, tt)) (omega arith) tt
