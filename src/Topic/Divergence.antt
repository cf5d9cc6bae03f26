-- ===== src/Topic/Divergence.antt =====
-- The matching code and section 4.7 on a filter that ends in an empty level.
use net_burner_mqtt_broker.Base.{ℕ, ◌≡◌, refl, arith, ap, ◌∙◌, true, false, ◌==◌}
use net_burner_mqtt_broker.Base.{List, [], ◌∷◌, ◌++◌, none, some, Bool-cases, inl, inr}
use net_burner_mqtt_broker.Topic.{
  topic_valid, next_segment, topic_matches_filter, matches_within, test_segments, same_bytes,
}
use net_burner_mqtt_broker.Topic.Levels.{
  levels, levels-last, levels-next, first_level, first_level-whole, first_level_cons,
  first_level_slash,
}
use net_burner_mqtt_broker.Topic.Matching.Heads.{legal_level, rest_levels}
use net_burner_mqtt_broker.Topic.Matching.{levels_match, test_segments-levels}
use net_burner_mqtt_broker.Topic.Validity.{
  same_bytes_refl, levels-PlainLevels, PlainLevels, plain_ne_wildcard, topic_valid-chars,
}

abbrev pub slash : List ℕ
slash = b'/' ∷ []

next-slash : (s : List ℕ) → next_segment s ≡ none → next_segment (s ++ slash) ≡ some []
unfolding next_segment
next-slash [] e = refl
next-slash (c ∷ s) e = ground (arith, next-slash s)

first-slash : (s : List ℕ) → next_segment s ≡ none → first_level (s ++ slash) ≡ s
unfolding next_segment
first-slash [] e = first_level_slash b'/' [] refl
first-slash (c ∷ s) e = elim (Bool-cases (c == b'/')) [
  | inl is_slash ↦ ground arith
  | inr other ↦
      first_level_cons c (s ++ slash) other ∙ ap (λ l. c ∷ l) (first-slash s (ground arith))
]

-- A filter that is a one-level topic name with a '/' behind it has two levels, the second empty, and
-- so matches no such topic by section 4.7; the code answers that it matches.
pub trailing_slash_matches :
    (s : List ℕ)
    → topic_valid (some s) ≡ true
    → next_segment s ≡ none
    → (topic_matches_filter (some s) (some (s ++ slash)) ≡ true)
      × (levels_match (levels s) (levels (s ++ slash)) ≡ false)
unfolding topic_matches_filter matches_within levels_match
trailing_slash_matches [] h one = unfold topic_valid in cc
trailing_slash_matches (t ∷ ts) h one = (
  ground (arith, goes_on, next-slash (t ∷ ts) one),
  rw
      (
        levels-last (t ∷ ts) one,
        levels-next (t ∷ ts ++ slash) [] (next-slash (t ∷ ts) one),
        first-slash (t ∷ ts) one,
        first_level-whole (t ∷ ts) one,
      )
      (ground (
        arith,
        plain_ne_wildcard (t ∷ ts) b'#' plain.0,
        plain_ne_wildcard (t ∷ ts) b'+' plain.1,
        same_bytes_refl (t ∷ ts),
        levels_nil,
      )),
)
  where
    plain : PlainLevels ((t ∷ ts) ∷ [])
    plain =
        rw (levels-last (t ∷ ts) one, first_level-whole (t ∷ ts) one) at
          (levels-PlainLevels (t ∷ ts) (topic_valid-chars (t ∷ ts) h))

    levels_nil : levels_match [] (levels []) ≡ false
    levels_nil = unfold levels same_bytes in refl

    legal :
        legal_level (first_level (t ∷ ts ++ slash)) (rest_levels (next_segment (t ∷ ts ++ slash)))
        ≡ true
    legal = rw (first-slash (t ∷ ts) one) (unfold legal_level in ground (arith, plain))

    goes_on : test_segments t ts t (ts ++ slash) ≡ none
    goes_on =
        test_segments-levels t t ts (ts ++ slash) legal
        ∙ rw (first-slash (t ∷ ts) one, first_level-whole (t ∷ ts) one)
            (ground (
              arith,
              plain_ne_wildcard (t ∷ ts) b'#' plain.0,
              plain_ne_wildcard (t ∷ ts) b'+' plain.1,
              same_bytes_refl (t ∷ ts),
            ))
