-- ===== src/Topic/Tests.antt =====
-- Runs of the topic functions, and their theorems at concrete inputs.
use net_burner_mqtt_broker.Base.{ℕ, ◌≡◌, refl, true, false, List, [], ◌∷◌, ◌++◌, some, none}
use net_burner_mqtt_broker.Topic.{
  topic_valid, filter_valid, topic_matches_filter, next_segment, test_segments, segment_len,
  is_valid_topic_char,
}
use net_burner_mqtt_broker.Topic.Levels.{levels}
use net_burner_mqtt_broker.Topic.Matching.{
  levels_match, last_filled, legal_filter, topic_matches_filter-levels,
}
use net_burner_mqtt_broker.Topic.Validity.{filter_valid_lem, ends_after}
use net_burner_mqtt_broker.Topic.Divergence.{slash, trailing_slash_matches}

-- "a/b", "a/+", "a/#" and "a".
abbrev a_b : List ℕ
a_b = b'a' ∷ b'/' ∷ b'b' ∷ []

abbrev a_plus : List ℕ
a_plus = b'a' ∷ b'/' ∷ b'+' ∷ []

abbrev a_hash : List ℕ
a_hash = b'a' ∷ b'/' ∷ b'#' ∷ []

abbrev a_only : List ℕ
a_only = b'a' ∷ []

-- '#' matches the parent level, '+' does not.
parent_hash : topic_matches_filter (some a_only) (some a_hash) ≡ true
unfolding topic_matches_filter test_segments next_segment segment_len
parent_hash = refl

parent_plus : topic_matches_filter (some a_only) (some a_plus) ≡ false
unfolding topic_matches_filter test_segments next_segment segment_len
parent_plus = refl

a_b-valid : topic_valid (some a_b) ≡ true
unfolding topic_valid is_valid_topic_char
a_b-valid = refl

a_only-valid : topic_valid (some a_only) ≡ true
unfolding topic_valid is_valid_topic_char
a_only-valid = refl

-- A wildcard behind other characters of its level is accepted, and so is '#' with a level behind it.
filter_with_suffix_plus : filter_valid (some (b'a' ∷ b'+' ∷ [])) ≡ true
unfolding filter_valid is_valid_topic_char
filter_with_suffix_plus = refl

filter_with_inner_hash : filter_valid (some (b'#' ∷ b'/' ∷ b'a' ∷ [])) ≡ true
unfolding filter_valid is_valid_topic_char
filter_with_inner_hash = refl

a_b-filled : last_filled (levels a_b) ≡ true
unfolding last_filled levels
a_b-filled = refl

a_plus-filled : last_filled (levels a_plus) ≡ true
unfolding last_filled levels
a_plus-filled = refl

a_plus-legal : legal_filter (levels a_plus) ≡ true
unfolding legal_filter levels
a_plus-legal = refl

topic_matches_filter-levels_example :
    topic_matches_filter (some a_b) (some a_plus) ≡ levels_match (levels a_b) (levels a_plus)
topic_matches_filter-levels_example =
    topic_matches_filter-levels a_b a_plus a_b-filled a_plus-filled a_plus-legal

filter_valid_lem_example : filter_valid (some a_hash) ≡ true
unfolding ends_after
filter_valid_lem_example = filter_valid_lem a_hash

one_level : next_segment a_only ≡ none
unfolding next_segment
one_level = refl

trailing_slash_matches_example :
    (topic_matches_filter (some a_only) (some (a_only ++ slash)) ≡ true)
    × (levels_match (levels a_only) (levels (a_only ++ slash)) ≡ false)
trailing_slash_matches_example = trailing_slash_matches a_only a_only-valid one_level
