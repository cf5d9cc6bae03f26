-- ===== src/Topic.antt =====
-- The static functions of libs/mqtt_broker/src/topic_trie.cpp: which topic names and filters are
-- legal, and which topics a filter matches. A C string is the list of its characters before the
-- NUL, and a null pointer is `none`; characters above 127 are rejected whatever the sign of `char`.
pub mod Levels
pub mod Matching
pub mod Validity
pub mod Divergence
mod Tests
use net_burner_mqtt_broker.Base.{ℕ, zero, suc, ◌+◌, Bool, true, false, ◌&&◌, ◌||◌, not, leb, ◌==◌}
use net_burner_mqtt_broker.Base.{if◌then◌else◌, List, [], ◌∷◌, Option, none, some, length, take}
use mathlib.Core.Option

unfoldable pub is_valid_topic_char : ℕ → Bool → Bool
is_valid_topic_char c is_filter =
    if c == 0 then false else if c == b'+' || c == b'#' then is_filter else leb b' ' c && leb c b'~'

-- What follows the first '/', if there is one.
unfoldable pub next_segment : List ℕ → Option (List ℕ)
next_segment [] = none
next_segment (c ∷ s) = if c == b'/' then some s else next_segment s

unfoldable pub segment_len : List ℕ → ℕ
segment_len [] = 0
segment_len (c ∷ s) = if c == b'/' then 0 else segment_len s + 1

pub topic_chars_valid : List ℕ → Bool
topic_chars_valid [] = true
topic_chars_valid (c ∷ s) = is_valid_topic_char c false && topic_chars_valid s

unfoldable pub starts_with : ℕ → List ℕ → Bool
starts_with c [] = false
starts_with c (d ∷ s) = d == c

unfoldable pub topic_valid : Option (List ℕ) → Bool
unfolding topic_chars_valid starts_with
topic_valid none = false
topic_valid (some []) = false
topic_valid (some (c ∷ s)) = if starts_with b'/' (c ∷ s) then false else topic_chars_valid (c ∷ s)

-- `p[1]` is the end of the string or a '/'.
pub ends_segment : List ℕ → Bool
ends_segment [] = true
ends_segment (c ∷ s) = c == b'/'

pub filter_chars_valid : Bool → List ℕ → Bool
unfolding ends_segment
filter_chars_valid hash_seen [] = true
filter_chars_valid hash_seen (c ∷ s) =
    let rest = filter_chars_valid (hash_seen || c == b'#') s in
    if not (is_valid_topic_char c true)
    then false
    else if c == b'#' && hash_seen
    then false
    else if c == b'#' && not (ends_segment s)
    then false
    else if c == b'+' && not (ends_segment s)
    then false
    else rest

unfoldable pub filter_valid : Option (List ℕ) → Bool
unfolding filter_chars_valid
filter_valid none = false
filter_valid (some []) = false
filter_valid (some (c ∷ s)) = filter_chars_valid false (c ∷ s)

-- `memcmp` of equally long prefixes.
unfoldable pub same_bytes : List ℕ → List ℕ → Bool
same_bytes [] [] = true
same_bytes (a ∷ x) (b ∷ y) = a == b && same_bytes x y
same_bytes _ _ = false

unfoldable pub is_empty : List ℕ → Bool
is_empty [] = true
is_empty (c ∷ s) = false

pub is_none : Option (List ℕ) → Bool
is_none none = true
is_none (some s) = false

-- The tests of `topic_matches_filter` on two strings that are not empty: `some` is an answer that it
-- returns, and `none` stands for going on to the next segments.
pub test_segments : ℕ → List ℕ → ℕ → List ℕ → Option Bool
unfolding is_empty same_bytes ends_segment
test_segments t ts f fs =
    if f == b'#' && is_empty fs
    then some true
    else if f == b'+'
    then (if not (segment_len (f ∷ fs) == 1) || not (ends_segment fs) then some false else none)
    else if f == b'#'
    then some true
    else let tlen = segment_len (t ∷ ts) in
      if not (tlen == segment_len (f ∷ fs))
        || not (same_bytes (take tlen (t ∷ ts)) (take tlen (f ∷ fs)))
      then some false
      else none

-- `topic_matches_filter`, on strings that are not null. Each call within takes a shorter filter, so
-- `length filter` + 1 rounds of fuel are enough.
pub matches_within : ℕ → List ℕ → List ℕ → Bool
unfolding is_none test_segments
matches_within zero topic filter = false
matches_within (suc fuel) topic [] = is_empty topic
matches_within (suc fuel) [] (f ∷ fs) = f == b'#' && is_empty fs
matches_within (suc fuel) (t ∷ ts) (f ∷ fs) =
    let deeper : Bool = elim (next_segment (f ∷ fs)) [
      | none ↦ is_none (next_segment (t ∷ ts))
      | some filter_next ↦
          matches_within fuel (Option.get_or (next_segment (t ∷ ts)) []) filter_next
    ] in
    elim (test_segments t ts f fs) [ some answer ↦ answer | none ↦ deeper ]

unfoldable pub topic_matches_filter : Option (List ℕ) → Option (List ℕ) → Bool
unfolding matches_within
topic_matches_filter none filter = false
topic_matches_filter (some topic) none = false
topic_matches_filter (some topic) (some filter) = matches_within (suc (length filter)) topic filter
