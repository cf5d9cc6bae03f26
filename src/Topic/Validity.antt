-- ===== src/Topic/Validity.antt =====
-- Which names and filters are accepted, and what that says of matching.
use net_burner_mqtt_broker.Base.{
  ℕ, ◌+◌, ◌≡◌, refl, arith, ◌∙◌, Bool, true, false, ◌==◌, not, leb, ◌&&◌, ◌||◌,
}
use net_burner_mqtt_broker.Base.{
  if◌then◌else◌, List, [], ◌∷◌, some, length, Bool-cases, inl, inr, ==_refl,
}
use net_burner_mqtt_broker.Topic.{
  is_valid_topic_char, topic_chars_valid, topic_valid, filter_chars_valid, filter_valid,
  starts_with, ends_segment, same_bytes, topic_matches_filter,
}
use net_burner_mqtt_broker.Topic.Levels.{levels, prepend}
use net_burner_mqtt_broker.Topic.Matching.{
  levels_match, legal_filter, last_filled, topic_matches_filter-levels,
}

-- A printable ASCII character.
abbrev pub printable : ℕ → Bool
printable c = leb b' ' c && leb c b'~'

abbrev pub all : (ℕ → Bool) → List ℕ → Bool
all p [] = true
all p (c ∷ s) = p c && all p s

abbrev pub occurrences : ℕ → List ℕ → ℕ
occurrences c [] = 0
occurrences c (d ∷ s) = let rest = occurrences c s in if d == c then rest + 1 else rest

-- Behind every `c` the string ends or a '/' stands.
unfoldable pub ends_after : ℕ → List ℕ → Bool
unfolding ends_segment
ends_after c [] = true
ends_after c (d ∷ s) = (not (d == c) || ends_segment s) && ends_after c s

filter_chars :
    (seen : Bool) (s : List ℕ)
    → filter_chars_valid seen s ≡ (
        all printable s
        && ends_after b'#' s
        && ends_after b'+' s
        && leb (occurrences b'#' s) (if seen then 0 else 1))
unfolding filter_chars_valid is_valid_topic_char ends_after
filter_chars true [] = refl
filter_chars false [] = refl
filter_chars true (c ∷ s) = ground (arith, filter_chars true s)
filter_chars false (c ∷ s) = ground (arith, filter_chars true s, filter_chars false s)

-- `filter_valid` accepts exactly the strings that are not empty, are printable ASCII, have at most
-- one '#', and have the end or a '/' behind every '#' and every '+'. What stands before a wildcard
-- is not looked at.
pub filter_valid_lem :
    (s : List ℕ)
    → filter_valid (some s) ≡ (
        leb 1 (length s)
        && all printable s
        && ends_after b'#' s
        && ends_after b'+' s
        && leb (occurrences b'#' s) 1)
unfolding filter_valid
filter_valid_lem [] = refl
filter_valid_lem (c ∷ s) = ground (arith, filter_chars false (c ∷ s))

-- A level that is no wildcard, nor begins as one.
abbrev pub PlainLevels : List (List ℕ) → Type 0
PlainLevels [] = Unit
PlainLevels (l ∷ ls) = (starts_with b'#' l ≡ false) × (starts_with b'+' l ≡ false) × PlainLevels ls

prepend-PlainLevels :
    (c : ℕ) (ls : List (List ℕ))
    → (c == b'#') ≡ false
    → (c == b'+') ≡ false
    → PlainLevels ls
    → PlainLevels (prepend c ls)
unfolding prepend starts_with
prepend-PlainLevels c [] h p q = (h, p, tt)
prepend-PlainLevels c (l ∷ ls) h p (a, b, q) = (h, p, q)

pub levels-PlainLevels : (s : List ℕ) → topic_chars_valid s ≡ true → PlainLevels (levels s)
unfolding levels topic_chars_valid is_valid_topic_char starts_with
levels-PlainLevels [] e = (refl, refl, tt)
levels-PlainLevels (c ∷ s) e = elim (Bool-cases (c == b'/')) [
  | inl slash ↦ rw slash (refl, refl, levels-PlainLevels s (ground arith))
  | inr other ↦ rw other (
      prepend-PlainLevels c (levels s) (ground arith) (ground arith)
        (levels-PlainLevels s (ground arith)))
]

PlainLevels-legal : (ls : List (List ℕ)) → PlainLevels ls → legal_filter ls ≡ true
unfolding legal_filter
PlainLevels-legal [] p = refl
PlainLevels-legal (l ∷ ls) (a, b, p) = ground (arith, PlainLevels-legal ls p)

pub same_bytes_refl : (s : List ℕ) → same_bytes s s ≡ true
unfolding same_bytes
same_bytes_refl [] = refl
same_bytes_refl (c ∷ s) = ground (arith, ==_refl c, same_bytes_refl s)

pub plain_ne_wildcard :
    (l : List ℕ) (c : ℕ) → starts_with c l ≡ false → same_bytes l (c ∷ []) ≡ false
unfolding starts_with same_bytes
plain_ne_wildcard [] c e = refl
plain_ne_wildcard (d ∷ l) c e = ground arith

PlainLevels-match : (ls : List (List ℕ)) → PlainLevels ls → levels_match ls ls ≡ true
unfolding levels_match
PlainLevels-match [] p = refl
PlainLevels-match (l ∷ ls) (a, b, p) = ground (
  arith,
  plain_ne_wildcard l b'#' a,
  plain_ne_wildcard l b'+' b,
  same_bytes_refl l,
  PlainLevels-match ls p,
)

pub topic_valid-chars : (s : List ℕ) → topic_valid (some s) ≡ true → topic_chars_valid s ≡ true
unfolding topic_valid
topic_valid-chars [] e = cc
topic_valid-chars (c ∷ s) e = ground arith

-- A subscription to exactly the name of a valid topic receives it: every valid topic that does not
-- end in '/' is matched by itself as a filter.
pub topic_matches_filter_self :
    (s : List ℕ)
    → topic_valid (some s) ≡ true
    → last_filled (levels s) ≡ true
    → topic_matches_filter (some s) (some s) ≡ true
topic_matches_filter_self s h filled =
    let plain = levels-PlainLevels s (topic_valid-chars s h) in
    topic_matches_filter-levels s s filled filled (PlainLevels-legal (levels s) plain)
    ∙ PlainLevels-match (levels s) plain

topic_chars-filter_chars :
    (seen : Bool) (s : List ℕ) → topic_chars_valid s ≡ true → filter_chars_valid seen s ≡ true
unfolding topic_chars_valid filter_chars_valid is_valid_topic_char
topic_chars-filter_chars true [] e = refl
topic_chars-filter_chars false [] e = refl
topic_chars-filter_chars true (c ∷ s) e = ground (arith, topic_chars-filter_chars true s)
topic_chars-filter_chars false (c ∷ s) e = ground (arith, topic_chars-filter_chars false s)

no_hash : (s : List ℕ) → topic_chars_valid s ≡ true → occurrences b'#' s ≡ 0
unfolding topic_chars_valid is_valid_topic_char
no_hash [] h = refl
no_hash (d ∷ s) h = ground (arith, no_hash s)

no_plus : (s : List ℕ) → topic_chars_valid s ≡ true → occurrences b'+' s ≡ 0
unfolding topic_chars_valid is_valid_topic_char
no_plus [] h = refl
no_plus (d ∷ s) h = ground (arith, no_plus s)

-- Every valid topic name is a valid filter, and contains no wildcard character.
pub topic_valid-filter_valid :
    (s : List ℕ)
    → topic_valid (some s) ≡ true
    → (filter_valid (some s) ≡ true) × (occurrences b'#' s ≡ 0) × (occurrences b'+' s ≡ 0)
unfolding filter_valid
topic_valid-filter_valid [] h = unfold topic_valid in cc
topic_valid-filter_valid (c ∷ s) h =
    let chars = topic_valid-chars (c ∷ s) h in
    (topic_chars-filter_chars false (c ∷ s) chars, no_hash (c ∷ s) chars, no_plus (c ∷ s) chars)
