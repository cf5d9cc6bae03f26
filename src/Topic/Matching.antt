-- ===== src/Topic/Matching.antt =====
-- Which topics a filter matches, level by level as MQTT 5 section 4.7.1 says it, against the code's
-- walk over the two strings.
pub mod Heads
use Heads.{
  hash, plus, is_last, hash_alone, plus_alone, literal_head, rest_levels, levels-step, legal_level,
  same_bytes-length,
}
use net_burner_mqtt_broker.Base.{
  ℕ, zero, suc, ◌+◌, ◌≤◌, ◌<◌, ◌≡◌, refl, arith, ap, sym, ◌∙◌, Bool, true, false, ◌==◌, not, ◌&&◌,
  ◌||◌,
}
use net_burner_mqtt_broker.Base.{
  if◌then◌else◌, List, [], ◌∷◌, ◌++◌, Option, none, some, length, take, Bool-cases, Option-cases,
  inl, inr, ◌⊎◌, ==_iff,
}
use net_burner_mqtt_broker.Topic.{
  next_segment, segment_len, same_bytes, matches_within, topic_matches_filter, is_empty, is_none,
  ends_segment, test_segments,
}
use net_burner_mqtt_broker.Topic.Levels.{
  levels, first_level, length-next_segment, length-first_level,
}
use mathlib.Core.Option

-- Section 4.7.1: '#' stands for the levels that are left, the parent's end among them, '+' for one
-- level, and any other level for itself.
unfoldable pub levels_match : List (List ℕ) → List (List ℕ) → Bool
unfolding same_bytes
levels_match [] [] = true
levels_match [] (f ∷ fs) = same_bytes f hash && is_last fs
levels_match (t ∷ ts) [] = false
levels_match (t ∷ ts) (f ∷ fs) =
    let rest = levels_match ts fs in
    if same_bytes f hash && is_last fs
    then true
    else if same_bytes f plus
    then rest
    else same_bytes t f && rest

-- Every wildcard of a filter takes a whole level, and '#' comes last.
unfoldable pub legal_filter : List (List ℕ) → Bool
unfolding legal_level
legal_filter [] = true
legal_filter (f ∷ fs) = legal_level f fs && legal_filter fs

-- The last level is not empty: the string does not end in '/'.
unfoldable pub last_filled : List (List ℕ) → Bool
unfolding is_empty
last_filled [] = true
last_filled (l ∷ []) = not (is_empty l)
last_filled (l ∷ m ∷ ls) = last_filled (m ∷ ls)

last_filled-tail :
    (l : List ℕ) (ls : List (List ℕ)) → last_filled (l ∷ ls) ≡ true → last_filled ls ≡ true
unfolding last_filled
last_filled-tail l [] e = refl
last_filled-tail l (m ∷ ls) e = e

legal-parts :
    (f : List ℕ) (fs : List (List ℕ))
    → legal_filter (f ∷ fs) ≡ true
    → (legal_level f fs ≡ true) × (legal_filter fs ≡ true)
unfolding legal_filter
legal-parts f fs e = ground arith

-- The topic that is left is `none` where it has been used up; the code then walks on the empty string.
abbrev Agrees : ℕ → Option (List ℕ) → List ℕ → Type 0
Agrees fuel topic filter =
    matches_within fuel (Option.get_or topic []) filter
    ≡ levels_match (rest_levels topic) (levels filter)

-- Behind the first levels: both end, or the walk goes on as it should.
deeper :
    (fuel : ℕ) (topic filter : Option (List ℕ))
    → ((s : List ℕ) → filter ≡ some s → Agrees fuel topic s)
    → elim filter [ none ↦ is_none topic | some s ↦ matches_within fuel (Option.get_or topic []) s ]
      ≡ levels_match (rest_levels topic) (rest_levels filter)
unfolding levels_match is_none
deeper fuel none none h = refl
deeper fuel (some t) none h = rw (levels-step t)
deeper fuel topic (some s) h = h s refl

-- What the tests on the two strings decide, in terms of their first levels.
pub test_segments-levels :
    (t f : ℕ) (ts fs : List ℕ)
    → legal_level (first_level (f ∷ fs)) (rest_levels (next_segment (f ∷ fs))) ≡ true
    → test_segments t ts f fs ≡ (
        if same_bytes (first_level (f ∷ fs)) hash && is_last (rest_levels (next_segment (f ∷ fs)))
        then some true
        else if same_bytes (first_level (f ∷ fs)) plus
        then none
        else if same_bytes (first_level (t ∷ ts)) (first_level (f ∷ fs))
        then none
        else some false)
unfolding test_segments first_level
test_segments-levels t f ts fs legal = elim (Bool-cases (f == b'#')) [
  | inl is_hash ↦
      let (alone, whole, ends) = hash_alone f fs is_hash legal in rw (whole, ends) (ground arith)
  | inr no_hash ↦ elim (Bool-cases (f == b'+')) [
    | inl is_plus ↦
        let (one, ends, whole) = plus_alone f fs is_plus legal in
        let no_hash' : same_bytes (first_level (f ∷ fs)) hash ≡ false =
          (literal_head f fs no_hash).0 in
        let yes_plus : same_bytes (first_level (f ∷ fs)) plus ≡ true =
          rw whole (unfold same_bytes in refl) in
        rw (no_hash', yes_plus) (ground arith)
    | inr no_plus ↦
        let (no_hash', no_plus') = literal_head f fs no_hash in
        rw (no_hash', no_plus' no_plus) (literal no_hash no_plus)
  ]
]
  where
    literal :
        (f == b'#') ≡ false
        → (f == b'+') ≡ false
        → test_segments t ts f fs
          ≡ (if same_bytes (first_level (t ∷ ts)) (first_level (f ∷ fs)) then none else some false)
    literal h p = elim (Bool-cases (segment_len (t ∷ ts) == segment_len (f ∷ fs))) [
      | inl same ↦ ground (arith, equal same)
      | inr differ ↦ ground (
        arith,
        same_bytes-length (first_level (t ∷ ts)) (first_level (f ∷ fs)),
        length-first_level (t ∷ ts),
        length-first_level (f ∷ fs),
      )
    ]
      where
        equal :
            (segment_len (t ∷ ts) == segment_len (f ∷ fs)) ≡ true
            → same_bytes
                (take (segment_len (t ∷ ts)) (t ∷ ts))
                (take (segment_len (t ∷ ts)) (f ∷ fs))
              ≡ same_bytes (first_level (t ∷ ts)) (first_level (f ∷ fs))
        equal e = ap (λ n. same_bytes (first_level (t ∷ ts)) (take n (f ∷ fs))) ((==_iff _ _).0 e)

levels-nil : last_filled (levels []) ≡ false
unfolding last_filled levels
levels-nil = refl

-- With more fuel than the filter has characters the walk agrees with the levels.
matches_within-Agrees :
    (fuel : ℕ) (topic : Option (List ℕ)) (filter : List ℕ)
    → length filter < fuel
    → last_filled (rest_levels topic) ≡ true
    → last_filled (levels filter) ≡ true
    → legal_filter (levels filter) ≡ true
    → Agrees fuel topic filter
unfolding matches_within levels_match
matches_within-Agrees zero topic filter h a b c = absurd (omega arith)
matches_within-Agrees (suc fuel) topic [] h a b c = cc levels-nil
matches_within-Agrees (suc fuel) (some []) (f ∷ fs) h a b c = cc levels-nil
matches_within-Agrees (suc fuel) none (f ∷ fs) h a b c =
    let legal = (legal-parts _ _ (rw (levels-step (f ∷ fs)) at c)).0 in
    rw (levels-step (f ∷ fs)) (elim (Bool-cases (f == b'#')) [
      | inl is_hash ↦
          let (alone, whole, ends) = hash_alone f fs is_hash legal in
          rw (whole, ends, alone) (ground arith)
      | inr no_hash ↦ rw ((literal_head f fs no_hash).0) (ground arith)
    ])
matches_within-Agrees (suc fuel) (some (t ∷ ts)) (f ∷ fs) h a b c =
    let (legal, legal') = legal-parts _ _ (rw (levels-step (f ∷ fs)) at c) in
    let topic_filled = last_filled-tail _ _ (rw (levels-step (t ∷ ts)) at a) in
    let filter_filled = last_filled-tail _ _ (rw (levels-step (f ∷ fs)) at b) in
    let below = deeper fuel (next_segment (t ∷ ts)) (next_segment (f ∷ fs)) (λ s e.
      matches_within-Agrees fuel (next_segment (t ∷ ts)) s
        (omega (arith, length-next_segment (f ∷ fs) s e)) topic_filled (rw e at filter_filled)
        (rw e at legal')) in
    rw (levels-step (t ∷ ts), levels-step (f ∷ fs))
      (ground (arith, test_segments-levels t f ts fs legal, below))

-- More fuel than the filter has characters changes no answer.
pub matches_within_enough :
    (a b : ℕ) (topic filter : List ℕ)
    → length filter < a
    → length filter < b
    → matches_within a topic filter ≡ matches_within b topic filter
unfolding matches_within
matches_within_enough zero b topic filter h k = absurd (omega arith)
matches_within_enough (suc a) zero topic filter h k = absurd (omega arith)
matches_within_enough (suc a) (suc b) topic [] h k = refl
matches_within_enough (suc a) (suc b) [] (f ∷ fs) h k = refl
matches_within_enough (suc a) (suc b) (t ∷ ts) (f ∷ fs) h k =
    elim (Option-cases (next_segment (f ∷ fs))) [
      | inl e ↦ ground arith
      | inr (s, e) ↦
          let less = length-next_segment (f ∷ fs) s e in
          let below =
            matches_within_enough a b (Option.get_or (next_segment (t ∷ ts)) []) s (omega arith)
              (omega arith) in
          ground (arith, below)
    ]

-- For a topic and a filter that are not empty and do not end in '/', and a filter whose wildcards
-- take whole levels with '#' last, the code's walk over the strings answers as a comparison level by
-- level: '+' stands for any level and '#' for any number of them, none included. Like the code, the
-- comparison makes no exception for topics that begin with '$'.
pub topic_matches_filter-levels :
    (topic filter : List ℕ)
    → last_filled (levels topic) ≡ true
    → last_filled (levels filter) ≡ true
    → legal_filter (levels filter) ≡ true
    → topic_matches_filter (some topic) (some filter) ≡ levels_match (levels topic) (levels filter)
unfolding topic_matches_filter
topic_matches_filter-levels topic filter a b c =
    matches_within-Agrees (suc (length filter)) (some topic) filter (omega arith) a b c
