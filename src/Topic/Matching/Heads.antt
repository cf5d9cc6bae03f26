-- ===== src/Topic/Matching/Heads.antt =====
-- What the first level of a filter can be, and what the code's tests on its characters say of it.
use net_burner_mqtt_broker.Base.{
  ℕ, ◌≡◌, refl, arith, ap, sym, ◌∙◌, Bool, true, false, ◌==◌, not, ◌&&◌, ◌||◌,
}
use net_burner_mqtt_broker.Base.{
  List, [], ◌∷◌, Option, none, some, length, Bool-cases, Option-cases, inl, inr,
}
use net_burner_mqtt_broker.Topic.{next_segment, segment_len, same_bytes, starts_with, ends_segment}
use net_burner_mqtt_broker.Topic.Levels.{
  levels, levels-last, levels-next, first_level, first_level_slash, first_level_cons,
  length-first_level, first_level-whole,
}

abbrev pub hash : List ℕ
hash = b'#' ∷ []

abbrev pub plus : List ℕ
plus = b'+' ∷ []

abbrev pub is_last : List (List ℕ) → Bool
is_last [] = true
is_last (l ∷ ls) = false

-- The levels behind the first.
abbrev pub rest_levels : Option (List ℕ) → List (List ℕ)
rest_levels none = []
rest_levels (some s) = levels s

pub levels-step : (s : List ℕ) → levels s ≡ first_level s ∷ rest_levels (next_segment s)
levels-step s = elim (Option-cases (next_segment s)) [
  | inl e ↦ rw e (levels-last s e)
  | inr (r, e) ↦ rw e (levels-next s r e)
]

-- A wildcard takes a whole level, and '#' is the last one.
unfoldable pub legal_level : List ℕ → List (List ℕ) → Bool
unfolding starts_with same_bytes
legal_level f fs =
    (not (starts_with b'#' f) || (same_bytes f hash && is_last fs))
    && (not (starts_with b'+' f) || same_bytes f plus)

next_other : (c : ℕ) (s : List ℕ) → (c == b'/') ≡ false → next_segment (c ∷ s) ≡ next_segment s
unfolding next_segment
next_other c s e = rw e

is_last-rest_levels : (o : Option (List ℕ)) → is_last (rest_levels o) ≡ true → o ≡ none
is_last-rest_levels none e = refl
is_last-rest_levels (some s) e = cc (rw (levels-step s) at e)

same_bytes-nil : (x : List ℕ) → same_bytes x [] ≡ true → x ≡ []
unfolding same_bytes
same_bytes-nil [] e = refl
same_bytes-nil (a ∷ x) e = cc

-- A filter that starts with '#' and whose first level is legal is "#".
pub hash_alone :
    (f : ℕ) (fs : List ℕ)
    → (f == b'#') ≡ true
    → legal_level (first_level (f ∷ fs)) (rest_levels (next_segment (f ∷ fs))) ≡ true
    → (fs ≡ [])
      × (same_bytes (first_level (f ∷ fs)) hash ≡ true)
      × (is_last (rest_levels (next_segment (f ∷ fs))) ≡ true)
unfolding legal_level same_bytes starts_with
hash_alone f fs h e =
    let no_slash : (f == b'/') ≡ false = ground arith in
    let starts : starts_with b'#' (first_level (f ∷ fs)) ≡ true =
      rw (first_level_cons f fs no_slash) h in
    let whole : same_bytes (first_level (f ∷ fs)) hash ≡ true = ground arith in
    let ends : is_last (rest_levels (next_segment (f ∷ fs))) ≡ true = ground arith in
    let last : next_segment fs ≡ none =
      sym (next_other f fs no_slash) ∙ is_last-rest_levels _ ends in
    let whole' = rw (first_level_cons f fs no_slash) at whole in
    (sym (first_level-whole fs last) ∙ same_bytes-nil (first_level fs) (ground arith), whole, ends)

-- A filter that starts with '+' and whose first level is legal goes on with a '/' or ends there.
pub plus_alone :
    (f : ℕ) (fs : List ℕ)
    → (f == b'+') ≡ true
    → legal_level (first_level (f ∷ fs)) (rest_levels (next_segment (f ∷ fs))) ≡ true
    → (segment_len (f ∷ fs) ≡ 1) × (ends_segment fs ≡ true) × (first_level (f ∷ fs) ≡ plus)
unfolding legal_level same_bytes starts_with ends_segment
plus_alone f fs h e =
    let no_slash : (f == b'/') ≡ false = ground arith in
    let e' = rw (first_level_cons f fs no_slash) at e in
    let alone : first_level fs ≡ [] = same_bytes-nil (first_level fs) (ground arith) in
    let whole : first_level (f ∷ fs) ≡ plus =
      first_level_cons f fs no_slash ∙ ground (arith, alone) in
    (sym (length-first_level (f ∷ fs)) ∙ ap length whole, ends_at fs alone, whole)
  where
    ends_at : (s : List ℕ) → first_level s ≡ [] → ends_segment s ≡ true
    ends_at [] e = refl
    ends_at (c ∷ s) e = elim (Bool-cases (c == b'/')) [
      | inl slash ↦ slash
      | inr other ↦ cc (first_level_cons c s other)
    ]

-- A first level that starts with no wildcard is none.
pub literal_head :
    (f : ℕ) (fs : List ℕ)
    → (f == b'#') ≡ false
    → (same_bytes (first_level (f ∷ fs)) hash ≡ false)
      × ((f == b'+') ≡ false → same_bytes (first_level (f ∷ fs)) plus ≡ false)
unfolding same_bytes
literal_head f fs h = elim (Bool-cases (f == b'/')) [
  | inl slash ↦ rw (first_level_slash f fs slash) (refl, λ _. refl)
  | inr other ↦ rw (first_level_cons f fs other) (ground arith, λ p. ground arith)
]

pub same_bytes-length : (x y : List ℕ) → (length x == length y) ≡ false → same_bytes x y ≡ false
unfolding same_bytes
same_bytes-length [] [] e = ground arith
same_bytes-length [] (b ∷ y) e = refl
same_bytes-length (a ∷ x) [] e = refl
same_bytes-length (a ∷ x) (b ∷ y) e = ground (arith, same_bytes-length x y)
