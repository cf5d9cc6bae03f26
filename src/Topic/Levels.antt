-- ===== src/Topic/Levels.antt =====
-- Topic levels: a string cut at its '/'s, and what `next_segment` and `segment_len` say of the cut.
use net_burner_mqtt_broker.Base.{ℕ, ◌≡◌, refl, arith, ap, ◌∙◌, true, false, ◌==◌}
use net_burner_mqtt_broker.Base.{
  if◌then◌else◌, List, [], ◌∷◌, none, some, length, take, Bool-cases, inl, inr, ◌<◌,
}
use native.Mathlib.Numerals.{add-one}
use net_burner_mqtt_broker.Topic.{next_segment, segment_len}

unfoldable pub prepend : ℕ → List (List ℕ) → List (List ℕ)
prepend c [] = (c ∷ []) ∷ []
prepend c (l ∷ ls) = (c ∷ l) ∷ ls

-- The levels of a string. The empty string has one level, which is empty.
unfoldable pub levels : List ℕ → List (List ℕ)
unfolding prepend
levels [] = [] ∷ []
levels (c ∷ s) = let rest = levels s in if c == b'/' then [] ∷ rest else prepend c rest

-- The first level.
unfoldable pub first_level : List ℕ → List ℕ
first_level s = take (segment_len s) s

pub first_level_slash : (c : ℕ) (s : List ℕ) → (c == b'/') ≡ true → first_level (c ∷ s) ≡ []
unfolding first_level segment_len
first_level_slash c s e = rw e

pub first_level_cons :
    (c : ℕ) (s : List ℕ) → (c == b'/') ≡ false → first_level (c ∷ s) ≡ c ∷ first_level s
unfolding first_level segment_len
first_level_cons c s e = rw (e, add-one)

-- A string with no '/' is one level.
pub levels-last : (s : List ℕ) → next_segment s ≡ none → levels s ≡ first_level s ∷ []
unfolding levels next_segment
levels-last [] e = unfold first_level segment_len in refl
levels-last (c ∷ s) e = elim (Bool-cases (c == b'/')) [
  | inl slash ↦ ground arith
  | inr other ↦ rw (other, levels-last s (ground arith), first_level_cons c s other)
]

-- Else its first level stands before the levels of what follows the '/'.
pub levels-next :
    (s rest : List ℕ) → next_segment s ≡ some rest → levels s ≡ first_level s ∷ levels rest
unfolding levels next_segment
levels-next [] rest e = ground arith
levels-next (c ∷ s) rest e = elim (Bool-cases (c == b'/')) [
  | inl slash ↦ ground (arith, first_level_slash c s slash)
  | inr other ↦ rw (other, levels-next s rest (ground arith), first_level_cons c s other)
]

pub length-next_segment : (s rest : List ℕ) → next_segment s ≡ some rest → length rest < length s
unfolding next_segment
length-next_segment [] rest e = ground arith
length-next_segment (c ∷ s) rest e = ground (arith, length-next_segment s rest)

pub length-first_level : (s : List ℕ) → length (first_level s) ≡ segment_len s
unfolding first_level segment_len
length-first_level [] = refl
length-first_level (c ∷ s) = elim (Bool-cases (c == b'/')) [
  | inl slash ↦ ground arith
  | inr other ↦ rw (other, add-one) (omega (arith, length-first_level s))
]

-- A string with no '/' is its own first level.
pub first_level-whole : (s : List ℕ) → next_segment s ≡ none → first_level s ≡ s
unfolding next_segment
first_level-whole [] e = unfold first_level segment_len in refl
first_level-whole (c ∷ s) e = elim (Bool-cases (c == b'/')) [
  | inl slash ↦ ground arith
  | inr other ↦ first_level_cons c s other ∙ ap (λ l. c ∷ l) (first_level-whole s (ground arith))
]
