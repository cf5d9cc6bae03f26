-- ===== src/Inflight/Ids.antt =====
-- Lists of identifiers, as the abstract view of a table that is keyed by packet identifier.
use net_burner_mqtt_broker.Base.{
  ℕ, ◌≤◌, ◌<◌, ◌≡◌, ◌≢◌, refl, arith, Bool, true, false, ◌||◌, ◌&&◌, not, ◌==◌, if◌then◌else◌, List,
  [], ◌∷◌, length,
}

unfoldable pub member : ℕ → List ℕ → Bool
member x [] = false
member x (y ∷ ys) = x == y || member x ys

-- All occurrences of `x` taken out.
unfoldable pub without : ℕ → List ℕ → List ℕ
without x [] = []
without x (y ∷ ys) = if x == y then without x ys else y ∷ without x ys

unfoldable pub distinct : List ℕ → Bool
unfolding member
distinct [] = true
distinct (x ∷ xs) = not (member x xs) && distinct xs

pub length-without_le : (x : ℕ) (xs : List ℕ) → length (without x xs) ≤ length xs
unfolding without
length-without_le x [] = omega arith
length-without_le x (y ∷ ys) = ground (arith, length-without_le x ys)

pub length-without : (x : ℕ) (xs : List ℕ) → member x xs ≡ true → length (without x xs) < length xs
unfolding without member
length-without x [] h = cc
length-without x (y ∷ ys) h = ground (arith, length-without_le x ys, length-without x ys)

pub member-without : (x y : ℕ) (xs : List ℕ) → x ≢ y → member y (without x xs) ≡ member y xs
unfolding without member
member-without x y [] h = refl
member-without x y (z ∷ zs) h = ground (arith, member-without x y zs h)
