-- ===== src/Queue/Holds.antt =====
-- A ring buffer over an array: which array cells hold the elements of a queue, oldest first.
use net_burner_mqtt_broker.Base.{
  ℕ, suc, ◌+◌, ◌-◌, ◌%◌, ◌≤◌, ◌<◌, ◌≡◌, ◌≢◌, refl, arith, sym, ◌∙◌, ap,
}
use net_burner_mqtt_broker.Base.{List, [], ◌∷◌, ◌++◌, some, length, get_elem?, set, dec_lt}
use net_burner_mqtt_broker.Base.{get_elem?-set_self, get_elem?-set_ne}
use native.Mathlib.Nat.{mod-add-mod, mod-eq_of_lt, mod-eq-sub-mod, mod-lt}

module _ {ℓ} {A : Type ℓ} where
  abbrev pub Holds : List A → ℕ → ℕ → List A → Type ℓ
  Holds cells depth at [] = Unit
  Holds cells depth at (x ∷ xs) =
      (get_elem? cells at ≡ some x) × Holds cells depth ((at + 1) % depth) xs

-- Fewer than `depth` steps round the ring end elsewhere.
step_away : (depth i k : ℕ) → i < depth → 0 < k → k < depth → (i + k) % depth ≢ i
step_away depth i k hi hk kd = elim (dec_lt (i + k) depth) [
  | yes below ↦ omega (arith, mod-eq_of_lt below)
  | no above ↦ omega (
    arith,
    mod-eq-sub-mod {n = i + k} {m = depth} (omega arith),
    mod-eq_of_lt {n = i + k - depth} {m = depth} (omega arith),
  )
]

pub next_step : (depth i k : ℕ) → ((i + k) % depth + 1) % depth ≡ (i + suc k) % depth
next_step depth i k = mod-add-mod (i + k) depth 1 ∙ ap (λ n. n % depth) (omega arith)

module _ {ℓ} {A : Type ℓ} (depth : ℕ) where
  -- A write to cell `i` spares the cells that lie from 1 to `depth` - 1 steps behind it.
  pub Holds-set_other :
      (cells xs : List A) (i j k : ℕ) (v : A)
      → i < depth
      → j ≡ (i + k) % depth
      → 0 < k
      → k + length xs ≤ depth
      → Holds cells depth j xs
      → Holds (set cells i v) depth j xs
  Holds-set_other cells [] i j k v hi e pos room h = h
  Holds-set_other cells (x ∷ xs) i j k v hi e pos room (here, rest) = (
    get_elem?-set_ne cells i j v apart ∙ here,
    Holds-set_other cells xs i ((j + 1) % depth) (suc k) v hi
        (ap (λ n. (n + 1) % depth) e ∙ next_step depth i k) (omega arith) (omega arith) rest,
  )
    where
      apart : i ≢ j
      apart p = step_away depth i k hi pos (omega arith) (sym (p ∙ e))

  -- A write to the cell behind the last element appends.
  pub Holds-push :
      (cells xs : List A) (at i : ℕ) (v : A)
      → depth ≤ length cells
      → at < depth
      → i ≡ (at + length xs) % depth
      → length xs < depth
      → Holds cells depth at xs
      → Holds (set cells i v) depth at (xs ++ (v ∷ []))
  Holds-push cells [] at i v big h e room held =
      let i-eq : i ≡ at = e ∙ ap (λ n. n % depth) (omega arith) ∙ mod-eq_of_lt h in
      rw i-eq (get_elem?-set_self cells at v (omega arith), tt)
  Holds-push cells (x ∷ xs) at i v big h e room (here, rest) = (
    get_elem?-set_ne cells i at v apart ∙ here,
    Holds-push cells xs ((at + 1) % depth) i v big (mod-lt (at + 1) (omega arith)) there
        (omega arith) rest,
  )
    where
      apart : i ≢ at
      apart p = step_away depth at (suc (length xs)) h (omega arith) room (sym e ∙ p)

      there : i ≡ ((at + 1) % depth + length xs) % depth
      there = e ∙ sym (mod-add-mod (at + 1) depth (length xs) ∙ ap (λ n. n % depth) (omega arith))

  -- A write to the first element's cell replaces that element.
  pub Holds-set_first :
      (cells xs : List A) (at : ℕ) (x v : A)
      → depth ≤ length cells
      → at < depth
      → length xs < depth
      → Holds cells depth at (x ∷ xs)
      → Holds (set cells at v) depth at (v ∷ xs)
  Holds-set_first cells xs at x v big h room (here, rest) = (
    get_elem?-set_self cells at v (omega arith),
    Holds-set_other cells xs at ((at + 1) % depth) 1 v h refl (omega arith) (omega arith) rest,
  )
