-- ===== src/Base/Windows.antt =====
-- Parts of a list that are cut out by `take` and `drop`.
use Prim.Native.Nat.{ℕ, zero, suc, ◌+◌, ◌-◌, ◌≤◌, min}
use mathlib.Core.Path.{◌≡◌, refl, sym, ap, ◌∙◌}
use mathlib.Core.List.{List, [], ◌∷◌, ◌++◌}
use native.Mathlib.Omega.{arith}
use net_burner_mqtt_broker.Base.Lists.{length, take, drop, length-drop, length-take}

module _ {ℓ} {A : Type ℓ} where
  -- The elements from position `pos` up to `end`.
  abbrev pub window : ℕ → ℕ → List A → List A
  window pos end xs = take (end - pos) (drop pos xs)

  pub take-plus :
      (n a b : ℕ) (xs : List A) → n ≡ a + b → take n xs ≡ take a xs ++ take b (drop a xs)
  take-plus n zero b xs e = ap (λ k. take k xs) (omega (arith, e))
  take-plus zero (suc a) b xs e = absurd (omega (arith, e))
  take-plus (suc n) (suc a) zero [] e = refl
  take-plus (suc n) (suc a) (suc b) [] e = refl
  take-plus (suc n) (suc a) b (x ∷ xs) e = ap (λ l. x ∷ l) (take-plus n a b xs (omega (arith, e)))

  pub drop-plus : (n a b : ℕ) (xs : List A) → n ≡ a + b → drop n xs ≡ drop b (drop a xs)
  drop-plus n zero b xs e = ap (λ k. drop k xs) (omega (arith, e))
  drop-plus zero (suc a) b xs e = absurd (omega (arith, e))
  drop-plus (suc n) (suc a) zero [] e = refl
  drop-plus (suc n) (suc a) (suc b) [] e = refl
  drop-plus (suc n) (suc a) b (x ∷ xs) e = drop-plus n a b xs (omega (arith, e))

  pub window_split :
      (pos mid end : ℕ) (xs : List A)
      → pos ≤ mid
      → mid ≤ end
      → window pos end xs ≡ window pos mid xs ++ window mid end xs
  window_split pos mid end xs h k =
      take-plus (end - pos) (mid - pos) (end - mid) (drop pos xs) (omega (arith, h, k))
      ∙ ap (λ l. take (mid - pos) (drop pos xs) ++ take (end - mid) l)
          (sym (drop-plus mid pos (mid - pos) xs (omega (arith, h))))

  pub take-append_left : (n : ℕ) (xs ys : List A) → n ≤ length xs → take n (xs ++ ys) ≡ take n xs
  take-append_left zero xs ys h = refl
  take-append_left (suc n) [] ys h = absurd (omega (arith, h))
  take-append_left (suc n) (x ∷ xs) ys h =
      ap (λ l. x ∷ l) (take-append_left n xs ys (omega (arith, h)))

  pub drop-append_left :
      (n pos : ℕ) (xs ys : List A)
      → pos + n ≤ length xs
      → take n (drop pos (xs ++ ys)) ≡ take n (drop pos xs)
  drop-append_left n zero xs ys h = take-append_left n xs ys (omega (arith, h))
  drop-append_left n (suc pos) [] ys h = absurd (omega (arith, h))
  drop-append_left n (suc pos) (x ∷ xs) ys h = drop-append_left n pos xs ys (omega (arith, h))

  -- A window of the first part.
  pub window-append_left :
      (pos end : ℕ) (xs ys : List A)
      → end ≤ length xs
      → pos ≤ end
      → window pos end (xs ++ ys) ≡ window pos end xs
  window-append_left pos end xs ys h p =
      drop-append_left (end - pos) pos xs ys (omega (arith, h, p))

  -- What is left behind the first part.
  pub drop-append_right :
      (pos k : ℕ) (xs ys : List A) → pos ≡ length xs + k → drop pos (xs ++ ys) ≡ drop k ys
  drop-append_right pos k [] ys h = ap (λ n. drop n ys) (omega (arith, h))
  drop-append_right zero k (x ∷ xs) ys h = absurd (omega (arith, h))
  drop-append_right (suc pos) k (x ∷ xs) ys h = drop-append_right pos k xs ys (omega (arith, h))

  pub length-window :
      (pos end : ℕ) (xs : List A) → end ≤ length xs → length (window pos end xs) ≡ end - pos
  length-window pos end xs h =
      omega (arith, h, length-take (end - pos) (drop pos xs), length-drop pos xs)

  pub take_nil : (n : ℕ) → take {A = A} n [] ≡ []
  take_nil zero = refl
  take_nil (suc n) = refl

  drop_nil : (n : ℕ) → drop {A = A} n [] ≡ []
  drop_nil zero = refl
  drop_nil (suc n) = refl

  pub take_all : (n : ℕ) (xs : List A) → length xs ≤ n → take n xs ≡ xs
  take_all n [] h = take_nil n
  take_all zero (x ∷ xs) h = absurd (omega (arith, h))
  take_all (suc n) (x ∷ xs) h = ap (λ l. x ∷ l) (take_all n xs (omega (arith, h)))

  pub drop_all : (n : ℕ) (xs : List A) → length xs ≤ n → drop n xs ≡ []
  drop_all n [] h = drop_nil n
  drop_all zero (x ∷ xs) h = absurd (omega (arith, h))
  drop_all (suc n) (x ∷ xs) h = drop_all n xs (omega (arith, h))

  pub take-rest : (n : ℕ) (xs : List A) → take n xs ++ drop (length (take n xs)) xs ≡ xs
  take-rest zero xs = refl
  take-rest (suc n) [] = refl
  take-rest (suc n) (x ∷ xs) = ap (λ l. x ∷ l) (take-rest n xs)

  take-take : (m n : ℕ) (xs : List A) → take m (take n xs) ≡ take (min n m) xs
  take-take zero n xs = let k : min n 0 ≡ 0 = omega arith in sym (ap (λ i. take i xs) k)
  take-take (suc m) zero xs = let k : min 0 (suc m) ≡ 0 = omega arith in sym (ap (λ i. take i xs) k)
  take-take (suc m) (suc n) [] = sym (take_nil (min (suc n) (suc m)))
  take-take (suc m) (suc n) (x ∷ xs) =
      let k : min (suc n) (suc m) ≡ suc (min n m) = omega arith in
      ap (λ l. x ∷ l) (take-take m n xs) ∙ sym (ap (λ i. take i (x ∷ xs)) k)

  -- A part of the first `len` elements.
  pub take-drop-take :
      (n offset len : ℕ) (xs : List A)
      → take n (drop offset (take len xs)) ≡ take (min (len - offset) n) (drop offset xs)
  take-drop-take n zero len xs = take-take n len xs ∙ ap (λ k. take (min k n) xs) (omega arith)
  take-drop-take n (suc offset) zero xs =
      let k : min (0 - suc offset) n ≡ 0 = omega arith in
      take_nil n ∙ sym (ap (λ i. take i (drop (suc offset) xs)) k)
  take-drop-take n (suc offset) (suc len) [] =
      take_nil n ∙ sym (take_nil (min (suc len - suc offset) n))
  take-drop-take n (suc offset) (suc len) (x ∷ xs) =
      take-drop-take n offset len xs ∙ ap (λ k. take (min k n) (drop offset xs)) (omega arith)
