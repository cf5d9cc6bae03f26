-- ===== src/Base/Bits.antt =====
-- Masks, shifts and disjoint `|` on machine words, as arithmetic.
use Prim.Native.Nat.{
  ℕ, zero, suc, ◌+◌, ◌*◌, ◌/◌, ◌%◌, ◌^◌, ◌≤◌, ◌<◌, ◌-◌, min, max, bit_and, bit_or,
}
use Prim.Native.Nat.{digits, bit_or-bitwise, bit_and-bitwise}
use mathlib.Core.Path.{◌≡◌, refl, ap, ◌∙◌}
use mathlib.Core.Bool.{Bool, true, ◌&&◌}
use native.Mathlib.Omega.{arith}
use native.Mathlib.Nat.{pow-suc}
use net_burner_mqtt_broker.Base.Tests.{◌==◌, ==_iff}

-- A law about one byte is a table of 256 entries, checked by evaluation.
unfoldable pub table : ℕ → (ℕ → ℕ) → (ℕ → ℕ) → Bool
table zero f g = true
table (suc n) f g = f n == g n && table n f g

pub table_sound : (n : ℕ) (f g : ℕ → ℕ) → table n f g ≡ true → (x : ℕ) → x < n → f x ≡ g x
unfolding table
table_sound zero f g t x h = absurd (omega arith)
table_sound (suc n) f g t x h =
    ground (arith, ==_iff (f n) (g n), table_sound n f g (ground arith) x)

pub bit_and_0x7f : (b : ℕ) → b < 256 → bit_and b 0x7f ≡ b % 128
unfolding table
bit_and_0x7f = table_sound 256 _ _ refl

pub bit_and_0x80 : (b : ℕ) → b < 256 → bit_and b 0x80 ≡ b / 128 * 128
unfolding table
bit_and_0x80 = table_sound 256 _ _ refl

pub bit_or_0x80 : (b : ℕ) → b < 128 → bit_or b 0x80 ≡ b + 128
unfolding table
bit_or_0x80 = table_sound 128 _ _ refl

-- The recursion on binary digits that the native operations stand for does not depend on its fuel.
module _ (end : ℕ → ℕ) (join : ℕ → ℕ → ℕ) where
  digits-suc_fuel : (n a b : ℕ) → a ≤ n → digits end join (suc n) a b ≡ digits end join n a b
  digits-suc_fuel zero zero b h = refl
  digits-suc_fuel zero (suc a) b h = absurd (omega arith)
  digits-suc_fuel (suc n) zero b h = refl
  digits-suc_fuel (suc n) (suc a) b h =
      omega (arith, digits-suc_fuel n (suc a / 2) (b / 2) (omega arith))

  digits-add_fuel :
      (k n m a b : ℕ) → m ≡ n + k → a ≤ n → digits end join m a b ≡ digits end join n a b
  digits-add_fuel zero n m a b e h = let e' : m ≡ n = omega arith in rw e'
  digits-add_fuel (suc k) n m a b e h =
      let e' : m ≡ suc (n + k) = omega arith in
      rw e' (digits-suc_fuel (n + k) a b (omega arith) ∙ digits-add_fuel k n (n + k) a b refl h)

pub zero-bit_or : (b : ℕ) → bit_or 0 b ≡ b
zero-bit_or b = bit_or-bitwise 0 b

zero-bit_and : (b : ℕ) → bit_and 0 b ≡ 0
zero-bit_and b = bit_and-bitwise 0 b

-- The lowest bit of `a | b` is the larger of theirs, that of `a & b` the smaller.
bit_or_halves : (a b : ℕ) → bit_or a b ≡ bit_or (a / 2) (b / 2) * 2 + max (a % 2) (b % 2)
bit_or_halves zero b = omega (arith, zero-bit_or b, zero-bit_or (b / 2))
bit_or_halves (suc a) b =
    let h = suc a / 2 in
    let fuel = digits-add_fuel (λ y. y) max (a - h) h a h (b / 2) (omega arith) (omega arith) in
    omega (arith, bit_or-bitwise (suc a) b, bit_or-bitwise h (b / 2), fuel)

bit_and_halves : (a b : ℕ) → bit_and a b ≡ bit_and (a / 2) (b / 2) * 2 + min (a % 2) (b % 2)
bit_and_halves zero b = omega (arith, zero-bit_and b, zero-bit_and (b / 2))
bit_and_halves (suc a) b =
    let h = suc a / 2 in
    let fuel = digits-add_fuel (λ y. 0) min (a - h) h a h (b / 2) (omega arith) (omega arith) in
    omega (arith, bit_and-bitwise (suc a) b, bit_and-bitwise h (b / 2), fuel)

bit_or-zero_below : (n a : ℕ) → a ≤ n → bit_or a 0 ≡ a
bit_or-zero_below n zero h = refl
bit_or-zero_below zero (suc a) h = absurd (omega arith)
bit_or-zero_below (suc n) (suc a) h =
    omega (arith, bit_or_halves (suc a) 0, bit_or-zero_below n (suc a / 2) (omega arith))

pub bit_or-zero : (a : ℕ) → bit_or a 0 ≡ a
bit_or-zero a = bit_or-zero_below a a (omega arith)

-- A field shifted left by `k`, joined with one that fits `k` bits, is their sum.
pub bit_or_join : (k hi lo : ℕ) → lo < 2 ^ k → bit_or (hi * 2 ^ k) lo ≡ hi * 2 ^ k + lo
bit_or_join zero hi lo h = ground (arith, bit_or-zero hi)
bit_or_join (suc k) hi lo h = ground (
  arith,
  bit_or_halves (hi * 2 ^ suc k) lo,
  doubled,
  pow-suc 2 k,
  bit_or_join k hi (lo / 2) (omega (arith, pow-suc 2 k)),
)
  where
    doubled : hi * 2 ^ suc k ≡ 2 * (hi * 2 ^ k)
    doubled = omega (arith, ap (λ (t : ℕ). hi * t) (pow-suc 2 k))

bit_and-zero_below : (n a : ℕ) → a ≤ n → bit_and a 0 ≡ 0
bit_and-zero_below n zero h = refl
bit_and-zero_below zero (suc a) h = absurd (omega arith)
bit_and-zero_below (suc n) (suc a) h =
    omega (arith, bit_and_halves (suc a) 0, bit_and-zero_below n (suc a / 2) (omega arith))

bit_and-one : (a : ℕ) → bit_and a 1 ≡ a % 2
bit_and-one a = omega (arith, bit_and_halves a 1, bit_and-zero_below (a / 2) (a / 2) (omega arith))

bit_and-three : (a : ℕ) → bit_and a 3 ≡ a % 4
bit_and-three a = omega (arith, bit_and_halves a 3, bit_and-one (a / 2))

bit_and-0x0f : (a : ℕ) → bit_and a 15 ≡ a % 16
bit_and-0x0f a =
    omega (arith, bit_and_halves a 15, bit_and_halves (a / 2) 7, bit_and-three (a / 2 / 2))

-- The mask of the low byte, on a word of any width.
pub bit_and-0xff : (a : ℕ) → bit_and a 0xff ≡ a % 256
bit_and-0xff a = omega (
  arith,
  bit_and_halves a 0xff,
  bit_and_halves (a / 2) 0x7f,
  bit_and_halves (a / 2 / 2) 0x3f,
  bit_and_halves (a / 2 / 2 / 2) 0x1f,
  bit_and-0x0f (a / 2 / 2 / 2 / 2),
)
