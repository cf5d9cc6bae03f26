-- ===== src/Wire/Words.antt =====
-- Big-endian words: writing and reading.
use net_burner_mqtt_broker.Base.{ℕ, ◌+◌, ◌*◌, ◌%◌, ◌^◌, ◌<◌, ◌≡◌, arith, List, [], ◌∷◌, ◌++◌}
use net_burner_mqtt_broker.Base.{
  bit_or_join, bit_and-0xff, IsByte, All, length, refl, ◌∙◌, ap, bit_or, u32,
}
use net_burner_mqtt_broker.Wire.{read_u16_be, read_u32_be, write_u16_be, write_u32_be}

pub read_u16_be-cons :
    (a b : ℕ) (rest : List ℕ) → a < 256 → b < 256 → read_u16_be (a ∷ b ∷ rest) ≡ a * 256 + b
unfolding read_u16_be
read_u16_be-cons a b rest ha hb = omega (arith, bit_or_join 8 (a % 65536) b (omega arith))

read_u32_be-cons :
    (a b c d : ℕ) (rest : List ℕ)
    → a < 256
    → b < 256
    → c < 256
    → d < 256
    → read_u32_be (a ∷ b ∷ c ∷ d ∷ rest) ≡ a * 16777216 + b * 65536 + c * 256 + d
unfolding read_u32_be
read_u32_be-cons a b c d rest ha hb hc hd =
    rw (ea, eb, ec)
      (ap (λ x. bit_or (bit_or x (c * 2 ^ 8)) d) two ∙ ap (λ x. bit_or x d) three ∙ four)
  where
    ea : u32 (a * 2 ^ 24) ≡ a * 2 ^ 24
    ea = omega arith

    eb : u32 (b * 2 ^ 16) ≡ b * 2 ^ 16
    eb = omega arith

    ec : u32 (c * 2 ^ 8) ≡ c * 2 ^ 8
    ec = omega arith

    two : bit_or (a * 2 ^ 24) (b * 2 ^ 16) ≡ (a * 256 + b) * 2 ^ 16
    two = bit_or_join 24 a (b * 2 ^ 16) (omega arith) ∙ omega arith

    three : bit_or ((a * 256 + b) * 2 ^ 16) (c * 2 ^ 8) ≡ ((a * 256 + b) * 256 + c) * 2 ^ 8
    three = bit_or_join 16 (a * 256 + b) (c * 2 ^ 8) (omega arith) ∙ omega arith

    four : bit_or (((a * 256 + b) * 256 + c) * 2 ^ 8) d ≡ a * 16777216 + b * 65536 + c * 256 + d
    four = bit_or_join 8 ((a * 256 + b) * 256 + c) d (omega arith) ∙ omega arith

-- Reading the two bytes that `write_u16_be` stored gives the 16-bit word back, whatever follows.
pub read_u16_be-write :
    (v : ℕ) (rest : List ℕ) → v < 65536 → read_u16_be (write_u16_be v ++ rest) ≡ v
unfolding write_u16_be
read_u16_be-write v rest h =
    simp bit_and-0xff (read_u16_be-cons _ _ rest (omega arith) (omega arith) ∙ omega arith)

-- Reading the four bytes that `write_u32_be` stored gives the 32-bit word back, whatever follows.
pub read_u32_be-write :
    (v : ℕ) (rest : List ℕ) → v < 4294967296 → read_u32_be (write_u32_be v ++ rest) ≡ v
unfolding write_u32_be
read_u32_be-write v rest h = simp bit_and-0xff (
    read_u32_be-cons _ _ _ _ rest (omega arith) (omega arith) (omega arith) (omega arith)
    ∙ omega arith)

-- Writing the word that two bytes hold stores those two bytes.
pub write_u16_be-read :
    (a b : ℕ) (rest : List ℕ)
    → IsByte a
    → IsByte b
    → write_u16_be (read_u16_be (a ∷ b ∷ rest)) ≡ a ∷ b ∷ []
unfolding write_u16_be
write_u16_be-read a b rest ha hb =
    rw (read_u16_be-cons a b rest ha hb) (simp bit_and-0xff (ground arith))

pub read_u16_be_bound : (p : List ℕ) → read_u16_be p < 65536
unfolding read_u16_be
read_u16_be_bound p = omega arith

pub write_u16_be-IsByte : (v : ℕ) → All IsByte (write_u16_be v)
unfolding write_u16_be
write_u16_be-IsByte v = omega arith

pub length-write_u16_be : (v : ℕ) → length (write_u16_be v) ≡ 2
unfolding write_u16_be
length-write_u16_be v = refl
