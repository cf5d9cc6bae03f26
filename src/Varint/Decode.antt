-- ===== src/Varint/Decode.antt =====
-- What `varint_decode` answers on every input, against the count of leading continuation bytes.
use net_burner_mqtt_broker.Base.{ℕ, zero, suc, ◌+◌, ◌*◌, ◌%◌, ◌≤◌, ◌<◌}
use net_burner_mqtt_broker.Base.{
  ◌≡◌, sym, ◌∙◌, Bool-cases, inl, inr, leb→le, not_leb→lt, arith, List, [], ◌∷◌, length, All,
  IsByte, leb,
}
use net_burner_mqtt_broker.Base.{if◌then◌else◌, bit_and_0x7f, bit_and_0x80}
use net_burner_mqtt_broker.Base.{◌≢◌}
use native.Mathlib.Numerals.{add-one}
use net_burner_mqtt_broker.Varint.{ok, need_more, too_large, overflow, VarintDecode}
use net_burner_mqtt_broker.Varint.{varint_loop, varint_decode, varint_max}

-- The number of leading bytes whose top bit, the continuation bit, is set.
unfoldable pub continued : List ℕ → ℕ
continued [] = 0
continued (b ∷ bs) = let rest = continued bs in if leb 128 b then rest + 1 else 0

-- The number that the first `n` bytes stand for: seven bits each, lowest group first.
unfoldable pub groups : ℕ → List ℕ → ℕ
groups zero bs = 0
groups (suc n) [] = 0
groups (suc n) (b ∷ bs) = b % 128 + 128 * groups n bs

-- The format of MQTT 5 section 1.5.5, with no loop state.
unfoldable pub decode_by_groups : List ℕ → VarintDecode
decode_by_groups bs =
    if leb 4 (continued bs)
    then record { result = overflow; value = 0; bytes_consumed = 4 }
    else if leb (length bs) (continued bs)
    then record { result = need_more; value = 0; bytes_consumed = length bs }
    else record {
      result = ok;
      value = groups (continued bs + 1) bs;
      bytes_consumed = continued bs + 1;
    }

-- The same with `rounds` rounds left, `value` read so far and `multiplier` the weight of what follows.
remaining : ℕ → List ℕ → ℕ → ℕ → ℕ → VarintDecode
remaining rounds bs i value multiplier =
    if leb rounds (continued bs)
    then record { result = overflow; value = 0; bytes_consumed = i + rounds }
    else if leb (length bs) (continued bs)
    then record { result = need_more; value = 0; bytes_consumed = i + length bs }
    else record {
      result = ok;
      value = value + multiplier * groups (continued bs + 1) bs;
      bytes_consumed = i + continued bs + 1;
    }

remaining_last :
    (r b : ℕ) (bs : List ℕ) (i value m : ℕ)
    → b < 128
    → remaining (suc r) (b ∷ bs) i value m
      ≡ record { result = ok; value = value + m * b; bytes_consumed = i + 1 }
unfolding remaining continued groups
remaining_last r b bs i value m h = ground arith

groups_cons : (n b : ℕ) (bs : List ℕ) → groups (n + 1) (b ∷ bs) ≡ b % 128 + 128 * groups n bs
unfolding groups
groups_cons n b bs = rw add-one

continued_more : (b : ℕ) (bs : List ℕ) → 128 ≤ b → continued (b ∷ bs) ≡ continued bs + 1
unfolding continued
continued_more b bs h = ground arith

weights : (value m x g : ℕ) → value + m * (x + 128 * g) ≡ value + x * m + m * 128 * g
weights value m x g = omega arith

remaining_more :
    (r b : ℕ) (bs : List ℕ) (i value m : ℕ)
    → 128 ≤ b
    → remaining (suc r) (b ∷ bs) i value m ≡ remaining r bs (i + 1) (value + b % 128 * m) (m * 128)
unfolding remaining
remaining_more r b bs i value m h = rw (continued_more b bs h, groups_cons, weights) (ground arith)

-- One round of the loop, on a last byte and on a byte that goes on.
module _ (len r : ℕ) where
  loop_last :
      (b : ℕ) (bs : List ℕ) (i value m : ℕ)
      → b < 128
      → value + m * b < 4294967296
      → varint_loop len (suc r) (b ∷ bs) i value m
        ≡ record { result = ok; value = value + m * b; bytes_consumed = i + 1 }
  unfolding varint_loop
  loop_last b bs i value m h fits = ground (arith, bit_and_0x7f b, bit_and_0x80 b)

  loop_more :
      (b : ℕ) (bs : List ℕ) (i value m : ℕ)
      → b < 256
      → 128 ≤ b
      → m ≤ 2097151
      → value + b % 128 * m < 4294967296
      → varint_loop len (suc r) (b ∷ bs) i value m
        ≡ varint_loop len r bs (i + 1) (value + b % 128 * m) (m * 128)
  unfolding varint_loop
  loop_more b bs i value m h h' small fits = ground (arith, bit_and_0x7f b, bit_and_0x80 b)

  loop_fourth :
      (b : ℕ) (bs : List ℕ) (i value : ℕ)
      → b < 256
      → 128 ≤ b
      → varint_loop len (suc r) (b ∷ bs) i value 2097152
        ≡ record { result = overflow; value = 0; bytes_consumed = i + 1 }
  unfolding varint_loop
  loop_fourth b bs i value h h' = ground (arith, bit_and_0x7f b, bit_and_0x80 b)

-- The input ends inside the loop, before its fourth byte.
loop_ends :
    (len r i value m : ℕ)
    → i + 0 ≡ len
    → i < 4
    → varint_loop len (suc r) [] i value m ≡ remaining (suc r) [] i value m
unfolding varint_loop remaining continued
loop_ends len r i value m e h = ground arith

remaining_fourth :
    (b : ℕ) (bs : List ℕ) (value : ℕ)
    → 128 ≤ b
    → remaining 1 (b ∷ bs) 3 value 2097152
      ≡ record { result = overflow; value = 0; bytes_consumed = 3 + 1 }
unfolding remaining continued
remaining_fourth b bs value h = ground arith

round_four :
    (len : ℕ) (bs : List ℕ) (value : ℕ)
    → All IsByte bs
    → 3 + length bs ≡ len
    → value < 2097152
    → varint_loop len 1 bs 3 value 2097152 ≡ remaining 1 bs 3 value 2097152
round_four len [] value h e hv = loop_ends len 0 3 value 2097152 e (omega arith)
round_four len (b ∷ bs) value (hb, hbs) e hv = elim (Bool-cases (leb 128 b)) [
  | inl more ↦
      loop_fourth len 0 b bs 3 value hb (omega (arith, leb→le 128 b more))
      ∙ sym (remaining_fourth b bs value (omega (arith, leb→le 128 b more)))
  | inr last ↦
      loop_last len 0 b bs 3 value 2097152 (omega (arith, not_leb→lt 128 b last))
        (omega (arith, not_leb→lt 128 b last))
      ∙ sym (remaining_last 0 b bs 3 value 2097152 (omega (arith, not_leb→lt 128 b last)))
]

round_three :
    (len : ℕ) (bs : List ℕ) (value : ℕ)
    → All IsByte bs
    → 2 + length bs ≡ len
    → value < 16384
    → varint_loop len 2 bs 2 value 16384 ≡ remaining 2 bs 2 value 16384
round_three len [] value h e hv = loop_ends len 1 2 value 16384 e (omega arith)
round_three len (b ∷ bs) value (hb, hbs) e hv = elim (Bool-cases (leb 128 b)) [
  | inl more ↦
      loop_more len 1 b bs 2 value 16384 hb (omega (arith, leb→le 128 b more)) (omega arith)
        (omega arith)
      ∙ round_four len bs (value + b % 128 * 16384) hbs (omega arith) (omega arith)
      ∙ sym (remaining_more 1 b bs 2 value 16384 (omega (arith, leb→le 128 b more)))
  | inr last ↦
      loop_last len 1 b bs 2 value 16384 (omega (arith, not_leb→lt 128 b last))
        (omega (arith, not_leb→lt 128 b last))
      ∙ sym (remaining_last 1 b bs 2 value 16384 (omega (arith, not_leb→lt 128 b last)))
]

round_two :
    (len : ℕ) (bs : List ℕ) (value : ℕ)
    → All IsByte bs
    → 1 + length bs ≡ len
    → value < 128
    → varint_loop len 3 bs 1 value 128 ≡ remaining 3 bs 1 value 128
round_two len [] value h e hv = loop_ends len 2 1 value 128 e (omega arith)
round_two len (b ∷ bs) value (hb, hbs) e hv = elim (Bool-cases (leb 128 b)) [
  | inl more ↦
      loop_more len 2 b bs 1 value 128 hb (omega (arith, leb→le 128 b more)) (omega arith)
        (omega arith)
      ∙ round_three len bs (value + b % 128 * 128) hbs (omega arith) (omega arith)
      ∙ sym (remaining_more 2 b bs 1 value 128 (omega (arith, leb→le 128 b more)))
  | inr last ↦
      loop_last len 2 b bs 1 value 128 (omega (arith, not_leb→lt 128 b last))
        (omega (arith, not_leb→lt 128 b last))
      ∙ sym (remaining_last 2 b bs 1 value 128 (omega (arith, not_leb→lt 128 b last)))
]

round_one :
    (len : ℕ) (bs : List ℕ) (value : ℕ)
    → All IsByte bs
    → 0 + length bs ≡ len
    → value < 1
    → varint_loop len 4 bs 0 value 1 ≡ remaining 4 bs 0 value 1
round_one len [] value h e hv = loop_ends len 3 0 value 1 e (omega arith)
round_one len (b ∷ bs) value (hb, hbs) e hv = elim (Bool-cases (leb 128 b)) [
  | inl more ↦
      loop_more len 3 b bs 0 value 1 hb (omega (arith, leb→le 128 b more)) (omega arith)
        (omega arith)
      ∙ round_two len bs (value + b % 128 * 1) hbs (omega arith) (omega arith)
      ∙ sym (remaining_more 3 b bs 0 value 1 (omega (arith, leb→le 128 b more)))
  | inr last ↦
      loop_last len 3 b bs 0 value 1 (omega (arith, not_leb→lt 128 b last))
        (omega (arith, not_leb→lt 128 b last))
      ∙ sym (remaining_last 3 b bs 0 value 1 (omega (arith, not_leb→lt 128 b last)))
]

-- On every byte string `varint_decode` answers as the format says: Overflow after four bytes with
-- the continuation bit, NeedMore where the input ends before a byte without it, and else Ok with
-- the number that the bytes up to that one stand for and their count.
pub varint_decode-by_groups : (bs : List ℕ) → All IsByte bs → varint_decode bs ≡ decode_by_groups bs
unfolding varint_decode decode_by_groups remaining
varint_decode-by_groups bs h =
    round_one (length bs) bs 0 h (omega arith) (omega arith) ∙ ground arith

groups_bound : (bs : List ℕ) → groups 4 bs ≤ varint_max
unfolding groups
groups_bound [] = omega arith
groups_bound (a ∷ []) = omega arith
groups_bound (a ∷ b ∷ []) = omega arith
groups_bound (a ∷ b ∷ c ∷ []) = omega arith
groups_bound (a ∷ b ∷ c ∷ d ∷ bs) = omega arith

groups_mono : (n m : ℕ) (bs : List ℕ) → n ≤ m → groups n bs ≤ groups m bs
unfolding groups
groups_mono zero m bs h = omega arith
groups_mono (suc n) zero bs h = absurd (omega arith)
groups_mono (suc n) (suc m) [] h = omega arith
groups_mono (suc n) (suc m) (b ∷ bs) h = omega (arith, groups_mono n m bs (omega arith))

-- An Ok answer took between one byte and four, no more than there are, and its value is at most
-- the largest that the format can carry, so the 32-bit sum in the loop never wrapped.
pub varint_decode_bounds :
    (bs : List ℕ)
    → All IsByte bs
    → (varint_decode bs).result ≡ ok
    → (1 ≤ (varint_decode bs).bytes_consumed)
      × ((varint_decode bs).bytes_consumed ≤ 4)
      × ((varint_decode bs).bytes_consumed ≤ length bs)
      × ((varint_decode bs).value ≤ varint_max)
unfolding decode_by_groups
varint_decode_bounds bs h =
    rw (varint_decode-by_groups bs h)
      λ e. ground (arith, groups_bound bs, groups_mono (continued bs + 1) 4 bs)

-- `varint_decode` never answers TooLarge: a fourth continuation byte is reported as Overflow first.
pub varint_decode-ne-too_large :
    (bs : List ℕ) → All IsByte bs → (varint_decode bs).result ≢ too_large
unfolding decode_by_groups
varint_decode-ne-too_large bs h = rw (varint_decode-by_groups bs h) (ground arith)
