-- ===== src/Varint/RoundTrip.antt =====
-- Encoding, its size, and decoding what was encoded.
use net_burner_mqtt_broker.Base.{ℕ, zero, suc, ◌+◌, ◌/◌, ◌%◌, ◌^◌, ◌≤◌, ◌<◌, ltb}
use net_burner_mqtt_broker.Base.{
  ◌≡◌, refl, ◌∙◌, ap, arith, List, [], ◌∷◌, ◌++◌, length, length-append, All-append, All, IsByte,
  leb,
}
use net_burner_mqtt_broker.Base.{if◌then◌else◌, bit_or, bit_or_0x80, Option, none, some}
use net_burner_mqtt_broker.Base.{Bool-cases, inl, inr, ltb→lt}
use net_burner_mqtt_broker.Varint.{ok, size}
use net_burner_mqtt_broker.Varint.{varint_put, varint_encode, varint_decode, varint_encoded_size}
use net_burner_mqtt_broker.Varint.{varint_max}
use net_burner_mqtt_broker.Varint.Decode.{
  continued, groups, decode_by_groups, varint_decode-by_groups,
}
use mathlib.Core.Option
use net_burner_mqtt_broker.Base.{Option-cases, suc}
use native.Mathlib.Nat.{pow-suc}

-- The bytes that stand for `value`, when `room` of them suffice: every byte is below 256, exactly
-- the last has no continuation bit, and the groups add up to `value`.
record Encodes (room value : ℕ) (bs : List ℕ) : Type 0 where
  bytes : All IsByte bs
  shape : continued bs + 1 ≡ length bs
  read : groups (length bs) bs ≡ value
  fits : length bs ≤ room

-- Whatever follows the encoding changes neither the run of continuation bytes nor the groups.
continued-append :
    (bs rest : List ℕ) → continued bs + 1 ≡ length bs → continued (bs ++ rest) ≡ continued bs
unfolding continued
continued-append [] rest h = absurd (omega arith)
continued-append (b ∷ bs) rest h = ground (arith, continued-append bs rest)

groups-append : (bs rest : List ℕ) → groups (length bs) (bs ++ rest) ≡ groups (length bs) bs
unfolding groups
groups-append [] rest = refl
groups-append (b ∷ bs) rest = omega (arith, groups-append bs rest)

one_byte : (room value : ℕ) → value < 128 → Encodes (suc room) value (value % 128 ∷ [])
unfolding continued groups
one_byte room value h = ground arith

more_bytes :
    (room value : ℕ) (bs : List ℕ)
    → 128 ≤ value
    → Encodes room (value / 128) bs
    → Encodes (suc room) value (bit_or (value % 128) 0x80 ∷ bs)
unfolding continued groups
more_bytes room value bs h e = rw (bit_or_0x80 (value % 128) (omega arith)) (ground arith)

-- The loop stores an encoding of every value that fits seven bits for each byte of room.
put_Encodes :
    (room value : ℕ)
    → value < 128 ^ suc room
    → (bs : List ℕ) × (varint_put (suc room) value ≡ some bs) × Encodes (suc room) value bs
unfolding varint_put
put_Encodes zero value h = (value % 128 ∷ [], ground arith, one_byte 0 value (omega arith))
put_Encodes (suc room) value h = elim (Bool-cases (ltb 0 (value / 128))) [
  | inl more ↦
      let (bs, e, enc) = put_Encodes room (value / 128) (omega (arith, pow-suc 128 (suc room))) in
      (
        bit_or (value % 128) 0x80 ∷ bs,
        rw (more, e),
        more_bytes _ value bs (omega (arith, ltb→lt 0 _ more)) enc,
      )
  | inr last ↦ (value % 128 ∷ [], rw last, one_byte _ value (ground arith))
]

decode-Encodes :
    (room value : ℕ) (bs rest : List ℕ)
    → Encodes room value bs
    → room ≤ 4
    → All IsByte rest
    → varint_decode (bs ++ rest) ≡ record { result = ok; value = value; bytes_consumed = length bs }
unfolding decode_by_groups
decode-Encodes room value bs rest e h hr =
    varint_decode-by_groups (bs ++ rest) (All-append IsByte bs rest e.bytes hr)
    ∙ rw (continued-append bs rest e.shape)
        (ground (arith, length-append bs rest, groups-append bs rest, same))
  where
    same : groups (continued bs + 1) (bs ++ rest) ≡ groups (length bs) (bs ++ rest)
    same = ap (λ n. groups n (bs ++ rest)) (e.shape)

-- A value up to 268435455 is encoded in one to four bytes when `out` has room for four, and
-- `varint_decode` reads it back, with the same count, whatever bytes follow.
pub varint_decode-encode :
    (value : ℕ) (rest : List ℕ)
    → value ≤ varint_max
    → All IsByte rest
    → (bs : List ℕ) × (varint_encode value 4 ≡ some bs)
      × (1 ≤ length bs)
      × (length bs ≤ 4)
      × (varint_decode (bs ++ rest)
          ≡ record { result = ok; value = value; bytes_consumed = length bs })
unfolding varint_encode
varint_decode-encode value rest h hr =
    let (bs, e, enc) = put_Encodes 3 value (omega arith) in
    (bs, e, omega (arith, enc.shape), enc.fits, decode-Encodes 4 value bs rest enc (omega arith) hr)

-- `varint_put` stores a byte for every seven bits of the value, and nothing if they do not fit.
bytes_needed : ℕ → ℕ → Option ℕ
bytes_needed zero value = none
bytes_needed (suc room) value =
    let more = Option.map suc (bytes_needed room (value / 128)) in
    if ltb 0 (value / 128) then more else some 1

put-bytes_needed :
    (room value : ℕ) → Option.map length (varint_put room value) ≡ bytes_needed room value
unfolding varint_put bytes_needed
put-bytes_needed zero value = refl
put-bytes_needed (suc room) value = elim (Option-cases (varint_put room (value / 128))) [
  | inl e ↦ ground (arith, put-bytes_needed room (value / 128))
  | inr (bs, e) ↦ ground (arith, put-bytes_needed room (value / 128))
]

size-map : (o : Option (List ℕ)) → size o ≡ Option.get_or (Option.map length o) 0
size-map none = refl
size-map (some bs) = refl

-- The size that `varint_encoded_size` reports: one byte for each seven bits, and 0 for a value that
-- four bytes cannot carry.
pub varint_encoded_size_lem :
    (value : ℕ)
    → varint_encoded_size value ≡ (
        if ltb value 128
        then 1
        else if ltb value 16384
        then 2
        else if ltb value 2097152
        then 3
        else if leb value varint_max
        then 4
        else 0)
unfolding varint_encoded_size
varint_encoded_size_lem value =
    size-map (varint_put 4 value)
    ∙ rw (put-bytes_needed 4 value) (unfold bytes_needed in ground arith)
