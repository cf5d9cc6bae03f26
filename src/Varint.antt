-- ===== src/Varint.antt =====
-- libs/mqtt_broker/src/varint.cpp and include/mqtt_broker/varint.hpp: the Variable Byte Integer.
pub mod Decode
pub mod RoundTrip
pub mod Consumed
mod Tests
use net_burner_mqtt_broker.Base.{ℕ, zero, suc, ◌+◌, ◌*◌, ◌/◌, ◌%◌, bit_and, bit_or, u32, ltb, leb}
use net_burner_mqtt_broker.Base.{◌==◌, if◌then◌else◌, List, [], ◌∷◌, Option, none, some, length}
use mathlib.Core.Option

abbrev pub varint_max : ℕ
varint_max = 268435455

pub data VarintResult : Type 0 where
  ok need_more too_large overflow : VarintResult

pub record VarintDecode : Type 0 where
  pub result : VarintResult
  pub value : ℕ
  pub bytes_consumed : ℕ

-- After the loop: `if (len >= 4) out.result = TooLarge`.
varint_exit : ℕ → ℕ → VarintDecode
varint_exit len i =
    if leb 4 len
    then record { result = too_large; value = 0; bytes_consumed = i }
    else record { result = need_more; value = 0; bytes_consumed = i }

-- The loop, with `rounds` = 4 - i rounds left and the bytes from `data[i]` on.
varint_loop : ℕ → ℕ → List ℕ → ℕ → ℕ → ℕ → VarintDecode
unfolding varint_exit
varint_loop len zero bytes i value multiplier = varint_exit len i
varint_loop len (suc rounds) [] i value multiplier = varint_exit len i
varint_loop len (suc rounds) (encoded ∷ rest) i value multiplier =
    let value' = u32 (value + u32 (bit_and encoded 0x7f * multiplier)) in
    let next = varint_loop len rounds rest (i + 1) value' (u32 (multiplier * 128)) in
    if bit_and encoded 0x80 == 0
    then record { result = ok; value = value'; bytes_consumed = i + 1 }
    else if ltb (varint_max / 128) multiplier
    then record { result = overflow; value = 0; bytes_consumed = i + 1 }
    else next

unfoldable pub varint_decode : List ℕ → VarintDecode
unfolding varint_loop
varint_decode bytes = varint_loop (length bytes) 4 bytes 0 0 1

-- The bytes that the `do` loop stores, by the room left in `out`; `none` where it returns 0.
varint_put : ℕ → ℕ → Option (List ℕ)
varint_put zero value = none
varint_put (suc room) value =
    let byte = value % 128 in
    let value' = value / 128 in
    let more = Option.map (λ bytes. bit_or byte 0x80 ∷ bytes) (varint_put room value') in
    if ltb 0 value' then more else some (byte ∷ [])

unfoldable pub varint_encode : ℕ → ℕ → Option (List ℕ)
unfolding varint_put
varint_encode value out_cap = varint_put out_cap value

-- What `varint_encode` returns: the number of bytes, 0 where they do not fit.
abbrev pub size : Option (List ℕ) → ℕ
size none = 0
size (some bytes) = length bytes

unfoldable pub varint_encoded_size : ℕ → ℕ
unfolding varint_encode
varint_encoded_size value = size (varint_encode value 4)
