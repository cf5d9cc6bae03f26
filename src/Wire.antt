-- ===== src/Wire.antt =====
-- libs/mqtt_broker/src/wire.cpp and include/mqtt_broker/wire.hpp: big-endian words and UTF-8
-- Encoded Strings. A buffer is the list of its bytes, and a C string the list of its characters
-- before the NUL.
pub mod Words
pub mod Strings
mod Tests
use net_burner_mqtt_broker.Base.{
  ℕ, ◌+◌, ◌-◌, ◌*◌, ◌/◌, ◌^◌, bit_and, bit_or, u8, u16, u32, ltb, leb,
}
use net_burner_mqtt_broker.Base.{◌==◌, ◌||◌, if◌then◌else◌, List, [], ◌∷◌, ◌++◌, Option, none, some}
use net_burner_mqtt_broker.Base.{length, take, drop, get_elem?}
use mathlib.Core.Option

-- `p[i]`. The callers read inside the buffer; out of it the model answers 0.
abbrev pub byte_at : List ℕ → ℕ → ℕ
byte_at p i = Option.get_or (get_elem? p i) 0

unfoldable pub read_u16_be : List ℕ → ℕ
read_u16_be p = u16 (bit_or (u16 (byte_at p 0) * 2 ^ 8) (byte_at p 1))

unfoldable pub read_u32_be : List ℕ → ℕ
read_u32_be p =
    bit_or
      (bit_or (bit_or (u32 (byte_at p 0 * 2 ^ 24)) (u32 (byte_at p 1 * 2 ^ 16)))
        (u32 (byte_at p 2 * 2 ^ 8)))
      (byte_at p 3)

-- The two and the four bytes that are stored at `p`.
unfoldable pub write_u16_be : ℕ → List ℕ
write_u16_be v = u8 (bit_and (v / 2 ^ 8) 0xff) ∷ u8 (bit_and v 0xff) ∷ []

unfoldable pub write_u32_be : ℕ → List ℕ
write_u32_be v =
    u8 (bit_and (v / 2 ^ 24) 0xff)
    ∷ u8 (bit_and (v / 2 ^ 16) 0xff)
    ∷ u8 (bit_and (v / 2 ^ 8) 0xff)
    ∷ u8 (bit_and v 0xff)
    ∷ []

-- The bytes stored in `out`, whose number is returned; `none` where 0 is returned.
-- `str` is the argument, `none` for a null pointer.
unfoldable pub encode_utf8_string : Option (List ℕ) → ℕ → Option (List ℕ)
encode_utf8_string none out_cap = none
encode_utf8_string (some str) out_cap =
    if ltb out_cap 2
    then none
    else if ltb 0xffff (length str) || ltb out_cap (2 + length str)
    then none
    else some (write_u16_be (u16 (length str)) ++ str)

-- The count returned and the characters stored in `out` before the NUL; `none` where 0 is returned.
unfoldable pub decode_utf8_string : List ℕ → ℕ → Option (ℕ × List ℕ)
decode_utf8_string input out_cap =
    if ltb (length input) 2 || out_cap == 0
    then none
    else let slen = read_u16_be input in
      if ltb (length input) (slen + 2)
      then none
      else let copy = if leb out_cap slen then out_cap - 1 else slen in
        some (2 + slen, take copy (drop 2 input))
