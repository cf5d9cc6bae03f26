-- ===== src/Wire/Tests.antt =====
-- Runs of the wire primitives, and their theorems at concrete inputs.
use net_burner_mqtt_broker.Base.{ℕ, ◌≡◌, refl, arith, List, [], ◌∷◌, ◌++◌, some}
use net_burner_mqtt_broker.Wire.{read_u16_be, write_u16_be, write_u32_be}
use net_burner_mqtt_broker.Wire.{encode_utf8_string, decode_utf8_string}
use net_burner_mqtt_broker.Wire.Strings.{decode-encode_utf8_string}

-- The values of `wire_self_test`.
write_u32_run : write_u32_be 0xaabbccdd ≡ 0xaa ∷ 0xbb ∷ 0xcc ∷ 0xdd ∷ []
unfolding write_u32_be
write_u32_run = refl

abbrev mqtt : List ℕ
mqtt = b'M' ∷ b'Q' ∷ b'T' ∷ b'T' ∷ []

encode_run : encode_utf8_string (some mqtt) 6 ≡ some (0 ∷ 4 ∷ mqtt)
unfolding encode_utf8_string write_u16_be
encode_run = refl

decode_run : decode_utf8_string (0 ∷ 4 ∷ mqtt) 3 ≡ some (6, b'M' ∷ b'Q' ∷ [])
unfolding decode_utf8_string read_u16_be
decode_run = refl

decode-encode_utf8_string_example :
    decode_utf8_string (0 ∷ 4 ∷ mqtt ++ (9 ∷ [])) 256 ≡ some (6, mqtt)
decode-encode_utf8_string_example =
    decode-encode_utf8_string mqtt (0 ∷ 4 ∷ mqtt) (9 ∷ []) 6 256 encode_run (omega arith)
