-- ===== src/Varint/Tests.antt =====
-- Runs of the Variable Byte Integer code, and its theorems at concrete inputs.
use net_burner_mqtt_broker.Base.{ℕ, ◌≤◌, ◌≡◌, refl, arith, List, [], ◌∷◌, ◌++◌, length, some, none}
use net_burner_mqtt_broker.Varint.{ok, overflow}
use net_burner_mqtt_broker.Varint.{varint_decode, varint_encode, varint_encoded_size}
use net_burner_mqtt_broker.Varint.RoundTrip.{varint_decode-encode}

abbrev four_continued : List ℕ
four_continued = 0x80 ∷ 0x80 ∷ 0x80 ∷ 0x80 ∷ 0x01 ∷ []

encode_321 : varint_encode 321 4 ≡ some (0xc1 ∷ 0x02 ∷ [])
unfolding varint_encode
encode_321 = refl

encode_no_room : varint_encode 321 1 ≡ none
unfolding varint_encode
encode_no_room = refl

encoded_size_above_max : varint_encoded_size 268435456 ≡ 0
unfolding varint_encoded_size
encoded_size_above_max = refl

decode_four_continued : (varint_decode four_continued).result ≡ overflow
unfolding varint_decode
decode_four_continued = refl

decode_ok : (varint_decode (0xc1 ∷ 0x02 ∷ 7 ∷ [])).result ≡ ok
unfolding varint_decode
decode_ok = refl

varint_decode-encode_example :
    (bs : List ℕ) × (varint_encode 321 4 ≡ some bs)
    × (1 ≤ length bs)
    × (length bs ≤ 4)
    × (varint_decode (bs ++ (9 ∷ []))
        ≡ record { result = ok; value = 321; bytes_consumed = length bs })
varint_decode-encode_example = varint_decode-encode 321 (9 ∷ []) (omega arith) (omega arith)
