-- ===== src/Wire/Strings.antt =====
-- UTF-8 Encoded Strings: round trip, truncation of the output, and refusals.
use net_burner_mqtt_broker.Base.{ℕ, zero, suc, ◌+◌, ◌-◌, ◌<◌, ◌≤◌, ◌≡◌, arith, refl}
use net_burner_mqtt_broker.Base.{List, [], ◌∷◌, ◌++◌, length, length-append, take, drop, min}
use net_burner_mqtt_broker.Base.{none, some, leb, if◌then◌else◌, ◌&&◌, u16, ap}
use net_burner_mqtt_broker.Base.{length-take, length-drop}
use mathlib.Core.List.{append_assoc}
use native.Mathlib.Numerals.{unary_clauses}
use net_burner_mqtt_broker.Wire.{read_u16_be, write_u16_be, encode_utf8_string, decode_utf8_string}
use net_burner_mqtt_broker.Wire.Words.{read_u16_be-write, length-write_u16_be}

encoded_form :
    (str : List ℕ) (out_cap : ℕ) {bs : List ℕ}
    → encode_utf8_string (some str) out_cap ≡ some bs
    → (bs ≡ write_u16_be (length str) ++ str) × (length str ≤ 65535) × (2 + length str ≤ out_cap)
unfolding encode_utf8_string
encoded_form str out_cap e = ground (arith, same)
  where
    same : length str < 65536 → write_u16_be (u16 (length str)) ≡ write_u16_be (length str)
    same h = ap write_u16_be (omega arith)

-- The copy never reads past the string that was stored.
take-min-append : (n : ℕ) (xs ys : List ℕ) → take (min n (length xs)) (xs ++ ys) ≡ take n xs
take-min-append zero [] ys = refl
take-min-append (suc n) [] ys = simp unary_clauses
take-min-append zero (x ∷ xs) ys = simp unary_clauses
take-min-append (suc n) (x ∷ xs) ys = simp unary_clauses (ap (λ l. x ∷ l) (take-min-append n xs ys))

drop_two_written : (v : ℕ) (ys : List ℕ) → drop 2 (write_u16_be v ++ ys) ≡ ys
unfolding write_u16_be
drop_two_written v ys = refl

module _ (str rest : List ℕ) (out_cap : ℕ) (h : length str ≤ 65535) (room : 0 < out_cap) where
  input_length : length (write_u16_be (length str) ++ (str ++ rest)) ≡ 2 + length str + length rest
  input_length = omega (
    arith,
    length-append (write_u16_be (length str)) (str ++ rest),
    length-write_u16_be (length str),
    length-append str rest,
  )

  decoded :
      decode_utf8_string (write_u16_be (length str) ++ (str ++ rest)) out_cap
      ≡ some (2 + length str, take (out_cap - 1) str)
  unfolding decode_utf8_string
  decoded =
      rw
        (
          read_u16_be-write (length str) (str ++ rest) (omega arith),
          drop_two_written (length str) (str ++ rest),
        )
        (ground (arith, input_length, take-min-append (out_cap - 1) str rest, copied))
    where
      copied :
          take (if leb out_cap (length str) then out_cap - 1 else length str) (str ++ rest)
          ≡ take (min (out_cap - 1) (length str)) (str ++ rest)
      copied = ap (λ n. take n (str ++ rest)) (ground arith)

-- A string that `encode_utf8_string` stored is decoded to the same count and, but for the
-- characters that `out` has no room for beside the NUL, to the same string; what follows is left.
pub decode-encode_utf8_string :
    (str bs rest : List ℕ) (cap out_cap : ℕ)
    → encode_utf8_string (some str) cap ≡ some bs
    → 0 < out_cap
    → decode_utf8_string (bs ++ rest) out_cap ≡ some (length bs, take (out_cap - 1) str)
decode-encode_utf8_string str bs rest cap out_cap e h =
    let (shape, short, fits) = encoded_form str cap e in
    let n : length (write_u16_be (length str) ++ str) ≡ 2 + length str =
      omega
        (arith, length-append (write_u16_be (length str)) str, length-write_u16_be (length str)) in
    rw (shape, n, append_assoc) (decoded str rest out_cap short h)

-- The count that `decode_utf8_string` returns is the length prefix plus 2 and lies inside the input,
-- and what it stores is no longer than the string and fits `out` with its NUL.
pub decode_utf8_string_bounds :
    (input : List ℕ) (out_cap : ℕ) {n : ℕ} {out : List ℕ}
    → decode_utf8_string input out_cap ≡ some (n, out)
    → (n ≡ 2 + read_u16_be input)
      × (n ≤ length input)
      × (length out < out_cap)
      × (length out + 2 ≤ n)
unfolding decode_utf8_string
decode_utf8_string_bounds input out_cap e = ground (
  arith,
  length-take (if leb out_cap (read_u16_be input) then out_cap - 1 else read_u16_be input)
      (drop 2 input),
  length-drop 2 input,
)

-- A stored string is the length prefix and the string; nothing is stored for a null pointer, for a
-- string above 65535 bytes, or where `out` has no room for both, and all else is stored.
pub encode_utf8_string_cases :
    (str : List ℕ) (out_cap : ℕ)
    → (encode_utf8_string none out_cap ≡ none)
      × (encode_utf8_string (some str) out_cap ≡ (
          if leb (length str) 65535 && leb (2 + length str) out_cap
          then some (write_u16_be (length str) ++ str)
          else none))
unfolding encode_utf8_string
encode_utf8_string_cases str out_cap = (refl, ground (arith, same))
  where
    same : length str < 65536 → write_u16_be (u16 (length str)) ≡ write_u16_be (length str)
    same h = ap write_u16_be (omega arith)
