-- ===== src/Encode/Sizes.antt =====
-- Sizes of a PUBLISH in libs/mqtt_broker/src/encode.cpp: the estimate and the bytes of the header.
use net_burner_mqtt_broker.Base.{
  ℕ, suc, ◌+◌, ◌≤◌, ◌≡◌, refl, arith, Bool, true, false, Bool-cases, inl, inr, leb, ltb, u16,
  if◌then◌else◌, List, [], ◌∷◌, ◌++◌, length, length-append, Option, some, none, ◌<◌, u32,
}
use mathlib.Core.Option
use net_burner_mqtt_broker.Varint.{size, varint_encode, varint_encoded_size}
use net_burner_mqtt_broker.Varint.RoundTrip.{varint_encoded_size_lem}
use net_burner_mqtt_broker.Wire.{write_u16_be, write_u32_be}
use net_burner_mqtt_broker.MqttTypes.{id_message_expiry_interval}
use net_burner_mqtt_broker.Encode.{estimate_publish_size, publish_header, varint_bytes4}

length-word : (v : ℕ) (rest : List ℕ) → length (write_u16_be v ++ rest) ≡ 2 + length rest
unfolding write_u16_be
length-word v rest = omega arith

length-if :
    (c : Bool) (xs ys : List ℕ)
    → length (if c then xs else ys) ≡ (if c then length xs else length ys)
length-if true xs ys = refl
length-if false xs ys = refl

-- The property section of a PUBLISH.
length-section :
    (expiry : ℕ) (e : Bool) (pl prop_bytes : List ℕ)
    → length
        (pl ++ ((if e then id_message_expiry_interval ∷ write_u32_be expiry else []) ++ prop_bytes))
      ≡ length pl + (length prop_bytes + (if e then 5 else 0))
unfolding write_u32_be
length-section expiry true pl prop_bytes =
    omega
      (arith, length-append pl (id_message_expiry_interval ∷ (write_u32_be expiry ++ prop_bytes)))
length-section expiry false pl prop_bytes = omega (arith, length-append pl prop_bytes)

-- What stands behind the remaining length.
length-behind :
    (v5 q e : Bool) (id expiry : ℕ) (topic pl prop_bytes : List ℕ)
    → length (
        write_u16_be (u16 (length topic))
        ++ (topic
            ++ ((if q then write_u16_be id else [])
                ++ (if v5
                    then pl
                      ++ ((if e then id_message_expiry_interval ∷ write_u32_be expiry else [])
                          ++ prop_bytes)
                    else []))))
      ≡ 2
        + length topic
        + (if q then 2 else 0)
        + (if v5 then length pl + (length prop_bytes + (if e then 5 else 0)) else 0)
length-behind true true e id expiry topic pl prop_bytes = omega (
  arith,
  length-word (u16 (length topic)) (
      topic
      ++ (write_u16_be id
          ++ (pl
              ++ ((if e then id_message_expiry_interval ∷ write_u32_be expiry else [])
                  ++ prop_bytes)))),
  length-append topic (
      write_u16_be id
      ++ (pl
          ++ ((if e then id_message_expiry_interval ∷ write_u32_be expiry else []) ++ prop_bytes))),
  length-word id
      (pl ++ ((if e then id_message_expiry_interval ∷ write_u32_be expiry else []) ++ prop_bytes)),
  length-section expiry e pl prop_bytes,
)
length-behind true false e id expiry topic pl prop_bytes = omega (
  arith,
  length-word (u16 (length topic)) (
      topic
      ++ (pl
          ++ ((if e then id_message_expiry_interval ∷ write_u32_be expiry else []) ++ prop_bytes))),
  length-append topic
      (pl ++ ((if e then id_message_expiry_interval ∷ write_u32_be expiry else []) ++ prop_bytes)),
  length-section expiry e pl prop_bytes,
)
length-behind false true e id expiry topic pl prop_bytes = omega (
  arith,
  length-word (u16 (length topic)) (topic ++ (write_u16_be id ++ [])),
  length-append topic (write_u16_be id ++ []),
  length-word id [],
)
length-behind false false e id expiry topic pl prop_bytes =
    omega (arith, length-word (u16 (length topic)) (topic ++ []), length-append topic [])

-- A packet's length from the length of what its body has.
assembled :
    (body payload_len : ℕ) (size behind : List ℕ)
    → body ≡ length behind + payload_len
    → 1 + length size + body ≡ suc (length (size ++ behind)) + payload_len
assembled body payload_len size behind e = omega (arith, e, length-append size behind)

-- The estimate is the number of bytes of the header that is built, and of the payload.
pub estimate_publish_size-publish_header :
    (topic : List ℕ) (retain : Bool) (qos packet_id : ℕ) (dup : Bool) (prop_bytes : List ℕ)
    (payload_len : ℕ) (e : Bool) (expiry protocol_level : ℕ)
    → qos ≤ 2
    → estimate_publish_size (some topic) payload_len qos (length prop_bytes) e protocol_level
      ≡ length (
          publish_header topic retain qos packet_id dup prop_bytes payload_len e expiry
            protocol_level)
        + payload_len
unfolding estimate_publish_size publish_header
estimate_publish_size-publish_header topic retain qos packet_id dup prop_bytes payload_len e expiry
      level h =
    let legal : ltb 2 qos ≡ false = ground (arith, h) in
    let pl = varint_bytes4 (length prop_bytes + (if e then 5 else 0)) in
    elim (Bool-cases (leb 5 level)) [
      | inl v ↦
          let known = length-behind true (ltb 0 qos) e packet_id expiry topic pl prop_bytes in
          rw (legal, v) (assembled _ payload_len _ _ (omega (arith, known)))
      | inr v ↦
          let known = length-behind false (ltb 0 qos) e packet_id expiry topic [] prop_bytes in
          rw (legal, v) (assembled _ payload_len _ _ (omega (arith, known)))
    ]

get_or-size : (o : Option (List ℕ)) → length (Option.get_or o []) ≡ size o
get_or-size none = refl
get_or-size (some bs) = refl

varint_bytes4_two : (v : ℕ) → v < 16384 → length (varint_bytes4 v) ≤ 2
unfolding varint_encoded_size
varint_bytes4_two v h =
    ground (arith, get_or-size (varint_encode (u32 v) 4), varint_encoded_size_lem (u32 v))

varint_bytes4_three : (v : ℕ) → v < 2097152 → length (varint_bytes4 v) ≤ 3
unfolding varint_encoded_size
varint_bytes4_three v h =
    ground (arith, get_or-size (varint_encode (u32 v) 4), varint_encoded_size_lem (u32 v))

header_room :
    (v : ℕ) (behind : List ℕ)
    → v < 2097152
    → length behind ≤ 524
    → suc (length (varint_bytes4 v ++ behind)) ≤ 528
header_room v behind h k =
    omega (arith, k, varint_bytes4_three v h, length-append (varint_bytes4 v) behind)

-- The header fits in its array of 16 + 256 + 256 bytes, for a topic of at most 256 bytes, at most
-- 256 bytes of stored properties and a payload of at most 2096000 bytes.
pub publish_header_bound :
    (topic : List ℕ) (retain : Bool) (qos packet_id : ℕ) (dup : Bool) (prop_bytes : List ℕ)
    (payload_len : ℕ) (e : Bool) (expiry protocol_level : ℕ)
    → length topic ≤ 256
    → length prop_bytes ≤ 256
    → payload_len ≤ 2096000
    → length (
        publish_header topic retain qos packet_id dup prop_bytes payload_len e expiry
          protocol_level)
      ≤ 528
unfolding publish_header
publish_header_bound topic retain qos packet_id dup prop_bytes payload_len e expiry level t p l =
    let props_size = length prop_bytes + (if e then 5 else 0) in
    let expiry_size : (if e then 5 else 0) ≤ 5 = ground arith in
    let id_size : (if ltb 0 qos then 2 else 0) ≤ 2 = ground arith in
    let pl = varint_bytes4 props_size in
    let two = varint_bytes4_two props_size (omega (arith, p, expiry_size)) in
    elim (Bool-cases (leb 5 level)) [
      | inl v ↦
          let known = length-behind true (ltb 0 qos) e packet_id expiry topic pl prop_bytes in
          rw v (
            header_room _ _ (omega (arith, two, t, p, l, expiry_size, id_size))
              (omega (arith, known, two, t, p, expiry_size, id_size)))
      | inr v ↦
          let known = length-behind false (ltb 0 qos) e packet_id expiry topic [] prop_bytes in
          rw v (header_room _ _ (omega (arith, t, l, id_size)) (omega (arith, known, t, id_size)))
    ]
