-- ===== src/Parser/Acks.antt =====
-- Acknowledgements that libs/mqtt_broker/src/encode.cpp writes, read by its parser.cpp.
use net_burner_mqtt_broker.Base.{
  ℕ, ◌≤◌, ◌<◌, ◌≡◌, refl, ◌∙◌, true, false, ltb, leb, u8, arith, List, [], ◌∷◌, ◌++◌, length,
  Option, none, some, if◌then◌else◌,
}
use net_burner_mqtt_broker.MqttTypes.{
  PacketType, puback, pubrec, pubrel, pubcomp, packet_type_from_byte, packet_type_to_byte,
}
use net_burner_mqtt_broker.Varint.{varint_encode, varint_decode}
use net_burner_mqtt_broker.Wire.{write_u16_be, read_u16_be}
use net_burner_mqtt_broker.Wire.Words.{read_u16_be-write}
use net_burner_mqtt_broker.Encode.{
  encode_ack_packet, encode_puback, encode_pubrec, encode_pubrel, encode_pubcomp,
}
use net_burner_mqtt_broker.Parser.Packet.{
  PacketParser, reset, complete, properties_phase, blank_packet,
}
use net_burner_mqtt_broker.Parser.Machine.{feed, finish_packet, properties_done, completed}
use net_burner_mqtt_broker.Base.{◌^◌, bit_and, bit_or, ◌/◌, sub32, ◌==◌, Bool-cases, inl, inr}
use net_burner_mqtt_broker.PropertyPool.{PropertyPool, acquire_slot, free_slot}
use net_burner_mqtt_broker.Parser.Sections.{empty_section-parsed}

-- An acknowledgement has been read, with nothing left over.
pub record Acked (r : PacketParser × ℕ) (t : PacketType) (i r_code size : ℕ) : Type 0 where
  pub phase : r.0.phase ≡ complete
  pub type : r.0.packet.type ≡ t
  pub id : r.0.packet.packet_id ≡ i
  pub reason : r.0.packet.ack_reason_code ≡ r_code
  pub count : r.1 ≡ size

renamed :
    {r : PacketParser × ℕ} {t : PacketType} {i j c n : ℕ}
    → Acked r t i c n
    → i ≡ j
    → Acked r t j c n
renamed a e = record {
  phase = a.phase;
  type = a.type;
  id = a.id ∙ e;
  reason = a.reason;
  count = a.count;
}

-- The pool has a slot for the (empty) section of properties, where there is a pool.
unfoldable pub CanHold : Option PropertyPool → Type 0
CanHold none = Unit
CanHold (some pool) = (length pool.slots ≤ 65535) × ((i : ℕ) × (free_slot pool.slots ≡ some i))

pub data IsAck : PacketType → Type 0 where
  of_puback : IsAck puback
  of_pubrec : IsAck pubrec
  of_pubrel : IsAck pubrel
  of_pubcomp : IsAck pubcomp

-- The fixed header's first byte.
abbrev ack_byte : PacketType → ℕ
ack_byte pubrel = 0x62
ack_byte type = packet_type_to_byte type

short_ack-Acked :
    {type : PacketType} (p : PacketParser) (hi lo : ℕ)
    → IsAck type
    → ltb p.limits.max_packet_bytes 2 ≡ false
    → Acked
        (feed (reset p) (ack_byte type ∷ 2 ∷ hi ∷ lo ∷ []))
        type
        (read_u16_be (hi ∷ lo ∷ []))
        0
        4
unfolding feed reset packet_type_from_byte varint_decode finish_packet packet_type_to_byte
short_ack-Acked p hi lo of_puback h =
    rw h (record { phase = refl; type = refl; id = refl; reason = refl; count = refl })
short_ack-Acked p hi lo of_pubrec h =
    rw h (record { phase = refl; type = refl; id = refl; reason = refl; count = refl })
short_ack-Acked p hi lo of_pubrel h =
    rw h (record { phase = refl; type = refl; id = refl; reason = refl; count = refl })
short_ack-Acked p hi lo of_pubcomp h =
    rw h (record { phase = refl; type = refl; id = refl; reason = refl; count = refl })

finish_ack :
    {type : PacketType} (q : PacketParser)
    → IsAck type
    → q.packet.type ≡ type
    → finish_packet q ≡ completed q
unfolding finish_packet
finish_ack q of_puback e = rw e refl
finish_ack q of_pubrec e = rw e refl
finish_ack q of_pubrel e = rw e refl
finish_ack q of_pubcomp e = rw e refl

-- The parser when the section's length, 0, has been stored.
at_section : PacketParser → PacketType → ℕ → ℕ → PacketParser
at_section p type id reason =
    let b = ack_byte type in
    record (reset p) {
      phase = properties_phase;
      fixed_header = b;
      remaining_total = 4;
      remaining_consumed = 4;
      rl_buf = 4 ∷ [];
      control_buf = 0 ∷ [];
      control_target = 1;
      property_len_known = true;
      packet = record (blank_packet) {
        type = type;
        flags = bit_and b 0x0f;
        qos = bit_and (b / 2) 0x03;
        remaining_length = 4;
        packet_id = id;
        ack_reason_code = reason;
      };
    }

-- The section of no properties ends the packet.
properties_done-Acked :
    {type : PacketType} (o : Option PropertyPool) (q : PacketParser)
    → IsAck type
    → q.packet.type ≡ type
    → q.control_buf ≡ 0 ∷ []
    → (sub32 q.remaining_total q.remaining_consumed == 0) ≡ true
    → q.prop_pool ≡ o
    → CanHold o
    → Acked (properties_done q, 6) type q.packet.packet_id q.packet.ack_reason_code 6
unfolding properties_done CanHold
properties_done-Acked none q a e b r n c =
    rw (properties_done, n, r, finish_ack q a e)
      (record { phase = refl; type = e; id = refl; reason = refl; count = refl })
properties_done-Acked (some pool) q a e b r n c =
    let parsed = empty_section-parsed q.packet.type pool (c.1.0) (c.1.1) (c.0) in
    rw
      (
        properties_done,
        n,
        b,
        parsed,
        r,
        finish_ack
            (record q {
              prop_pool = some (acquire_slot pool).0;
              control_buf = 0 ∷ [];
              packet = record (q.packet) { properties = (acquire_slot pool).1 };
            })
            a e,
      )
      (record { phase = refl; type = e; id = refl; reason = refl; count = refl })

long_ack-Acked :
    {type : PacketType} (p : PacketParser) (hi lo reason : ℕ)
    → IsAck type
    → ltb p.limits.max_packet_bytes 4 ≡ false
    → CanHold p.prop_pool
    → Acked
        (feed (reset p) (ack_byte type ∷ 4 ∷ hi ∷ lo ∷ reason ∷ 0 ∷ []))
        type
        (read_u16_be (hi ∷ lo ∷ []))
        reason
        6
unfolding feed reset packet_type_from_byte varint_decode finish_packet packet_type_to_byte
    at_section
long_ack-Acked p hi lo reason of_puback h c = rw h (
    properties_done-Acked p.prop_pool (at_section p puback (read_u16_be (hi ∷ lo ∷ [])) reason)
      of_puback refl refl refl refl c)
long_ack-Acked p hi lo reason of_pubrec h c = rw h (
    properties_done-Acked p.prop_pool (at_section p pubrec (read_u16_be (hi ∷ lo ∷ [])) reason)
      of_pubrec refl refl refl refl c)
long_ack-Acked p hi lo reason of_pubrel h c = rw h (
    properties_done-Acked p.prop_pool (at_section p pubrel (read_u16_be (hi ∷ lo ∷ [])) reason)
      of_pubrel refl refl refl refl c)
long_ack-Acked p hi lo reason of_pubcomp h c = rw h (
    properties_done-Acked p.prop_pool (at_section p pubcomp (read_u16_be (hi ∷ lo ∷ [])) reason)
      of_pubcomp refl refl refl refl c)

-- The encoder of the acknowledgement of a type.
abbrev pub encode_ack : PacketType → ℕ → ℕ → ℕ → ℕ → List ℕ
encode_ack puback = encode_puback
encode_ack pubrec = encode_pubrec
encode_ack pubrel = encode_pubrel
encode_ack pubcomp = encode_pubcomp
encode_ack _ = λ room id reason level. []

ack_packet_bytes :
    (type : PacketType) (bits room id reason level : ℕ)
    → 6 ≤ room
    → 0 < id
    → reason < 256
    → encode_ack_packet room type id reason bits level
      ≡ bit_or (packet_type_to_byte type) bits
        ∷ (if leb 5 level
            then 4 ∷ (write_u16_be id ++ (reason ∷ 0 ∷ []))
            else 2 ∷ (write_u16_be id ++ []))
unfolding encode_ack_packet varint_encode
ack_packet_bytes type bits room id reason level c i r =
    let small : ltb room 6 ≡ false = ground (arith, c) in
    let some_id : (id == 0) ≡ false = ground (arith, i) in
    let byte : u8 reason ≡ reason = ground (arith, r) in
    elim (Bool-cases (leb 5 level)) [
      | inl e ↦ rw (e, small, some_id, byte) refl
      | inr e ↦
          let fits : ltb room 4 ≡ false = ground (arith, c) in rw (e, small, fits, some_id) refl
    ]

-- What the four encoders store.
ack_bytes :
    {type : PacketType} (room id reason level : ℕ)
    → IsAck type
    → 6 ≤ room
    → 0 < id
    → reason < 256
    → encode_ack type room id reason level
      ≡ ack_byte type
        ∷ (if leb 5 level
            then 4 ∷ (write_u16_be id ++ (reason ∷ 0 ∷ []))
            else 2 ∷ (write_u16_be id ++ []))
unfolding encode_puback encode_pubrec encode_pubrel encode_pubcomp packet_type_to_byte
ack_bytes room id reason level of_puback c i r =
    ack_packet_bytes puback 0 room id reason level c i r
ack_bytes room id reason level of_pubrec c i r =
    ack_packet_bytes pubrec 0 room id reason level c i r
ack_bytes room id reason level of_pubrel c i r =
    ack_packet_bytes pubrel 2 room id reason level c i r
ack_bytes room id reason level of_pubcomp c i r =
    ack_packet_bytes pubcomp 0 room id reason level c i r

-- An acknowledgement (PUBACK, PUBREC, PUBREL or PUBCOMP) that the encoder writes, for an identifier
-- from 1 to 65535 and a buffer of six bytes at least, is read by a reset parser as a complete packet
-- of its type with its identifier, all bytes taken: from level 5 on with its reason code, at level 4
-- with the reason code 0, which the packet leaves out. The parser's limit admits 4 bytes, and its
-- property pool, if it has one, has a slot left.
pub encode_ack-feed :
    {type : PacketType} (p : PacketParser) (room id reason level : ℕ)
    → IsAck type
    → 6 ≤ room
    → 0 < id
    → id < 65536
    → reason < 256
    → 4 ≤ p.limits.max_packet_bytes
    → CanHold p.prop_pool
    → Acked
        (feed (reset p) (encode_ack type room id reason level))
        type
        id
        (if leb 5 level then reason else 0)
        (if leb 5 level then 6 else 4)
unfolding write_u16_be
encode_ack-feed p room id reason level a c i w r l h =
    let bytes = ack_bytes room id reason level a c i r in
    let same : read_u16_be (write_u16_be id ++ []) ≡ id = read_u16_be-write id [] w in
    elim (Bool-cases (leb 5 level)) [
      | inl e ↦
          let fits : ltb p.limits.max_packet_bytes 4 ≡ false = ground (arith, l) in
          rw (bytes, e)
            (renamed
              (long_ack-Acked p (u8 (bit_and (id / 2 ^ 8) 0xff)) (u8 (bit_and id 0xff)) reason a
                fits h)
              same)
      | inr e ↦
          let fits : ltb p.limits.max_packet_bytes 2 ≡ false = ground (arith, l) in
          rw (bytes, e)
            (renamed
              (short_ack-Acked p (u8 (bit_and (id / 2 ^ 8) 0xff)) (u8 (bit_and id 0xff)) a fits)
              same)
    ]
