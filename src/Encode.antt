-- ===== src/Encode.antt =====
-- libs/mqtt_broker/src/encode.cpp and include/mqtt_broker/encode.hpp: the packets that the broker
-- sends. A function answers the bytes that it stores in `out`, whose number the code returns; where
-- the code returns 0 that is no byte. `out` is not null.
pub mod Publish
pub mod Sizes
mod Tests
use net_burner_mqtt_broker.Base.{
  ℕ, zero, suc, ◌+◌, ◌-◌, ◌*◌, ◌/◌, ◌%◌, ◌^◌, bit_and, bit_or, min, Bool, true, false, ◌&&◌, ◌||◌,
  not, ltb, leb, ◌==◌, u8, u16, u32, if◌then◌else◌,
}
use net_burner_mqtt_broker.Base.{List, [], ◌∷◌, ◌++◌, Option, none, some, length, take, drop, map}
use net_burner_mqtt_broker.Delivery.{MessageHandle}
use net_burner_mqtt_broker.MqttTypes.{
  PacketType, connack, publish, puback, pubrec, pubrel, pubcomp, suback, unsuback, pingresp,
  disconnect, packet_type_to_byte, id_assigned_client_identifier, id_content_type,
  id_correlation_data, id_maximum_packet_size, id_message_expiry_interval,
  id_payload_format_indicator, id_receive_maximum, id_response_topic, id_retain_available,
  id_server_keep_alive, id_shared_subscription_available, id_subscription_identifier_available,
  id_topic_alias_maximum, id_user_property, id_wildcard_subscription_available,
  reason_bad_user_name_or_password, reason_client_identifier_not_valid, reason_not_authorized,
  reason_protocol_error, reason_success, reason_unsupported_protocol_version,
}
use net_burner_mqtt_broker.Varint.{varint_encode, size}
use net_burner_mqtt_broker.Wire.{write_u16_be, write_u32_be, read_u32_be, byte_at}
use net_burner_mqtt_broker.Inflight.Limits.{connack_receive_maximum}
use net_burner_mqtt_broker.MessagePool.{MessagePool, props}
use net_burner_mqtt_broker.MessagePool.Payload.{read_payload}
use net_burner_mqtt_broker.PropertyPool.{
  PropertyPool, PropertyHandle, PropertyRecord, PropertyValueKind, byte_value, u16_value, u32_value,
  utf8_string, binary, varint, user_property, records_of,
}
use mathlib.Core.Option

-- `varint_encode` into a buffer of four bytes.
abbrev pub varint_bytes4 : ℕ → List ℕ
varint_bytes4 value = Option.get_or (varint_encode (u32 value) 4) []

unfoldable pub estimate_publish_size : Option (List ℕ) → ℕ → ℕ → ℕ → Bool → ℕ → ℕ
estimate_publish_size none payload_len qos props_len has_expiry protocol_level = 0
estimate_publish_size (some topic) payload_len qos props_len has_expiry protocol_level =
    let vh = 2 + length topic + (if ltb 0 qos then 2 else 0) in
    let v5 = leb 5 protocol_level in
    let prop_total = if v5 then props_len + (if has_expiry then 5 else 0) else 0 in
    let pl_size = if v5 then length (varint_bytes4 prop_total) else 0 in
    let body = vh + pl_size + prop_total + payload_len in
    if ltb 2 qos then 0 else 1 + length (varint_bytes4 body) + body

-- The two shorter overloads.
unfoldable pub estimate_publish_plain : Option (List ℕ) → ℕ → ℕ → ℕ
unfolding estimate_publish_size
estimate_publish_plain topic payload_len qos = estimate_publish_size topic payload_len qos 0 false 5

unfoldable pub estimate_publish_qos0_size : Option (List ℕ) → ℕ → ℕ
unfolding estimate_publish_plain
estimate_publish_qos0_size topic payload_len = estimate_publish_plain topic payload_len 0

-- One record of the loop of `serialize_forward_properties`, with the room that is left; the Message
-- Expiry Interval is not among the bytes.
unfoldable pub forward_record : List ℕ → PropertyRecord → ℕ → List ℕ
forward_record blob r room =
    let value = take r.length (drop r.offset blob) in
    let key = take r.key_length (drop r.key_offset blob) in
    if r.id == id_payload_format_indicator
    then (elim r.kind [
      | byte_value ↦ (if leb 2 room then u8 r.id ∷ byte_at blob r.offset ∷ [] else [])
      | _ ↦ []
    ])
    else if r.id == id_content_type || r.id == id_response_topic || r.id == id_correlation_data
    then (if leb (3 + r.length) room then u8 r.id ∷ (write_u16_be r.length ++ value) else [])
    else if r.id == id_user_property
    then (if leb (5 + r.key_length + r.length) room
        then u8 r.id ∷ (write_u16_be r.key_length ++ (key ++ (write_u16_be r.length ++ value)))
        else [])
    else []

unfoldable pub forward_records : List ℕ → List PropertyRecord → ℕ → List ℕ
unfolding forward_record
forward_records blob [] room = []
forward_records blob (r ∷ rs) room =
    let bytes = forward_record blob r room in bytes ++ forward_records blob rs (room - length bytes)

-- What `*expiry_interval` is at the end, from `expiry` on.
unfoldable pub forward_expiry : List ℕ → List PropertyRecord → ℕ → ℕ
forward_expiry blob [] expiry = expiry
forward_expiry blob (r ∷ rs) expiry = forward_expiry blob rs (
    if r.id == id_message_expiry_interval
    then (elim r.kind [ u32_value ↦ read_u32_be (drop r.offset blob) | _ ↦ expiry ])
    else expiry)

-- The bytes and the expiry interval; `expiry_interval` is not null.
unfoldable pub serialize_forward_properties : PropertyPool → PropertyHandle → ℕ → List ℕ × ℕ
unfolding forward_records forward_expiry
serialize_forward_properties pool h cap =
    let records = Option.get_or (records_of pool h) [] in
    if cap == 0
    then ([], 0)
    else (forward_records pool.blob records cap, forward_expiry pool.blob records 0)

unfoldable pub encode_ack_packet : ℕ → PacketType → ℕ → ℕ → ℕ → ℕ → List ℕ
encode_ack_packet cap type packet_id reason fixed_qos_bits protocol_level =
    let v5 = leb 5 protocol_level in
    let remaining = if v5 then 2 + 1 + 1 else 2 in
    let rl = varint_bytes4 remaining in
    if ltb cap 6 || packet_id == 0
    then []
    else if ltb cap (1 + length rl + remaining)
    then []
    else bit_or (packet_type_to_byte type) fixed_qos_bits
      ∷ (rl ++ (write_u16_be packet_id ++ (if v5 then u8 reason ∷ 0 ∷ [] else [])))

unfoldable pub encode_puback : ℕ → ℕ → ℕ → ℕ → List ℕ
unfolding encode_ack_packet
encode_puback cap packet_id reason protocol_level =
    encode_ack_packet cap puback packet_id reason 0 protocol_level

unfoldable pub encode_pubrec : ℕ → ℕ → ℕ → ℕ → List ℕ
unfolding encode_ack_packet
encode_pubrec cap packet_id reason protocol_level =
    encode_ack_packet cap pubrec packet_id reason 0 protocol_level

unfoldable pub encode_pubrel : ℕ → ℕ → ℕ → ℕ → List ℕ
unfolding encode_ack_packet
encode_pubrel cap packet_id reason protocol_level =
    encode_ack_packet cap pubrel packet_id reason 2 protocol_level

unfoldable pub encode_pubcomp : ℕ → ℕ → ℕ → ℕ → List ℕ
unfolding encode_ack_packet
encode_pubcomp cap packet_id reason protocol_level =
    encode_ack_packet cap pubcomp packet_id reason 0 protocol_level

unfoldable pub reason_to_v4_connack_code : ℕ → ℕ
reason_to_v4_connack_code reason =
    if reason == reason_success
    then 0x00
    else if reason == reason_unsupported_protocol_version
    then 0x01
    else if reason == reason_client_identifier_not_valid || reason == reason_protocol_error
    then 0x02
    else if reason == reason_bad_user_name_or_password
    then 0x04
    else if reason == reason_not_authorized
    then 0x05
    else 0x03

-- `BrokerLimits::MaxPacketBytes`, the same in all four profiles, as ConnackCaps::MaximumPacketSize.
abbrev pub maximum_packet_size : ℕ
maximum_packet_size = 16384

-- The property bytes of a CONNACK. The broker's Maximum QoS is 2, so that property is left out.
unfoldable pub connack_properties : Option (List ℕ) → ℕ → List ℕ
connack_properties assigned_client_id server_keep_alive =
    let fixed =
      id_retain_available
      ∷ 1
      ∷ id_wildcard_subscription_available
      ∷ 1
      ∷ id_subscription_identifier_available
      ∷ 0
      ∷ id_shared_subscription_available
      ∷ 0
      ∷ id_topic_alias_maximum
      ∷ 0
      ∷ 0
      ∷ id_receive_maximum
      ∷ (write_u16_be connack_receive_maximum
          ++ (id_maximum_packet_size ∷ write_u32_be maximum_packet_size)) in
    let keep_alive =
      if ltb 0 server_keep_alive
      then id_server_keep_alive ∷ write_u16_be server_keep_alive
      else [] in
    let id = Option.get_or assigned_client_id [] in
    let before = fixed ++ keep_alive in
    let assigned =
      if ltb 0 (length id) && ltb (length id) 65535 && leb (length before + 3 + length id) 160
      then id_assigned_client_identifier ∷ (write_u16_be (length id) ++ id)
      else [] in
    before ++ assigned

unfoldable pub encode_connack : ℕ → ℕ → Bool → Option (List ℕ) → ℕ → ℕ → List ℕ
unfolding reason_to_v4_connack_code connack_properties
encode_connack cap reason session_present assigned_client_id server_keep_alive protocol_level =
    let flags = if session_present then 1 else 0 in
    let prop_body = connack_properties assigned_client_id server_keep_alive in
    let prop_len = varint_bytes4 (length prop_body) in
    let remaining = 2 + length prop_len + length prop_body in
    let rl = varint_bytes4 remaining in
    if ltb cap 5
    then []
    else if protocol_level == 4
    then packet_type_to_byte connack
      ∷ 0x02
      ∷ (if reason == reason_success then flags else 0)
      ∷ reason_to_v4_connack_code reason
      ∷ []
    else if ltb cap (1 + length rl + remaining)
    then []
    else packet_type_to_byte connack ∷ (rl ++ (flags ∷ u8 reason ∷ (prop_len ++ prop_body)))

unfoldable pub encode_disconnect : ℕ → ℕ → List ℕ
encode_disconnect cap reason =
    if ltb cap 4 then [] else packet_type_to_byte disconnect ∷ 0x02 ∷ u8 reason ∷ 0x00 ∷ []

unfoldable pub encode_pingresp : ℕ → List ℕ
encode_pingresp cap = if ltb cap 2 then [] else packet_type_to_byte pingresp ∷ 0x00 ∷ []

-- One code of a SUBACK: MQTT 3.1.1 knows only the granted QoS and one failure.
abbrev pub suback_code : Bool → ℕ → ℕ
suback_code v5 code = if not v5 && ltb 2 code then 0x80 else code

unfoldable pub encode_suback : ℕ → ℕ → List ℕ → ℕ → List ℕ
encode_suback cap packet_id rcs protocol_level =
    let v5 = leb 5 protocol_level in
    let remaining = 2 + (if v5 then 1 else 0) + length rcs in
    let rl = varint_bytes4 remaining in
    if length rcs == 0
    then []
    else if ltb cap (1 + length rl + remaining)
    then []
    else packet_type_to_byte suback
      ∷ (rl
          ++ (write_u16_be packet_id
              ++ ((if v5 then 0 ∷ [] else []) ++ map (suback_code v5) (map u8 rcs))))

unfoldable pub encode_unsuback : ℕ → ℕ → List ℕ → ℕ → List ℕ
encode_unsuback cap packet_id rcs protocol_level =
    let v5 = leb 5 protocol_level in
    let remaining = if v5 then 2 + 1 + length rcs else 2 in
    let rl = varint_bytes4 remaining in
    if length rcs == 0
    then []
    else if ltb cap (1 + length rl + remaining)
    then []
    else packet_type_to_byte unsuback
      ∷ (rl ++ (write_u16_be packet_id ++ (if v5 then 0 ∷ map u8 rcs else [])))

-- The fixed and variable header of a PUBLISH, with its properties.
unfoldable pub publish_header : List ℕ → Bool → ℕ → ℕ → Bool → List ℕ → ℕ → Bool → ℕ → ℕ → List ℕ
publish_header topic retain qos packet_id dup prop_bytes payload_len has_expiry expiry
      protocol_level =
    let v5 = leb 5 protocol_level in
    let prop_total = if v5 then length prop_bytes + (if has_expiry then 5 else 0) else 0 in
    let pl = if v5 then varint_bytes4 prop_total else [] in
    let body =
      2 + length topic + (if ltb 0 qos then 2 else 0) + length pl + prop_total + payload_len in
    let fh1 =
      if retain then bit_or (packet_type_to_byte publish) 0x01 else packet_type_to_byte publish in
    let fh2 = bit_or fh1 (u8 (bit_and qos 0x03 * 2)) in
    let fh = if dup then bit_or fh2 0x08 else fh2 in
    fh
    ∷ (varint_bytes4 body
        ++ (write_u16_be (u16 (length topic))
            ++ (topic
                ++ ((if ltb 0 qos then write_u16_be packet_id else [])
                    ++ (if v5
                        then pl
                          ++ ((if has_expiry
                                then id_message_expiry_interval ∷ write_u32_be expiry
                                else [])
                              ++ prop_bytes)
                        else [])))))

-- The loop that emits the window from `pos` to `end`, on fuel: a round takes a byte at least. `read`
-- is `read_payload` on the message.
unfoldable pub emit : ℕ → List ℕ → (ℕ → ℕ → List ℕ) → ℕ → ℕ → List ℕ
emit zero header read pos end = []
emit (suc fuel) header read pos end =
    let hlen = length header in
    let chunk = (if ltb end hlen then end else hlen) - pos in
    let copied = read (pos - hlen) (end - pos) in
    let from_header = take chunk (drop pos header) ++ emit fuel header read (pos + chunk) end in
    let from_payload = copied ++ emit fuel header read (pos + length copied) end in
    if leb end pos
    then []
    else if ltb pos hlen
    then from_header
    else if length copied == 0
    then []
    else from_payload

-- `topic` and `pool` are not null.
unfoldable pub encode_publish :
    ℕ → List ℕ → Bool → ℕ → ℕ → Bool → MessagePool → MessageHandle → ℕ → ℕ → Bool → ℕ → ℕ → List ℕ
unfolding estimate_publish_size publish_header emit
encode_publish cap topic retain qos packet_id dup pool msg payload_len encoded_offset has_expiry
      expiry protocol_level =
    let v5 = leb 5 protocol_level in
    let has_expiry' = has_expiry && v5 in
    let prop_bytes = if v5 then Option.get_or (props pool msg) [] else [] in
    let total =
      estimate_publish_size (some topic) payload_len qos (length prop_bytes) has_expiry'
        protocol_level in
    let header =
      publish_header topic retain qos packet_id dup prop_bytes payload_len has_expiry' expiry
        protocol_level in
    if ltb 2 qos
    then []
    else if ltb 0 qos && packet_id == 0
    then []
    else if cap == 0
    then []
    else if leb total encoded_offset
    then []
    else emit cap header (read_payload pool msg) encoded_offset
        (min (u32 (encoded_offset + cap)) total)

unfoldable pub encode_publish_qos0 :
    ℕ → List ℕ → Bool → MessagePool → MessageHandle → ℕ → ℕ → List ℕ
unfolding encode_publish
encode_publish_qos0 cap topic retain pool msg payload_len encoded_offset =
    encode_publish cap topic retain 0 0 false pool msg payload_len encoded_offset false 0 5
