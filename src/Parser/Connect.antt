-- ===== src/Parser/Connect.antt =====
-- The CONNECT packet in libs/mqtt_broker/src/parser.cpp: its variable header and its payload. The
-- bytes from `*off` on are the list `rest`; a part of the payload that fails leaves what it has
-- written, as the code does.
use net_burner_mqtt_broker.Base.{
  ℕ, ◌+◌, ◌/◌, ◌^◌, bit_and, Bool, true, false, ◌&&◌, ◌||◌, not, ltb, leb, ◌==◌, u8, if◌then◌else◌,
  List, [], ◌∷◌, Option, none, some, length, take, drop,
}
use net_burner_mqtt_broker.Delivery.{null_message, message_handle_valid}
use net_burner_mqtt_broker.MqttTypes.{connect}
use net_burner_mqtt_broker.Varint.{varint_decode}
use net_burner_mqtt_broker.Wire.{byte_at, read_u16_be}
use net_burner_mqtt_broker.Topic.{topic_valid, same_bytes}
use net_burner_mqtt_broker.TopicIntern.{until_nul}
use net_burner_mqtt_broker.MessagePool.{MessagePool, acquire_empty, msg_release}
use net_burner_mqtt_broker.MessagePool.Payload.{append_payload}
use net_burner_mqtt_broker.PropertyPool.{PropertyPool, null_property}
use net_burner_mqtt_broker.PropertyRules.Parse.{is_ok, parse_and_validate_properties}
use net_burner_mqtt_broker.Parser.Packet.{ParsedPacket, max_username_len, max_password_len}

-- "MQTT"
abbrev pub mqtt_name : List ℕ
mqtt_name = b'M' ∷ b'Q' ∷ b'T' ∷ b'T' ∷ []

-- `pkt` is not null; the packet as it is left, and the answer.
unfoldable pub parse_connect_variable_header : List ℕ → ParsedPacket → ParsedPacket × Bool
parse_connect_variable_header buf pkt =
    let plen = read_u16_be buf in
    let level = byte_at buf (2 + plen) in
    let flags = byte_at buf (2 + plen + 1) in
    let name = until_nul (take plen (drop 2 buf)) in
    let pkt' : ParsedPacket = record pkt {
      protocol_name = name;
      protocol_level = level;
      connect_flags = flags;
      keep_alive = read_u16_be (drop (2 + plen + 2) buf);
      clean_start = not (bit_and flags 0x02 == 0);
    } in
    if ltb (length buf) 6
    then (pkt, false)
    else if plen == 0 || ltb (length buf) (2 + plen + 4) || leb 16 plen
    then (pkt, false)
    else (pkt', same_bytes name mqtt_name && (level == 4 || level == 5))

-- What the parts of the payload's parser share: the packet, the pools, and the bytes that are left.
pub record Body : Type 0 where
  pub packet : ParsedPacket
  pub msg_pool : Option MessagePool
  pub prop_pool : Option PropertyPool
  pub rest : List ℕ

-- One part and then the next; a part that answers false ends the parse.
infixr 5 ◌then_also◌
abbrev pub ◌then_also◌ : (Body → Body × Bool) → (Body → Body × Bool) → Body → Body × Bool
◌then_also◌ first next b = let (b', ok) = first b in if ok then next b' else (b', false)

-- `props != nullptr && prop_len.value > 0`: the properties are parsed from the first `n` bytes.
unfoldable pub store_will_properties : Body → ℕ → Bool → Body × Bool
store_will_properties b n false = (b, true)
store_will_properties b n true = elim b.prop_pool [
  | none ↦ (b, true)
  | some props ↦
      let (props', h, vr) = parse_and_validate_properties connect (take n b.rest) props in
      (
        record b { prop_pool = some props'; packet = record (b.packet) { will_properties = h } },
        vr.ok,
      )
]

unfoldable pub will_properties_part : Body → Body × Bool
unfolding store_will_properties
will_properties_part b =
    let prop_len = varint_decode b.rest in
    let n = prop_len.bytes_consumed + prop_len.value in
    let (b', ok) = store_will_properties b n (ltb 0 prop_len.value) in
    if not (leb 5 b.packet.protocol_level)
    then (b, true)
    else if not (is_ok prop_len.result)
    then (b, false)
    else if ltb (length b.rest) n
    then (b, false)
    else if not ok
    then (b', false)
    else (record b' { rest = drop n b.rest }, true)

unfoldable pub will_topic_part : Body → Body × Bool
will_topic_part b =
    let topic_len = read_u16_be b.rest in
    let behind = drop 2 b.rest in
    let topic = until_nul (take topic_len behind) in
    let b' : Body = record b {
      packet = record (b.packet) { will_topic = topic };
      rest = drop topic_len behind;
    } in
    if ltb (length b.rest) 2
    then (b, false)
    else if ltb (length behind) topic_len || topic_len == 0 || leb 256 topic_len
    then (b, false)
    else (b', topic_valid (some topic))

-- The will's payload, put into the pool.
unfoldable pub store_will_payload : Body → List ℕ → Body × Bool
store_will_payload b [] = (b, true)
store_will_payload b (c ∷ bytes) = elim b.msg_pool [
  | none ↦ (b, true)
  | some pool ↦
      let (pool1, h) = acquire_empty pool in
      let (pool2, stored) = append_payload pool1 h (c ∷ bytes) in
      if not (message_handle_valid h)
      then (
        record b { msg_pool = some pool1; packet = record (b.packet) { will_payload = h } },
        false,
      )
      else if not stored
      then (
        record b {
          msg_pool = some (msg_release pool2 h);
          packet = record (b.packet) { will_payload = null_message };
        },
        false,
      )
      else (
        record b { msg_pool = some pool2; packet = record (b.packet) { will_payload = h } },
        true,
      )
]

unfoldable pub will_payload_part : Body → Body × Bool
unfolding store_will_payload
will_payload_part b =
    let payload_len = read_u16_be b.rest in
    let behind = drop 2 b.rest in
    let (b', ok) = store_will_payload b (take payload_len behind) in
    if ltb (length b.rest) 2
    then (b, false)
    else if ltb (length behind) payload_len
    then (b, false)
    else if not ok
    then (b', false)
    else (
      record b' {
        packet = record (b'.packet) { will_payload_len = payload_len };
        rest = drop payload_len behind;
      },
      true,
    )

-- `parse_connect_will_section`
unfoldable pub will_section : Body → Body × Bool
unfolding will_properties_part will_topic_part will_payload_part
will_section b =
    let flags = b.packet.connect_flags in
    let b' : Body = record b {
      packet = record (b.packet) {
        will_flag = true;
        will_qos = u8 (bit_and (flags / 2 ^ 3) 0x03);
        will_retain = not (bit_and flags 0x20 == 0);
      };
    } in
    let result = (will_properties_part then_also will_topic_part then_also will_payload_part) b' in
    if bit_and flags 0x04 == 0 then (b, true) else result

unfoldable pub username_part : Body → Body × Bool
username_part b =
    let ulen = read_u16_be b.rest in
    let behind = drop 2 b.rest in
    let b' : Body = record b {
      packet = record (b.packet) {
        has_username = true;
        username =
            if ltb ulen max_username_len then until_nul (take ulen behind) else b.packet.username;
      };
      rest = drop ulen behind;
    } in
    if bit_and b.packet.connect_flags 0x80 == 0
    then (b, true)
    else if ltb (length b.rest) 2
    then (b, false)
    else if ltb (length behind) ulen
    then (b, false)
    else (b', true)

unfoldable pub password_part : Body → Body × Bool
password_part b =
    let plen = read_u16_be b.rest in
    let behind = drop 2 b.rest in
    let b' : Body = record b {
      packet = record (b.packet) {
        has_password = true;
        password = if leb plen max_password_len then take plen behind else b.packet.password;
      };
      rest = drop plen behind;
    } in
    if bit_and b.packet.connect_flags 0x40 == 0
    then (b, true)
    else if ltb (length b.rest) 2
    then (b, false)
    else if ltb (length behind) plen
    then (b, false)
    else (b', true)

-- `off == len`
abbrev pub at_end : Body → Body × Bool
at_end b = (b, length b.rest == 0)

unfoldable pub parse_connect_payload : Body → Body × Bool
unfolding will_section username_part password_part
parse_connect_payload b =
    let cid_len = read_u16_be b.rest in
    let cleared : ParsedPacket = record (b.packet) {
      will_flag = false;
      will_qos = 0;
      will_retain = false;
      will_topic = [];
      will_payload = null_message;
      will_payload_len = 0;
      will_properties = null_property;
      has_username = false;
      has_password = false;
      username = [];
      password = [];
    } in
    let named : Body = record b {
      packet = record cleared { client_id = until_nul (take cid_len (drop 2 b.rest)) };
      rest = drop (2 + cid_len) b.rest;
    } in
    if ltb (length b.rest) 2
    then (b, false)
    else if ltb (length b.rest) (2 + cid_len) || leb 256 cid_len
    then (record b { packet = cleared }, false)
    else (will_section then_also username_part then_also password_part then_also at_end) named
