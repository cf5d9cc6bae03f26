-- ===== src/Parser/Machine.antt =====
-- The state machine of libs/mqtt_broker/src/parser.cpp: `consume_byte`, with a function for each phase
-- and, in the variable header, for each packet type. What `return 1` ends is the end of a branch here.
mod Finish
mod Header
unfoldable pub use Finish.{
  drop_active, drop_properties, drop_will_properties, drop_will_payload, enter_error,
  finish_connect, finish_publish, finish_subscription, finish_as, finish_packet,
}
pub use Finish.{completed}
unfoldable pub use Header.{
  publish_topic, header_publish, header_subscribe, header_connect, header_ack, header_disconnect,
  header_other, header_as,
}
pub use Header.{to_properties, all_consumed}
use net_burner_mqtt_broker.Base.{
  ℕ, ◌+◌, ◌/◌, ◌^◌, bit_and, Bool, true, false, ◌&&◌, ◌||◌, not, ltb, leb, ◌==◌, u32, sub32,
  if◌then◌else◌, List, [], ◌∷◌, ◌++◌, none, some, length, take, drop,
}
use net_burner_mqtt_broker.Delivery.{null_message, message_handle_valid}
use net_burner_mqtt_broker.MqttTypes.{
  PacketType, connect, publish, puback, pubrec, pubrel, pubcomp, subscribe, unsubscribe, disconnect,
  packet_type_from_byte, reason_malformed_packet, reason_packet_too_large, reason_quota_exceeded,
  reason_topic_name_invalid, reason_protocol_error,
}
use net_burner_mqtt_broker.Varint.{ok, need_more, too_large, overflow, varint_decode}
use net_burner_mqtt_broker.Wire.{byte_at, read_u16_be}
use net_burner_mqtt_broker.Topic.{topic_valid}
use net_burner_mqtt_broker.TopicIntern.{until_nul}
use net_burner_mqtt_broker.MessagePool.{acquire_empty, msg_release, msg_valid, payload_size}
use net_burner_mqtt_broker.MessagePool.Payload.{append_payload}
use net_burner_mqtt_broker.PropertyPool.{null_property, handle_valid, release_slot}
use net_burner_mqtt_broker.PropertyRules.Parse.{parse_and_validate_properties}
use net_burner_mqtt_broker.Parser.Packet.{
  ParsedPacket, ParsePhase, idle, fixed_header_phase, remaining_length_phase, variable_header,
  properties_phase, payload_phase, complete, error, PacketParser, control_size,
}
use net_burner_mqtt_broker.Parser.Connect.{parse_connect_variable_header, parse_connect_payload}
use net_burner_mqtt_broker.Parser.Extract.{
  extract_connect_limits, extract_will_delay, extract_disconnect_session_expiry,
}
use net_burner_mqtt_broker.Parser.Subscribe.{parse_subscribe_payload, parse_unsubscribe_payload}

-- The first byte of a packet.
unfoldable pub consume_fixed_header : PacketParser → ℕ → PacketParser
consume_fixed_header p b = record p {
  fixed_header = b;
  packet = record (p.packet) {
    type = packet_type_from_byte b;
    flags = bit_and b 0x0f;
    qos = bit_and (b / 2 ^ 1) 0x03;
    dup = not (bit_and b 0x08 == 0);
    retain = not (bit_and b 0x01 == 0);
    disconnect_reason = 0;
  };
  rl_buf = [];
  phase = remaining_length_phase;
}

-- The start of a PUBLISH, whose payload gets a slot of the pool.
unfoldable pub begin_publish : PacketParser → PacketParser
begin_publish p = elim p.msg_pool [
  | none ↦ record p { control_target = 2; phase = variable_header }
  | some pool ↦
      let (pool', h) = acquire_empty pool in
      let p' : PacketParser = record p { msg_pool = some pool'; active_payload = h } in
      if not (message_handle_valid h)
      then enter_error p' reason_quota_exceeded
      else record p' { control_target = 2; phase = variable_header }
]

-- What follows the fixed header, by the packet's type.
unfoldable pub begin_as : PacketType → PacketParser → PacketParser
unfolding begin_publish
begin_as publish p = begin_publish p
begin_as subscribe p = record p { control_target = 2; phase = variable_header }
begin_as connect p = record p { control_target = 2; phase = variable_header }
begin_as unsubscribe p = record p { control_target = 2; phase = variable_header }
begin_as puback p = record p { control_target = 2; phase = variable_header }
begin_as pubrec p = record p { control_target = 2; phase = variable_header }
begin_as pubrel p = record p { control_target = 2; phase = variable_header }
begin_as pubcomp p = record p { control_target = 2; phase = variable_header }
begin_as disconnect p = record p { control_target = 1; phase = variable_header }
begin_as _ p = record p { phase = payload_phase }

-- The remaining length has been read as `value`.
unfoldable pub begin_body : PacketParser → ℕ → PacketParser
unfolding begin_as
begin_body p value =
    let p' : PacketParser = record p {
      remaining_total = value;
      packet = record (p.packet) { remaining_length = value };
      remaining_consumed = 0;
      control_buf = [];
      property_len_known = false;
      property_section_len = 0;
      property_section_consumed = 0;
    } in
    if ltb p.limits.max_packet_bytes value
    then enter_error p' reason_packet_too_large
    else if value == 0
    then finish_packet p'
    else begin_as p'.packet.type p'

unfoldable pub consume_remaining_length : PacketParser → ℕ → PacketParser
unfolding begin_body
consume_remaining_length p b =
    let rl = p.rl_buf ++ (b ∷ []) in
    let d = varint_decode rl in
    let p' : PacketParser = record p { rl_buf = rl } in
    if ltb 4 (length rl) then enter_error p' reason_malformed_packet else elim d.result [
      | need_more ↦ p'
      | ok ↦ begin_body p' d.value
      | too_large ↦ enter_error p' reason_malformed_packet
      | overflow ↦ enter_error p' reason_malformed_packet
    ]

-- The byte goes into `control_buf` and is counted.
abbrev pub buffered : PacketParser → ℕ → PacketParser
buffered p b = record p {
  control_buf = p.control_buf ++ (b ∷ []);
  remaining_consumed = u32 (p.remaining_consumed + 1);
}

unfoldable pub consume_variable_header : PacketParser → ℕ → PacketParser
unfolding header_as
consume_variable_header p b =
    if leb control_size (length p.control_buf)
    then enter_error p reason_malformed_packet
    else header_as p.packet.type (buffered p b)

-- The property section is complete.
unfoldable pub properties_done : PacketParser → PacketParser
properties_done p = elim p.prop_pool [
  | none ↦
      if sub32 p.remaining_total p.remaining_consumed == 0
      then finish_packet p
      else record p { control_buf = []; phase = payload_phase }
  | some pool ↦
      let (pool', h, vr) = parse_and_validate_properties p.packet.type p.control_buf pool in
      let p' : PacketParser = record p {
        prop_pool = some pool';
        packet = record (p.packet) { properties = h };
      } in
      if not vr.ok
      then enter_error p' vr.reason
      else if sub32 p.remaining_total p.remaining_consumed == 0
      then finish_packet p'
      else record p' { control_buf = []; phase = payload_phase }
]

unfoldable pub properties_target : PacketParser → PacketParser
unfolding properties_done
properties_target p = if ltb (length p.control_buf) p.control_target then p else properties_done p

unfoldable pub consume_properties : PacketParser → ℕ → PacketParser
unfolding properties_target
consume_properties p b =
    let p' : PacketParser = buffered p b in
    let d = varint_decode p'.control_buf in
    if leb control_size (length p.control_buf)
    then enter_error p reason_malformed_packet
    else if p.property_len_known
    then properties_target p'
    else elim d.result [
      | need_more ↦ p'
      | ok ↦ properties_target (record p' {
        property_section_len = d.value;
        property_len_known = true;
        control_target = d.bytes_consumed + d.value;
      })
      | too_large ↦ enter_error p' reason_malformed_packet
      | overflow ↦ enter_error p' reason_malformed_packet
    ]

abbrev pub finish_if_all : PacketParser → PacketParser
finish_if_all p = if all_consumed p then finish_packet p else p

-- A payload byte that is kept in `control_buf`.
unfoldable pub payload_buffered : PacketParser → ℕ → PacketParser
payload_buffered p b =
    if ltb (length p.control_buf) control_size
    then finish_if_all (record p { control_buf = p.control_buf ++ (b ∷ []) })
    else enter_error p reason_malformed_packet

-- A payload byte of a PUBLISH.
unfoldable pub payload_publish : PacketParser → ℕ → PacketParser
payload_publish p b = elim p.msg_pool [
  | none ↦ finish_if_all p
  | some pool ↦
      let (pool', stored) = append_payload pool p.active_payload (b ∷ []) in
      let p' : PacketParser = record p { msg_pool = some pool' } in
      if not (message_handle_valid p.active_payload)
      then finish_if_all p
      else if not stored
      then enter_error p' reason_quota_exceeded
      else finish_if_all p'
]

unfoldable pub payload_as : PacketType → PacketParser → ℕ → PacketParser
unfolding payload_publish payload_buffered
payload_as publish p b = payload_publish p b
payload_as connect p b = payload_buffered p b
payload_as subscribe p b = payload_buffered p b
payload_as unsubscribe p b = payload_buffered p b
payload_as _ p b = finish_if_all p

unfoldable pub consume_payload : PacketParser → ℕ → PacketParser
unfolding payload_as
consume_payload p b =
    payload_as p.packet.type (record p { remaining_consumed = u32 (p.remaining_consumed + 1) }) b

unfoldable pub consume_in : ParsePhase → PacketParser → ℕ → PacketParser × ℕ
unfolding consume_fixed_header consume_remaining_length consume_variable_header consume_properties
    consume_payload
consume_in idle p b = (consume_fixed_header p b, 1)
consume_in fixed_header_phase p b = (consume_fixed_header p b, 1)
consume_in remaining_length_phase p b = (consume_remaining_length p b, 1)
consume_in variable_header p b = (consume_variable_header p b, 1)
consume_in properties_phase p b = (consume_properties p b, 1)
consume_in payload_phase p b = (consume_payload p b, 1)
consume_in complete p b = (p, 0)
consume_in error p b = (p, 0)

unfoldable pub consume_byte : PacketParser → ℕ → PacketParser × ℕ
unfolding consume_in
consume_byte p b = consume_in p.phase p b

-- `phase_ == ParsePhase::Complete || phase_ == ParsePhase::Error`
abbrev pub has_ended : ParsePhase → Bool
has_ended complete = true
has_ended error = true
has_ended _ = false

-- The loop, on the bytes that are left: the parser and the number of bytes consumed.
unfoldable pub feed : PacketParser → List ℕ → PacketParser × ℕ
unfolding consume_byte
feed p [] = (p, 0)
feed p (b ∷ bytes) =
    let (p', n) = consume_byte p b in
    let (p2, more) = feed p' bytes in
    if has_ended p.phase then (p, 0) else if n == 0 then (p', 0) else (p2, n + more)
