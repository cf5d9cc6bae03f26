-- ===== src/Parser/Machine/Header.antt =====
-- The variable header in `consume_byte` of libs/mqtt_broker/src/parser.cpp, with a function for each
-- packet type.
use net_burner_mqtt_broker.Base.{
  ◌+◌, Bool, false, ◌&&◌, ◌||◌, not, ltb, leb, ◌==◌, if◌then◌else◌, [], some, length, take, drop,
}
use net_burner_mqtt_broker.MqttTypes.{
  PacketType, connect, publish, puback, pubrec, pubrel, pubcomp, subscribe, unsubscribe, disconnect,
  reason_topic_name_invalid, reason_protocol_error,
}
use net_burner_mqtt_broker.Wire.{byte_at, read_u16_be}
use net_burner_mqtt_broker.Topic.{topic_valid}
use net_burner_mqtt_broker.TopicIntern.{until_nul}
use net_burner_mqtt_broker.Parser.Packet.{properties_phase, payload_phase, PacketParser}
use net_burner_mqtt_broker.Parser.Connect.{parse_connect_variable_header}
use net_burner_mqtt_broker.Parser.Machine.Finish.{enter_error, finish_packet}

abbrev pub to_properties : PacketParser → PacketParser
to_properties p = record p {
  control_buf = [];
  phase = properties_phase;
  property_len_known = false;
  property_section_len = 0;
}

-- `remaining_consumed_ >= remaining_total_`
abbrev pub all_consumed : PacketParser → Bool
all_consumed p = leb p.remaining_total p.remaining_consumed

-- The topic name and packet identifier of a PUBLISH are complete.
unfoldable pub publish_topic : PacketParser → PacketParser
publish_topic p =
    let buf = p.control_buf in
    let tlen = read_u16_be buf in
    let topic = until_nul (take tlen (drop 2 buf)) in
    let id = if ltb 0 p.packet.qos then read_u16_be (drop (2 + tlen) buf) else 0 in
    let named : PacketParser = record p { packet = record (p.packet) { topic = topic } } in
    let p' : PacketParser = record p {
      packet = record (p.packet) { topic = topic; packet_id = id };
    } in
    if leb 256 tlen
    then enter_error p reason_topic_name_invalid
    else if not (topic_valid (some topic))
    then enter_error named reason_topic_name_invalid
    else if ltb 0 p.packet.qos && id == 0
    then enter_error p' reason_protocol_error
    else if p.protocol_level == 4
    then (if all_consumed p
        then finish_packet (record p' { control_buf = [] })
        else record p' { control_buf = []; phase = payload_phase })
    else to_properties p'

-- In these functions the byte stands in `control_buf` already.
unfoldable pub header_publish : PacketParser → PacketParser
unfolding publish_topic
header_publish p =
    let tlen = read_u16_be p.control_buf in
    let target =
      if length p.control_buf == 2
      then 2 + tlen + (if ltb 0 p.packet.qos then 2 else 0)
      else p.control_target in
    let p' : PacketParser = record p { control_target = target } in
    if length p.control_buf == 2 && (tlen == 0 || ltb p.limits.max_topic_bytes tlen)
    then enter_error p reason_topic_name_invalid
    else if ltb (length p.control_buf) target
    then p'
    else if ltb (length p.control_buf) (2 + tlen)
    then p'
    else publish_topic p'

unfoldable pub header_subscribe : PacketParser → PacketParser
header_subscribe p =
    let p' : PacketParser = record p {
      packet = record (p.packet) { packet_id = read_u16_be p.control_buf };
    } in
    if ltb (length p.control_buf) 2
    then p
    else if p.protocol_level == 4
    then record p' { control_buf = []; phase = payload_phase }
    else to_properties p'

unfoldable pub header_connect : PacketParser → PacketParser
header_connect p =
    let plen = read_u16_be p.control_buf in
    let target = if length p.control_buf == 2 then 2 + plen + 4 else p.control_target in
    let p' : PacketParser = record p { control_target = target } in
    let (pkt, parsed) = parse_connect_variable_header p.control_buf p.packet in
    let p2 : PacketParser = record p' { packet = pkt } in
    let p3 : PacketParser = record p2 { protocol_level = pkt.protocol_level } in
    if length p.control_buf == 2 && (plen == 0 || ltb 8 plen)
    then enter_error p reason_protocol_error
    else if ltb (length p.control_buf) target || leb target 2
    then p'
    else if not parsed
    then enter_error p2 reason_protocol_error
    else if pkt.protocol_level == 4
    then record p3 { control_buf = []; phase = payload_phase }
    else to_properties p3

unfoldable pub header_ack : PacketParser → PacketParser
header_ack p =
    let identified : PacketParser = record p {
      packet = record (p.packet) { packet_id = read_u16_be p.control_buf; ack_reason_code = 0x00 };
    } in
    let reasoned : PacketParser = record p {
      packet = record (p.packet) { ack_reason_code = byte_at p.control_buf 2 };
    } in
    if length p.control_buf == 2
    then (if all_consumed p
        then finish_packet identified
        else record identified { control_target = 3 })
    else if ltb (length p.control_buf) 3
    then p
    else if all_consumed p
    then finish_packet reasoned
    else to_properties reasoned

unfoldable pub header_disconnect : PacketParser → PacketParser
header_disconnect p =
    let p' : PacketParser = record p {
      packet = record (p.packet) { disconnect_reason = byte_at p.control_buf 0 };
    } in
    if all_consumed p then finish_packet p' else to_properties p'

unfoldable pub header_other : PacketParser → PacketParser
header_other p = if all_consumed p then finish_packet p else record p { phase = properties_phase }

unfoldable pub header_as : PacketType → PacketParser → PacketParser
unfolding header_publish header_subscribe header_connect header_ack header_disconnect header_other
header_as publish p = header_publish p
header_as subscribe p = header_subscribe p
header_as connect p = header_connect p
header_as unsubscribe p = header_subscribe p
header_as puback p = header_ack p
header_as pubrec p = header_ack p
header_as pubrel p = header_ack p
header_as pubcomp p = header_ack p
header_as disconnect p = header_disconnect p
header_as _ p = header_other p
