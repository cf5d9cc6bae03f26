-- ===== src/Parser/Machine/Finish.antt =====
-- How a packet ends in libs/mqtt_broker/src/parser.cpp: `enter_error`, and `finish_packet` by type.
use net_burner_mqtt_broker.Base.{ℕ, Bool, not, if◌then◌else◌, none, some}
use net_burner_mqtt_broker.Delivery.{null_message, message_handle_valid}
use net_burner_mqtt_broker.MqttTypes.{
  PacketType, connect, publish, subscribe, unsubscribe, disconnect, reason_malformed_packet,
  reason_protocol_error,
}
use net_burner_mqtt_broker.MessagePool.{msg_release, msg_valid, payload_size}
use net_burner_mqtt_broker.PropertyPool.{null_property, handle_valid, release_slot}
use net_burner_mqtt_broker.Parser.Packet.{ParsedPacket, complete, error, PacketParser}
use net_burner_mqtt_broker.Parser.Connect.{parse_connect_payload}
use net_burner_mqtt_broker.Parser.Extract.{
  extract_connect_limits, extract_will_delay, extract_disconnect_session_expiry,
}
use net_burner_mqtt_broker.Parser.Subscribe.{parse_subscribe_payload, parse_unsubscribe_payload}

-- `active_payload_`, if it is valid, goes back to the pool.
unfoldable pub drop_active : PacketParser → PacketParser
drop_active p = elim p.msg_pool [
  | none ↦ p
  | some pool ↦
      if message_handle_valid p.active_payload
      then record p {
        msg_pool = some (msg_release pool p.active_payload);
        active_payload = null_message;
      }
      else p
]

unfoldable pub drop_properties : PacketParser → PacketParser
drop_properties p = elim p.prop_pool [
  | none ↦ p
  | some pool ↦
      if handle_valid pool p.packet.properties
      then record p {
        prop_pool = some (release_slot pool p.packet.properties);
        packet = record (p.packet) { properties = null_property };
      }
      else p
]

unfoldable pub drop_will_properties : PacketParser → PacketParser
drop_will_properties p = elim p.prop_pool [
  | none ↦ p
  | some pool ↦
      if handle_valid pool p.packet.will_properties
      then record p {
        prop_pool = some (release_slot pool p.packet.will_properties);
        packet = record (p.packet) { will_properties = null_property };
      }
      else p
]

unfoldable pub drop_will_payload : PacketParser → PacketParser
drop_will_payload p = elim p.msg_pool [
  | none ↦ p
  | some pool ↦
      if msg_valid pool p.packet.will_payload
      then record p {
        msg_pool = some (msg_release pool p.packet.will_payload);
        packet = record (p.packet) { will_payload = null_message };
      }
      else p
]

unfoldable pub enter_error : PacketParser → ℕ → PacketParser
unfolding drop_active drop_properties drop_will_properties drop_will_payload
enter_error p reason = drop_will_payload (
    drop_will_properties
      (drop_properties (drop_active (record p { phase = error; error_reason = reason }))))

abbrev pub completed : PacketParser → PacketParser
completed p = record p { phase = complete }

-- `finish_packet` by the packet's type.
unfoldable pub finish_connect : PacketParser → PacketParser
finish_connect p =
    let (b, parsed) = parse_connect_payload (record {
      packet = p.packet;
      msg_pool = p.msg_pool;
      prop_pool = p.prop_pool;
      rest = p.control_buf;
    }) in
    let p' : PacketParser = record p {
      packet = b.packet;
      msg_pool = b.msg_pool;
      prop_pool = b.prop_pool;
    } in
    if not parsed
    then enter_error p' reason_protocol_error
    else completed (record p' {
      packet = extract_will_delay (extract_connect_limits b.packet b.prop_pool) b.prop_pool;
    })

unfoldable pub finish_publish : PacketParser → PacketParser
finish_publish p = elim p.msg_pool [
  | none ↦ completed p
  | some pool ↦
      if message_handle_valid p.active_payload
      then completed (record p {
        packet = record (p.packet) {
          payload = p.active_payload;
          payload_len = payload_size pool p.active_payload;
        };
      })
      else completed p
]

unfoldable pub finish_subscription : PacketParser → ParsedPacket × Bool → PacketParser
finish_subscription p (pkt, parsed) =
    let p' : PacketParser = record p { packet = pkt } in
    if not parsed then enter_error p' reason_malformed_packet else completed p'

unfoldable pub finish_as : PacketType → PacketParser → PacketParser
unfolding finish_publish finish_connect finish_subscription
finish_as publish p = finish_publish p
finish_as connect p = finish_connect p
finish_as disconnect p =
    completed (record p { packet = extract_disconnect_session_expiry p.packet p.prop_pool })
finish_as subscribe p = finish_subscription p (parse_subscribe_payload p.control_buf p.packet)
finish_as unsubscribe p = finish_subscription p (parse_unsubscribe_payload p.control_buf p.packet)
finish_as _ p = completed p

unfoldable pub finish_packet : PacketParser → PacketParser
unfolding finish_as
finish_packet p = finish_as p.packet.type p
