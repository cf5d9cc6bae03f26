-- ===== src/Broker/Dispatch.antt =====
-- Subscriptions, the end of a connection, and the dispatch of packets in
-- libs/mqtt_broker/src/broker.cpp, with libs/mqtt_broker/src/protocol_error.cpp.
use net_burner_mqtt_broker.Base.{
  ℕ, Bool, true, false, ◌&&◌, ◌||◌, not, ◌==◌, if◌then◌else◌, List, [], ◌∷◌, none, some, take,
  bit_and,
}
use net_burner_mqtt_broker.MqttTypes.{
  PacketType, reserved, connect, connack, publish, puback, pubrec, pubrel, pubcomp, subscribe,
  suback, unsubscribe, unsuback, pingreq, pingresp, disconnect, auth, reason_success,
  reason_no_subscription_existed, reason_quota_exceeded, reason_shared_subscriptions_not_supported,
  reason_bad_authentication_method, reason_protocol_error, reason_malformed_packet,
  reason_topic_name_invalid, reason_topic_alias_invalid, reason_packet_too_large,
}
use net_burner_mqtt_broker.Topic.{same_bytes}
use net_burner_mqtt_broker.Encode.{encode_suback, encode_unsuback, encode_pingresp}
use net_burner_mqtt_broker.Parser.Packet.{ParsedPacket, ParsedSubscribeEntry}
use net_burner_mqtt_broker.Trie.Slots
use net_burner_mqtt_broker.Broker.Metrics.{parser_failures}
use net_burner_mqtt_broker.Broker.{Broker}
use net_burner_mqtt_broker.Broker.State.{
  session_at, put_session, connection_at, counted, session_of, touch_keepalive,
}
use net_burner_mqtt_broker.Broker.Sessions.{Router}
use net_burner_mqtt_broker.Broker.Transport.{disconnect_transport, send_disconnect, write_ignoring}
use net_burner_mqtt_broker.Broker.Enqueue.{within_qos}
use net_burner_mqtt_broker.Broker.Routing.{retain_handling_of}
use net_burner_mqtt_broker.Broker.Stored.{deliver_retained_for_filter}
use net_burner_mqtt_broker.Broker.Connect.{handle_connect}
use net_burner_mqtt_broker.Broker.Packets.{
  handle_publish, handle_puback, handle_pubrec, handle_pubrel, handle_pubcomp,
}

-- "$share/"
abbrev share_prefix : List ℕ
share_prefix = b'$' ∷ b's' ∷ b'h' ∷ b'a' ∷ b'r' ∷ b'e' ∷ b'/' ∷ []

pub record ProtocolErrorAction : Type 0 where
  pub reason : ℕ
  pub disconnects : Bool
  pub publish_will : Bool

abbrev is_violation : ℕ → Bool
is_violation reason =
    reason == reason_malformed_packet
    || reason == reason_protocol_error
    || reason == reason_topic_name_invalid
    || reason == reason_topic_alias_invalid
    || reason == reason_packet_too_large

unfoldable pub protocol_error_action : ℕ → ProtocolErrorAction
protocol_error_action reason =
    let violation = is_violation reason in
    record { reason = reason; disconnects = violation; publish_will = violation }

module _ {W : Type 0} where
  -- A round of the loop of `handle_subscribe` for a filter that the trie takes.
  unfoldable pub subscribed : Router W → Broker W → ℕ → ℕ → ParsedSubscribeEntry → Bool → Broker W
  unfolding deliver_retained_for_filter
  subscribed route b id i e existed =
      let b1 = put_session b i (record (session_at b i) { has_subscription_state = true }) in
      if retain_handling_of e.options_byte == 1 && existed
      then b1
      else deliver_retained_for_filter route b1 id (session_at b1 i).self e.filter e.options_byte

  -- A round of the loop, with the reason code that it stores.
  unfoldable pub subscribe_entry : Router W → Broker W → ℕ → ℕ → ParsedSubscribeEntry → Broker W × ℕ
  unfolding subscribed same_bytes
  subscribe_entry route b id i e =
      let granted = within_qos (bit_and e.options_byte 0x03) in
      let (trie, result) =
        Slots.subscribe b.topic_trie (some e.filter) (session_at b i).self.slot granted
          e.options_byte in
      let b1 = record b { topic_trie = trie } in
      if same_bytes (take 7 e.filter) share_prefix
      then (b, reason_shared_subscriptions_not_supported)
      else if not result.accepted
      then (b1, reason_quota_exceeded)
      else (subscribed route b1 id i e result.out_existed, granted)

  unfoldable pub subscribe_entries :
      Router W → Broker W → ℕ → ℕ → List ParsedSubscribeEntry → Broker W × List ℕ
  unfolding subscribe_entry
  subscribe_entries route b id i [] = (b, [])
  subscribe_entries route b id i (e ∷ es) =
      let (b1, rc) = subscribe_entry route b id i e in
      let (b2, rcs) = subscribe_entries route b1 id i es in (b2, rc ∷ rcs)

  unfoldable pub handle_subscribe : Router W → Broker W → ℕ → ParsedPacket → Broker W
  unfolding subscribe_entries write_ignoring
  handle_subscribe route b id pkt = elim (session_of b id) [
    | none ↦ b
    | some i ↦
        let (b1, rcs) = subscribe_entries route b id i pkt.subscribe_entries in
        write_ignoring b1 id
          (encode_suback 64 pkt.packet_id rcs (connection_at b1 id).protocol_level)
  ]

  unfoldable pub unsubscribe_entries : Broker W → ℕ → List ParsedSubscribeEntry → Broker W × List ℕ
  unsubscribe_entries b slot [] = (b, [])
  unsubscribe_entries b slot (e ∷ es) =
      let (trie, existed) = Slots.unsubscribe b.topic_trie e.filter slot in
      let (b2, rcs) = unsubscribe_entries (record b { topic_trie = trie }) slot es in
      (b2, (if existed then reason_success else reason_no_subscription_existed) ∷ rcs)

  -- The answer to no filters at all is never written.
  unfoldable pub handle_unsubscribe : Broker W → ℕ → ParsedPacket → Broker W
  unfolding unsubscribe_entries write_ignoring
  handle_unsubscribe b id pkt = elim (session_of b id) [
    | none ↦ b
    | some i ↦ elim pkt.subscribe_entries [
      | [] ↦ b
      | e ∷ es ↦
          let (b1, rcs) = unsubscribe_entries b (session_at b i).self.slot (e ∷ es) in
          write_ignoring b1 id
            (encode_unsuback 64 pkt.packet_id rcs (connection_at b1 id).protocol_level)
    ]
  ]

  unfoldable pub handle_ping : Broker W → ℕ → Broker W
  unfolding write_ignoring
  handle_ping b id = write_ignoring b id (encode_pingresp 4)

  unfoldable pub handle_disconnect : Router W → Broker W → ℕ → ParsedPacket → Broker W
  unfolding disconnect_transport
  handle_disconnect route b id pkt =
      let b1 : Broker W = elim (session_of b id) [
        | none ↦ b
        | some i ↦
            let s = session_at b i in
            put_session b i (record s {
              suppress_will = not (pkt.disconnect_reason == 0x04);
              session_expiry_interval =
                  if not (pkt.disconnect_session_expiry == 0xffffffff)
                  then pkt.disconnect_session_expiry
                  else s.session_expiry_interval;
            })
      ] in
      disconnect_transport route b1 id false

  -- The default case of `handle_packet`.
  unfoldable pub unsupported_packet : Router W → Broker W → ℕ → Broker W
  unfolding protocol_error_action disconnect_transport
  unsupported_packet route b id =
      let b1 = counted parser_failures b in
      if (protocol_error_action reason_protocol_error).disconnects
      then disconnect_transport route b1 id false
      else b1

  -- The switch of `handle_packet`, whose answer no caller reads.
  unfoldable pub dispatch : Router W → Broker W → ℕ → ParsedPacket → PacketType → Broker W
  unfolding handle_subscribe handle_unsubscribe handle_ping handle_disconnect unsupported_packet
  dispatch route b id pkt connect = handle_connect route b id pkt
  dispatch route b id pkt publish = handle_publish route b id pkt
  dispatch route b id pkt puback = handle_puback b id pkt
  dispatch route b id pkt pubrec = handle_pubrec b id pkt
  dispatch route b id pkt pubrel = handle_pubrel route b id pkt
  dispatch route b id pkt pubcomp = handle_pubcomp b id pkt
  dispatch route b id pkt subscribe = handle_subscribe route b id pkt
  dispatch route b id pkt unsubscribe = handle_unsubscribe b id pkt
  dispatch route b id pkt pingreq = handle_ping b id
  dispatch route b id pkt disconnect = handle_disconnect route b id pkt
  dispatch route b id pkt auth =
      disconnect_transport route (send_disconnect b id reason_bad_authentication_method) id false
  dispatch route b id pkt reserved = unsupported_packet route b id
  dispatch route b id pkt connack = unsupported_packet route b id
  dispatch route b id pkt suback = unsupported_packet route b id
  dispatch route b id pkt unsuback = unsupported_packet route b id
  dispatch route b id pkt pingresp = unsupported_packet route b id

  unfoldable pub handle_packet : Router W → Broker W → ℕ → ParsedPacket → Broker W
  unfolding dispatch touch_keepalive
  handle_packet route b id pkt =
      dispatch route (touch_keepalive b id b.current_tick) id pkt pkt.type
